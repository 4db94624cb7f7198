-- ===== src/Tests/StoreTests.antt =====
-- The block log and the cache at concrete blocks.
use godcoin_js_legacy.Prelude.{
  if◌then◌else◌, ltb, ◌+◌, ℕ, lookup, ◌≡◌, refl, List, [], ◌∷◌, ◌++◌, true, none, some, arith, ok,
  err, invalid_checksum, chop_failed, length,
}
use godcoin_js_legacy.Neon.{Neon, SignedBlock}
use godcoin_js_legacy.ChainStore.{ChainStore, read_block, write, chop, read_block_log}
use godcoin_js_legacy.ChainStore.Cache.{BlockCache, get, push}
use godcoin_js_legacy.ChainStore.Frames.{IsStorable, frame_with, read_block-corrupt}
use godcoin_js_legacy.ChainStore.Log.{IsLog, frames, entries, write-IsLog, read_block_log-IsLog}
use godcoin_js_legacy.ChainStore.Chop.{up_to, chop-IsLog}
use godcoin_js_legacy.ChainStore.Window.{IsWindow, push-IsWindow}
use godcoin_js_legacy.Tests.Sample.{packages, packages_laws, neon_for}

abbrev block_at : ℕ → SignedBlock
block_at h = record {
  height = h;
  previous_hash = [];
  timestamp = h;
  merkle_root = [];
  transactions = [];
  sig_pair = record { key = record { buffer = 10 ∷ [] }; signature = 10 ∷ [] };
}

abbrev blocks : List SignedBlock
blocks = block_at 0 ∷ block_at 1 ∷ block_at 2 ∷ []

instance abbrev neon : Neon
neon = neon_for [] blocks

abbrev empty_cache : BlockCache
empty_cache = record { cache = []; min = 0; count = 0 }

abbrev empty_store : ChainStore
empty_store = record {
  file = [];
  block_tail_pos = 0;
  block_head = none;
  initialized = true;
  block_cache = empty_cache;
}

abbrev two_blocks : ChainStore
two_blocks = record {
  file = frames (block_at 0 ∷ block_at 1 ∷ []);
  block_tail_pos = length (frames (block_at 0 ∷ block_at 1 ∷ []));
  block_head = some (block_at 1);
  initialized = true;
  block_cache = empty_cache;
}

storable : (b : SignedBlock) → neon.decode_with_tx (neon.encode_with_tx b) ≡ some b → IsStorable b
storable b e = record { decoded = e; short = omega arith }

two_blocks-IsLog : IsLog two_blocks (block_at 0 ∷ block_at 1 ∷ [])
two_blocks-IsLog = record {
  file = refl;
  tail = refl;
  storable = (storable (block_at 0) refl, (storable (block_at 1) refl, tt));
}

write-IsLog_example :
    ((write (block_at 2) two_blocks).0
      ≡ ok (packages.from_number (length (frames (block_at 0 ∷ block_at 1 ∷ [])))))
    × IsLog (write (block_at 2) two_blocks).1 ((block_at 0 ∷ block_at 1 ∷ []) ++ block_at 2 ∷ [])
write-IsLog_example = write-IsLog (block_at 2) (storable (block_at 2) refl) two_blocks-IsLog refl

read_block_log-IsLog_example :
    read_block_log two_blocks ≡ (entries 0 (block_at 0 ∷ block_at 1 ∷ []), none)
read_block_log-IsLog_example =
    read_block_log-IsLog packages_laws (block_at 0 ∷ block_at 1 ∷ []) two_blocks-IsLog

chop-IsLog_example :
    (up_to 0 (block_at 0 ∷ block_at 1 ∷ []) ≡ none
      → chop 0 two_blocks ≡ (err chop_failed, two_blocks))
    × ((kept : List SignedBlock)
        → up_to 0 (block_at 0 ∷ block_at 1 ∷ []) ≡ some kept
        → ((chop 0 two_blocks).0 ≡ ok tt) × IsLog (chop 0 two_blocks).1 kept)
chop-IsLog_example = chop-IsLog packages_laws 0 (block_at 0 ∷ block_at 1 ∷ []) refl two_blocks-IsLog

read_block-corrupt_example :
    read_block ((7 ∷ []) ++ (frame_with (1 ∷ 2 ∷ []) 5 ++ [])) 1 ≡ err invalid_checksum
read_block-corrupt_example =
    read_block-corrupt (7 ∷ []) (1 ∷ 2 ∷ []) [] 5 (omega arith) (omega arith) (omega arith)

empty-IsWindow : IsWindow block_at 0 empty_cache
unfolding get lookup
empty-IsWindow = record {
  blocks = λ h. ground arith;
  bounded = omega arith;
  ends = λ ne. absurd (ne refl);
}

push-IsWindow_example :
    IsWindow block_at 1 (push (block_at 0) empty_cache)
    × ((push (block_at 0) empty_cache).count
        ≡ (if ltb empty_cache.count 1000 then empty_cache.count + 1 else 1000))
push-IsWindow_example = push-IsWindow block_at 0 empty_cache refl empty-IsWindow
