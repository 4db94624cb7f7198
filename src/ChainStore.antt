-- ===== src/ChainStore.antt =====
-- src/lib/blockchain/chain_store.ts: the block log, a file of frames (length, block, checksum), the index
-- that points into it, and the cache of the latest blocks.
pub mod Cache
pub mod Frames
pub mod Log
pub mod Chop
pub mod Window
use godcoin_js_legacy.Prelude.{
  ℕ, zero, suc, ◌+◌, ◌-◌, ◌<◌, List, [], ◌∷◌, ◌++◌, Bool, true, false, Option, none, some, Bytes, ℤ,
  pos, negsuc, Result, ok, err, assert, defined, ◌>>=◌, ◌>>◌, Error, type_error,
  already_initialized, not_initialized, invalid_head, chop_failed, not_genesis, unexpected_eof,
  invalid_checksum, undecodable_block, length, take, drop, eqb, ltb, if◌then◌else◌,
}
use godcoin_js_legacy.Neon.{Neon, SignedBlock}
use godcoin_js_legacy.Packages.{Level, Packages, Long}
use godcoin_js_legacy.Buffers.{write_uint32_be, read_uint32_be}
use godcoin_js_legacy.Indexer.{Index, get_block_pos, get_chain_height}
use Cache.{BlockCache}

pub record ChainStore : Type 0 where
  -- the bytes of `dbFile`
  pub file : Bytes
  pub block_tail_pos : ℕ
  pub block_head : Option SignedBlock
  pub initialized : Bool
  pub block_cache : BlockCache

-- `fsRead(fd, buf, 0, len, pos)`: the bytes that were read.
unfoldable pub fs_read : Bytes → ℕ → ℕ → Bytes
fs_read file len position = take len (drop position file)

-- `fsWrite` to a file opened with 'a+' appends.
unfoldable pub fs_write : Bytes → ChainStore → ChainStore
fs_write bytes s = record s { file = s.file ++ bytes }

-- the check of `bytesRead`
unfoldable pub read_exact : Bytes → ℕ → ℕ → Result Bytes
read_exact file len position =
    let buf = fs_read file len position in do assert (eqb (length buf) len) unexpected_eof; ok buf

-- `fsTruncate` at the end of the block that was found
abbrev pub truncate : ChainStore → Result ℕ → Result (Unit {0}) × ChainStore
truncate s (err e) = (err e, s)
truncate s (ok cut) = (ok tt, record s { file = take cut s.file; block_tail_pos = cut })

module _ ⦃n : Neon⦄ ⦃p : Packages⦄ where
  -- the checksum, the block and the length of its frame
  unfoldable pub verify_block : Bytes → ℕ → ℕ → Result (SignedBlock × ℕ)
  verify_block buf checksum len = do
    assert (eqb (p.crc32 buf) checksum) invalid_checksum
    block ← defined (n.decode_with_tx buf) undecodable_block
    ok (block, len + 8)

  unfoldable pub read_block : Bytes → ℕ → Result (SignedBlock × ℕ)
  read_block file block_pos = do
    len_bytes ← read_exact file 4 block_pos
    len ← defined (read_uint32_be len_bytes) unexpected_eof
    buf ← read_exact file len (block_pos + 4)
    sum_bytes ← read_exact file 4 (block_pos + len + 4)
    checksum ← defined (read_uint32_be sum_bytes) unexpected_eof
    verify_block buf checksum len

  -- the bytes of one block in the log
  unfoldable pub frame : Bytes → Bytes
  frame enc_block =
      write_uint32_be (length enc_block) ++ (enc_block ++ write_uint32_be (p.crc32 enc_block))

  unfoldable pub append_block : SignedBlock → ChainStore → ChainStore
  append_block block s =
      let enc_block = n.encode_with_tx block in
      let s' = fs_write (frame enc_block) s in
      record s' {
        block_head = some block;
        block_tail_pos = s.block_tail_pos + (length enc_block + 8);
        block_cache = Cache.push block s.block_cache;
      }

  abbrev pub genesis_first : ChainStore → SignedBlock → Result (Unit {0})
  genesis_first s block = elim s.block_head [
    | none ↦ assert (eqb block.height 0) not_genesis
    | some _ ↦ ok tt
  ]

  abbrev pub write_after : Result (Unit {0}) → SignedBlock → ChainStore → Result Long × ChainStore
  write_after (err e) block s = (err e, s)
  write_after (ok _) block s = (ok (p.from_number s.block_tail_pos), append_block block s)

  -- the state after the method, and the position of the block or what was thrown
  unfoldable pub write : SignedBlock → ChainStore → Result Long × ChainStore
  write block s = write_after (genesis_first s block) block s

  -- The rounds of `chop`'s loop; a round moves on by at least eight bytes, so the bytes that are left
  -- are fuel enough. The result is where the log is cut.
  unfoldable pub chop_from : ℕ → ℕ → ℕ → ℕ → Bytes → Result ℕ
  chop_from zero height block_pos tail_pos file = err chop_failed
  chop_from (suc fuel) height block_pos tail_pos file = elim (ltb block_pos tail_pos) [
    | false ↦ err chop_failed
    | true ↦ read_block file block_pos >>= λ block.
        let rest = chop_from fuel height (block_pos + block.1) tail_pos file in
        if eqb (block.0).height height then ok (block_pos + block.1) else rest
  ]

  unfoldable pub chop : ℕ → ChainStore → Result (Unit {0}) × ChainStore
  chop height s =
      if s.initialized
      then truncate s (chop_from (s.block_tail_pos + 1) height 0 s.block_tail_pos s.file)
      else (err not_initialized, s)

  -- What `readBlockLog` hands to its callback: the blocks with their positions and lengths, and the
  -- error at which it stops, if it does.
  unfoldable pub read_block_log_from : ℕ → ℕ → ℕ → Bytes → List (SignedBlock × ℕ × ℕ) × Option Error
  read_block_log_from zero block_pos tail_pos file = ([], none)
  read_block_log_from (suc fuel) block_pos tail_pos file = elim (ltb block_pos tail_pos) [
    | false ↦ ([], none)
    | true ↦ elim (read_block file block_pos) [
      | err e ↦ ([], some e)
      | ok (block, byte_len) ↦
          let rest = read_block_log_from fuel (block_pos + byte_len) tail_pos file in
          ((block, block_pos, byte_len) ∷ rest.0, rest.1)
    ]
  ]

  unfoldable pub read_block_log : ChainStore → List (SignedBlock × ℕ × ℕ) × Option Error
  read_block_log s = read_block_log_from (s.block_tail_pos + 1) 0 s.block_tail_pos s.file

  abbrev pub read_at : Bytes → Option Long → Result (Option SignedBlock)
  read_at file none = ok none
  read_at file (some byte_pos) = do
    found ← read_block file (p.to_number byte_pos)
    ok (some found.0)

-- a stored height is a natural number; a negative one is refused like a head that is not there
abbrev pub head_height : ℤ → Result ℕ
head_height (pos h) = ok h
head_height (negsuc _) = err invalid_head

-- `init`, with the bytes that the file holds
unfoldable pub init : Bytes → ChainStore → Result (Unit {0}) × ChainStore
init contents s = elim s.initialized [
  | true ↦ (err already_initialized, s)
  | false ↦
      (ok tt, record s { file = contents; block_tail_pos = length contents; initialized = true })
]

unfoldable pub close : ChainStore → ChainStore
close s = record s { initialized = false }

abbrev pub cache_found :
    Result SignedBlock
    → (ChainStore → Result (Unit {0}) × ChainStore)
    → ChainStore
    → Result (Unit {0}) × ChainStore
cache_found (err e) rest s = (err e, s)
cache_found (ok block) rest s = rest (record s { block_cache = Cache.push block s.block_cache })

module _ {Db : Type 0} ⦃n : Neon⦄ ⦃p : Packages⦄ ⦃l : Level Db⦄ where
  unfoldable pub read : Index Db → ChainStore → ℕ → Result (Option SignedBlock)
  read index s block_height = elim (Cache.get block_height s.block_cache) [
    | some block ↦ ok (some block)
    | none ↦ get_block_pos index block_height >>= read_at s.file
  ]

  -- the cache is filled with `count` blocks from `min`
  unfoldable pub fill_cache : ℕ → ℕ → Index Db → ChainStore → Result (Unit {0}) × ChainStore
  fill_cache zero min index s = (ok tt, s)
  fill_cache (suc count) min index s =
      cache_found (read index s min >>= λ found. defined found type_error)
        (fill_cache count (min + 1) index) s

  abbrev pub head_found :
      Result (Option SignedBlock) → ℕ → Index Db → ChainStore → Result (Unit {0}) × ChainStore
  head_found (err e) height index s = (err e, s)
  head_found (ok none) height index s = (err invalid_head, record s { block_head = none })
  head_found (ok (some block)) height index s =
      let min = height - Cache.max_cache_size in
      fill_cache (height + 1 - min) min index (record s { block_head = some block })

  unfoldable pub load_head : ℕ → Index Db → ChainStore → Result (Unit {0}) × ChainStore
  load_head height index s = head_found (read index s height) height index s

  -- by `getChainHeight`
  abbrev pub load_at : Result ℕ → Index Db → ChainStore → Result (Unit {0}) × ChainStore
  load_at (err e) index s = (err e, record s { block_head = none })
  load_at (ok height) index s = load_head height index s

  abbrev pub load_from :
      Bool → Result (Option ℤ) → Index Db → ChainStore → Result (Unit {0}) × ChainStore
  load_from false height index s = (err not_initialized, s)
  load_from true (err e) index s = (err e, s)
  load_from true (ok none) index s = (ok tt, s)
  load_from true (ok (some height)) index s = load_at (head_height height) index s

  unfoldable pub post_init : Index Db → ChainStore → Result (Unit {0}) × ChainStore
  post_init index s = load_from s.initialized (get_chain_height index) index s
