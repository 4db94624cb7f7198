-- ===== src/ChainStore/Window.antt =====
-- The cache of blocks while blocks of consecutive heights are pushed.
use godcoin_js_legacy.Prelude.{
  ℕ, ◌+◌, ◌≤◌, ◌≡◌, ◌≢◌, ◌&&◌, none, some, arith, nat_eq, insert, lookup-insert, lookup-erase, ltb,
  leb, if◌then◌else◌, Option,
}
use godcoin_js_legacy.Neon.{SignedBlock}
use godcoin_js_legacy.ChainStore.Cache.{BlockCache, max_cache_size, get, push}

-- `chain h` is the block of height `h`.
abbrev pub held : ℕ → ℕ → (ℕ → SignedBlock) → ℕ → Option SignedBlock
held low size chain h = if leb low h && ltb h (low + size) then some (chain h) else none

-- The cache holds the `count` blocks from height `min`, whose next is `next`, and nothing else.
pub record IsWindow (chain : ℕ → SignedBlock) (next : ℕ) (c : BlockCache) : Type 0 where
  pub blocks : (h : ℕ) → get h c ≡ held c.min c.count chain h
  pub bounded : c.count ≤ max_cache_size
  pub ends : c.count ≢ 0 → c.min + c.count ≡ next

-- Pushing the next block keeps the window of the latest blocks: below a thousand blocks it grows by one,
-- and at a thousand it stays at a thousand.
pub push-IsWindow :
    (chain : ℕ → SignedBlock) (next : ℕ) (c : BlockCache)
    → (chain next).height ≡ next
    → IsWindow chain next c
    → IsWindow chain (next + 1) (push (chain next) c)
      × ((push (chain next) c).count ≡ (if ltb c.count 1000 then c.count + 1 else 1000))
unfolding push
push-IsWindow chain next c named w = (
  record {
    blocks = λ h. blocks-push h;
    bounded = ground (arith, w.bounded);
    ends = λ ne. ground (arith, w.ends, w.bounded);
  },
  ground (arith, w.bounded),
)
  where
    blocks-push :
        (h : ℕ)
        → get h (push (chain next) c)
          ≡ held (push (chain next) c).min (push (chain next) c).count chain (h)
    blocks-push h =
        unfold get in
        ground (
          arith,
          w.blocks h,
          w.ends,
          w.bounded,
          named,
          lookup-erase c.min h (insert (chain next).height (chain next) c.cache),
          lookup-insert (chain next).height h (chain next) c.cache,
        )
