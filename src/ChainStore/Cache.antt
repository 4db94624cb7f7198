-- ===== src/ChainStore/Cache.antt =====
-- `BlockCache` of src/lib/blockchain/chain_store.ts.
use godcoin_js_legacy.Prelude.{
  ℕ, ◌+◌, Option, nat_eq, Dict, lookup, insert, erase, ltb, eqb, if◌then◌else◌,
}
use godcoin_js_legacy.Neon.{SignedBlock}

abbrev pub max_cache_size : ℕ
max_cache_size = 1000

pub record BlockCache : Type 0 where
  pub cache : Dict ℕ SignedBlock
  pub min : ℕ
  pub count : ℕ

unfoldable pub get : ℕ → BlockCache → Option SignedBlock
get height c = lookup height c.cache

unfoldable pub push : SignedBlock → BlockCache → BlockCache
push block c =
    let cache' = insert block.height block c.cache in
    if ltb max_cache_size (c.count + 1)
    then record c { cache = erase c.min cache'; min = c.min + 1 }
    else record c {
      cache = cache';
      min = if eqb c.count 0 then block.height else c.min;
      count = c.count + 1;
    }
