-- ===== src/Blockchain/Reloaded.antt =====
-- `postInit` and `reload`, by the parts of the state that they do not write.
use godcoin_js_legacy.Prelude.{
  ℕ, zero, suc, ◌+◌, ◌≡◌, refl, ap, ◌∙◌, Bool, true, false, Option, none, some, Result, ok, err, ℤ,
}
use godcoin_js_legacy.Neon.{Neon, SignedBlock}
use godcoin_js_legacy.Packages.{Level, Packages}
use godcoin_js_legacy.Exec.{Exec, Keeps, resume-Keeps, ◌>>=◌, ◌>>◌, >>=-Keeps, >>-Keeps}
use godcoin_js_legacy.Indexer.{Index, get_chain_height}
use godcoin_js_legacy.ChainStore.{
  ChainStore, cache_found, fill_cache, head_found, load_head, load_at, load_from, post_init,
}
use godcoin_js_legacy.ChainStore.Cache
use godcoin_js_legacy.ChainStore.Cache.{BlockCache}
use godcoin_js_legacy.Assets.{Balance}
use godcoin_js_legacy.Blockchain.Chain.{Chain, head, get_block}
use godcoin_js_legacy.Blockchain.Blocks.{fee_of_head, load_store, set_genesis, reload}
use godcoin_js_legacy.Blockchain.Fees.{cache_network_fee, store_fee}

-- the index and the store
abbrev pub both : {Db : Type 0} → Chain Db → Index Db × ChainStore
both c = (c.index, c.store)

cache_found-kept :
    {B : Type 0} (part : ChainStore → B) (r : Result SignedBlock)
    (rest : ChainStore → Result (Unit {0}) × ChainStore) (s : ChainStore)
    → ((t : ChainStore) (cache : BlockCache) → part (record t { block_cache = cache }) ≡ part t)
    → ((t : ChainStore) → part (rest t).1 ≡ part t)
    → part (cache_found r rest s).1 ≡ part s
cache_found-kept part (err e) rest s blind later = refl
cache_found-kept part (ok block) rest s blind later =
    later (record s { block_cache = Cache.push block s.block_cache })
    ∙ blind s (Cache.push block s.block_cache)

module _ {Db : Type 0} ⦃n : Neon⦄ ⦃p : Packages⦄ ⦃l : Level Db⦄ where
  abbrev pub KeepsFile : {A : Type 0} → Exec (Chain Db) A → Type 0
  KeepsFile m = Keeps (λ c. c.store.file) m

  -- filling the cache changes nothing but the cache
  pub fill_cache-kept :
      {B : Type 0} (part : ChainStore → B) (count min : ℕ) (index : Index Db) (s : ChainStore)
      → ((t : ChainStore) (cache : BlockCache) → part (record t { block_cache = cache }) ≡ part t)
      → part (fill_cache count min index s).1 ≡ part s
  unfolding fill_cache
  fill_cache-kept part zero min index s blind = refl
  fill_cache-kept part (suc count) min index s blind =
      cache_found-kept part _ (fill_cache count (min + 1) index) s blind
        (λ t. fill_cache-kept part count (min + 1) index t blind)

  head_found_file :
      (r : Result (Option SignedBlock)) (height : ℕ) (index : Index Db) (s : ChainStore)
      → (head_found r height index s).1.file ≡ s.file
  head_found_file (err e) height index s = refl
  head_found_file (ok none) height index s = refl
  head_found_file (ok (some block)) height index s =
      fill_cache-kept (λ t. t.file) _ _ index (record s { block_head = some block })
        (λ t cache. refl)

  load_at_file :
      (r : Result ℕ) (index : Index Db) (s : ChainStore) → (load_at r index s).1.file ≡ s.file
  unfolding load_head
  load_at_file (err e) index s = refl
  load_at_file (ok height) index s = head_found_file _ height index s

  load_from_file :
      (b : Bool) (r : Result (Option ℤ)) (index : Index Db) (s : ChainStore)
      → (load_from b r index s).1.file ≡ s.file
  load_from_file false r index s = refl
  load_from_file true (err e) index s = refl
  load_from_file true (ok none) index s = refl
  load_from_file true (ok (some height)) index s = load_at_file _ index s

  -- `reload` after `postInit` changes neither the index nor the store
  abbrev pub KeepsBoth : {A : Type 0} → Exec (Chain Db) A → Type 0
  KeepsBoth m = Keeps both m

  abbrev pub after_load : Exec (Chain Db) (Unit {0})
  after_load =
      (λ c. (get_block c 0, c)) >>= λ genesis. set_genesis genesis >> (λ c. fee_of_head (head c) c)

  store_fee-both : (r : Result Balance) (c : Chain Db) → both (store_fee r c).1 ≡ both c
  store_fee-both (ok fee) c = refl
  store_fee-both (err e) c = refl

  fee_of_head-KeepsBoth : (o : Option SignedBlock) → KeepsBoth (fee_of_head o)
  unfolding cache_network_fee
  fee_of_head-KeepsBoth none = record { kept = λ c. refl }
  fee_of_head-KeepsBoth (some b) = record { kept = λ c. store_fee-both _ c }

  set_genesis-KeepsBoth : (genesis : Option SignedBlock) → KeepsBoth (set_genesis genesis)
  unfolding set_genesis
  set_genesis-KeepsBoth genesis = record { kept = λ c. refl }

  genesis_read-KeepsBoth : KeepsBoth (λ c. (get_block c 0, c))
  genesis_read-KeepsBoth = record { kept = λ c. refl }

  last_fee-KeepsBoth : KeepsBoth (λ c. fee_of_head (head c) c)
  last_fee-KeepsBoth = record { kept = λ c. (fee_of_head-KeepsBoth (head c)).kept c }

  after_load-KeepsBoth : KeepsBoth after_load
  after_load-KeepsBoth =
      >>=-Keeps genesis_read-KeepsBoth
        (λ genesis. >>-Keeps (set_genesis-KeepsBoth genesis) last_fee-KeepsBoth)

  -- what `reload` leaves of the index and the store is what `postInit` leaves
  pub reload-load_store : (c : Chain Db) → both (reload c).1 ≡ both (load_store c).1
  unfolding reload
  reload-load_store c =
      resume-Keeps both (load_store c).0 (load_store c).1 (λ u. after_load)
        (λ u. after_load-KeepsBoth)

  pub reload-KeepsFile : KeepsFile reload
  unfolding load_store post_init
  reload-KeepsFile = record {
    kept = λ c.
        ap (λ x. x.1.file) (reload-load_store c)
        ∙ load_from_file c.store.initialized (get_chain_height c.index) c.index c.store;
  }
