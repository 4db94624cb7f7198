-- ===== src/Node/Rewound.antt =====
-- A synchronization with a peer that has no more blocks: what `flush` of a batch without blocks and `reload`
-- make of the head.
use godcoin_js_legacy.Prelude.{
  ℕ, ◌≡◌, refl, sym, ap, ◌∙◌, List, [], ◌∷◌, Bool, true, false, Option, none, some, pos, Result, ok,
  arith, ◌>>=◌, bytes_equal_iff, bytes_equal,
}
use godcoin_js_legacy.Neon.{Neon, Asset, gold, silver, SignedBlock}
use godcoin_js_legacy.Neon.Laws.{NeonLaws}
use godcoin_js_legacy.Packages.{Level, LevelLaws, Packages}
use godcoin_js_legacy.Buffers.{write_int32_be}
use godcoin_js_legacy.Buffers.Words.{read_int32_be-write_all}
use godcoin_js_legacy.Exec.{resume, ◌>>◌, pure, resume-Keeps, Keeps}
use godcoin_js_legacy.Indexer.{
  Index, get_chain_height, set_chain_height, get_token_supply, set_token_supply, get_block_pos,
  or_undefined, decode_height, key_current_block_height, key_token_supply, encode_assets,
}
use godcoin_js_legacy.Indexer.Frames.{
  get_block_pos-set_prop_ne, get_chain_height-set_prop_ne, get_token_supply-set_prop_ne,
  get_prop-set_prop_same,
}
use godcoin_js_legacy.Indexer.Batch
use godcoin_js_legacy.Indexer.BlockIndexer.{
  Session, new_indexer, empty_balance, flush, flush_batch, store_totals, write_totals, add_totals,
  add_slot,
}
use godcoin_js_legacy.ChainStore.{
  ChainStore, read, read_at, head_found, load_head, load_from, post_init,
}
use godcoin_js_legacy.ChainStore.Cache
use godcoin_js_legacy.Blockchain.Chain.{Chain, head}
use godcoin_js_legacy.Blockchain.Blocks.{Clock, load_store, reload}
use godcoin_js_legacy.Blockchain.Reloaded.{fill_cache-kept, reload-load_store}
use godcoin_js_legacy.Blockchain.Start.{Reindex, in_batch, on_chain}
use godcoin_js_legacy.Node.PeerPool.{BlockRange}
use godcoin_js_legacy.Node.Synchronizer.{
  Round, index_range, min_height, max_height, height_of, run_round, sync_rounds, sync_all,
  synchronize_chain,
}

abbrev pub nothing_new : BlockRange
nothing_new = record { range_outside_height = true; blocks = [] }

-- the empty totals are added to those of the index
totals_added :
    ⦃n : Neon⦄ (nl : NeonLaws n) (g s : Asset)
    → g.symbol ≡ gold
    → s.symbol ≡ silver
    → (t : Asset × Asset) × (add_totals empty_balance (ok (g, s)) ≡ ok t)
unfolding add_totals add_slot
totals_added ⦃n⦄ nl g s eg es =
    let (g', added, same, worth) = nl.add_lem g n.empty_gold (eg ∙ sym nl.empty_gold_lem.0) in
    let (s', added', same', worth') =
      nl.add_lem s n.empty_silver (es ∙ sym nl.empty_silver_lem.0) in
    ((g', s'), rw (added, added') refl)

module _ {Db : Type 0} ⦃n : Neon⦄ ⦃p : Packages⦄ ⦃l : Level Db⦄ where
  -- the index after `flush` of a batch without blocks
  abbrev rewound : Asset × Asset → Index Db → Index Db
  rewound t i = set_token_supply t (set_chain_height 0 i)

  flush_empty :
      (t : Asset × Asset) (i : Index Db) (store : ChainStore)
      → add_totals empty_balance (get_token_supply (set_chain_height 0 i)) ≡ ok t
      → flush (record { indexer = new_indexer; index = i; store = store }) ≡ (
        ok tt,
        record {
          indexer = record new_indexer { batch = record { ops = []; map = none } };
          index = rewound t i;
          store = store;
        },
      )
  unfolding flush flush_batch write_totals Batch.set_balances Batch.maybe_flush Batch.flush
      Batch.flush_balances Batch.balance_ops Batch.put_all
  flush_empty t i store e =
      ap
        (λ r. store_totals r (record {
          indexer = record new_indexer { batch = record { ops = []; map = none } };
          index = set_chain_height 0 i;
          store = store;
        }))
        e

  abbrev put_back : Session Db → Reindex Db → Reindex Db
  put_back s w = record w {
    batch = s.indexer;
    chain = record (w.chain) { index = s.index; store = s.store };
  }

  head_loaded :
      (r : Result (Option SignedBlock)) (index : Index Db) (s : ChainStore) (first : SignedBlock)
      → r ≡ ok (some first)
      → (head_found r 0 index s).1.block_head ≡ some first
  head_loaded r index s first e =
      ap (λ x. (head_found x 0 index s).1.block_head) e
      ∙ fill_cache-kept (λ t. t.block_head) 1 0 index (record s { block_head = some first })
          (λ t cache. refl)

  read-same :
      (i j : Index Db) (s : ChainStore)
      → get_block_pos i 0 ≡ get_block_pos j 0
      → read i s 0 ≡ read j s 0
  unfolding read
  read-same i j s e =
      ap
        (λ q. elim (Cache.get 0 s.block_cache) [
          | some block ↦ ok (some block)
          | none ↦ q >>= read_at s.file
        ])
        e

module _ {Db : Type 0} ⦃n : Neon⦄ ⦃p : Packages⦄ ⦃l : Level Db⦄ (ll : LevelLaws l) where
  height_written : (i : Index Db) → get_chain_height (set_chain_height 0 i) ≡ ok (some (pos 0))
  unfolding get_chain_height set_chain_height
  height_written i =
      ap (or_undefined decode_height) (
        get_prop-set_prop_same ll 0 key_current_block_height (write_int32_be (pos 0)) i
          key_current_block_height ((bytes_equal_iff _ _).1 refl))
      ∙ rw (read_int32_be-write_all (pos 0) (omega arith) (omega arith))

  height-rewound :
      (t : Asset × Asset) (i : Index Db) → get_chain_height (rewound t i) ≡ ok (some (pos 0))
  unfolding set_token_supply
  height-rewound t i =
      get_chain_height-set_prop_ne ll 0 key_token_supply (encode_assets t) (set_chain_height 0 i)
        (unfold bytes_equal in refl)
      ∙ height_written i

  supply_kept : (i : Index Db) → get_token_supply (set_chain_height 0 i) ≡ get_token_supply i
  unfolding set_chain_height
  supply_kept i =
      get_token_supply-set_prop_ne ll 0 key_current_block_height (write_int32_be (pos 0)) i
        (unfold bytes_equal in refl)

  positions_kept :
      (t : Asset × Asset) (i : Index Db) → get_block_pos (rewound t i) 0 ≡ get_block_pos i 0
  unfolding set_token_supply set_chain_height
  positions_kept t i =
      get_block_pos-set_prop_ne ll 0 key_token_supply (encode_assets t) (set_chain_height 0 i) 0
        refl
      ∙ get_block_pos-set_prop_ne ll 0 key_current_block_height (write_int32_be (pos 0)) i 0 refl

  -- `postInit` then finds the first block
  load-rewound :
      (t : Asset × Asset) (i : Index Db) (s : ChainStore) (first : SignedBlock)
      → s.initialized ≡ true
      → read i s 0 ≡ ok (some first)
      → (post_init (rewound t i) s).1.block_head ≡ some first
  unfolding post_init load_head
  load-rewound t i s first has found =
      ap (λ b. (load_from b (get_chain_height (rewound t i)) (rewound t i) s).1.block_head) has
      ∙ ap (λ h. (load_from true h (rewound t i) s).1.block_head) (height-rewound t i)
      ∙ head_loaded (read (rewound t i) s 0) (rewound t i) s first
          (read-same (rewound t i) i s (positions_kept t i) ∙ found)

  -- what `reload` and the end of `synchronizeChain` make of it
  reload-rewound :
      (t : Asset × Asset) (c : Chain Db) (i : Index Db) (first : SignedBlock)
      → c.index ≡ rewound t i
      → c.store.initialized ≡ true
      → read i c.store 0 ≡ ok (some first)
      → (get_chain_height (reload c).1.index ≡ ok (some (pos 0)))
        × ((reload c).1.store.block_head ≡ some first)
  unfolding load_store
  reload-rewound t c i first same has found = (
    ap (λ x. get_chain_height x.0) (reload-load_store c)
        ∙ ap get_chain_height same
        ∙ height-rewound t i,
    ap (λ x. x.1.block_head) (reload-load_store c)
        ∙ ap (λ x. (post_init x c.store).1.block_head) same
        ∙ load-rewound t i c.store first has found,
  )

  end-Keeps : (ended : Bool) → Keeps (λ (w : Reindex Db). w.chain) (pure {S = Reindex Db} ended)
  end-Keeps ended = record { kept = λ w. refl }

  -- the end of `synchronizeChain`, for a batch without blocks
  flush_and_reload :
      (t : Asset × Asset) (w : Reindex Db)
      → w.batch ≡ new_indexer
      → add_totals empty_balance (get_token_supply (set_chain_height 0 w.chain.index)) ≡ ok t
      → ((in_batch flush >> (on_chain reload >> pure true)) w).1.chain
        ≡ (reload (record (w.chain) { index = rewound t w.chain.index })).1
  unfolding in_batch on_chain
  flush_and_reload t w fresh totals =
      let c' = record (w.chain) { index = rewound t w.chain.index } in
      let flushed : flush
            (record { indexer = w.batch; index = w.chain.index; store = w.chain.store })
          ≡ (
            ok tt,
            record {
              indexer = record new_indexer { batch = record { ops = []; map = none } };
              index = rewound t w.chain.index;
              store = w.chain.store;
            },
          ) =
        ap (λ b. flush (record { indexer = b; index = w.chain.index; store = w.chain.store })) fresh
        ∙ flush_empty t w.chain.index w.chain.store totals in
      let w' : Reindex Db = record w {
        batch = record new_indexer { batch = record { ops = []; map = none } };
        chain = c';
      } in
      ap
        (λ (x : Result (Unit {0}) × Session Db).
          (resume x.0 (λ u. on_chain reload >> pure true) (put_back x.1 w)).1.chain)
        flushed
      ∙ resume-Keeps (λ (v : Reindex Db). v.chain) (on_chain reload w').0 (on_chain reload w').1
          (λ u. pure true) (λ u. end-Keeps true)

module _ {Db : Type 0} ⦃n : Neon⦄ ⦃p : Packages⦄ ⦃l : Level Db⦄ where
  ended_at_once :
      (clock : Clock) (height : Option ℕ) (round : Round) (rounds : List Round) (w : Reindex Db)
      → round.running ≡ true
      → round.answer (min_height height) (max_height height) ≡ ok nothing_new
      → sync_rounds clock height (round ∷ rounds) w ≡ (ok true, w)
  unfolding sync_rounds index_range
  ended_at_once clock height round rounds w runs answered =
      let again = sync_rounds clock height rounds in
      let next = sync_rounds clock (some (max_height height)) rounds in
      ap
        (λ b.
          run_round b (round.answer (min_height height) (max_height height)) round.still clock again
            next w)
        runs
      ∙ ap (λ a. run_round true a round.still clock again next w) answered

  -- A node whose peer answers the first request with no block and no more to come loses its place: whatever
  -- the head was, the synchronization writes a chain height of 0, and the block that is found at height 0
  -- becomes the head. The store is open, and the supply of the index is one of gold and one of silver.
  pub synchronize_chain-rewound :
      (nl : NeonLaws n) (ll : LevelLaws l) (clock : Clock) (round : Round) (rounds : List Round)
      (c : Chain Db) (g s : Asset) (first : SignedBlock)
      → round.running ≡ true
      → round.answer (min_height (height_of (head c))) (max_height (height_of (head c)))
        ≡ ok nothing_new
      → get_token_supply c.index ≡ ok (g, s)
      → g.symbol ≡ gold
      → s.symbol ≡ silver
      → c.store.initialized ≡ true
      → read c.index c.store 0 ≡ ok (some first)
      → (get_chain_height (synchronize_chain true clock (round ∷ rounds) c).1.index
          ≡ ok (some (pos 0)))
        × (head (synchronize_chain true clock (round ∷ rounds) c).1 ≡ some first)
  unfolding synchronize_chain sync_all
  synchronize_chain-rewound nl ll clock round rounds c g s first runs answered supply eg es has
        found =
      let w : Reindex Db = record { chain = c; batch = new_indexer; last = none; cut = false } in
      let (t, totals) = totals_added nl g s eg es in
      let sums : add_totals empty_balance (get_token_supply (set_chain_height 0 c.index)) ≡ ok t =
        ap (add_totals empty_balance) (supply_kept ll c.index ∙ supply) ∙ totals in
      let ended = ended_at_once clock (height_of (head c)) round rounds w runs answered in
      let whole : (synchronize_chain true clock (round ∷ rounds) c).1
          ≡ (reload (record c { index = rewound t c.index })).1 =
        ap
          (λ (r : Result Bool × Reindex Db).
            (resume r.0 (λ e. in_batch flush >> (on_chain reload >> pure e)) r.1).1.chain)
          ended
        ∙ flush_and_reload ll t w refl sums in
      let (height, top) =
        reload-rewound ll t (record c { index = rewound t c.index }) c.index first refl has found in
      (ap (λ d. get_chain_height d.index) whole ∙ height, ap (λ d. d.store.block_head) whole ∙ top)
