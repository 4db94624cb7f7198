-- ===== src/Node/Synced.antt =====
-- What a synchronization does to the block log, whatever the peers answer.
use godcoin_js_legacy.Prelude.{
  ℕ, ◌+◌, ◌≡◌, refl, sym, ap, ◌∙◌, List, [], ◌∷◌, ◌++◌, Bool, true, false, Option, none, some,
  Error, Result, ok, err,
}
use mathlib.Core.Path.{subst}
use mathlib.Core.List.{append-nil}
use godcoin_js_legacy.Neon.{Neon, SignedBlock}
use godcoin_js_legacy.Packages.{Level, Packages}
use godcoin_js_legacy.Exec.{Exec, resume, ◌>>◌, pure, Keeps, resume-Keeps, >>-Keeps}
use godcoin_js_legacy.Indexer.BlockIndexer.{Session, index_block, flush, new_indexer}
use godcoin_js_legacy.Indexer.Logged.{Writes, KeepsLog, index_block-Writes, flush-KeepsLog}
use godcoin_js_legacy.ChainStore.{ChainStore}
use godcoin_js_legacy.ChainStore.Log.{frames}
use godcoin_js_legacy.Blockchain.Chain.{Chain, head}
use godcoin_js_legacy.Blockchain.Balances.{cache_miss}
use godcoin_js_legacy.Blockchain.Blocks.{Clock, reload}
use godcoin_js_legacy.Blockchain.Start.{Reindex, in_batch, on_chain}
use godcoin_js_legacy.Blockchain.Valid.{IsSound, validate_block-IsSound}
use godcoin_js_legacy.Blockchain.Extends.{validate_block-KeepsStore}
use godcoin_js_legacy.Node.PeerPool.{BlockRange}
use godcoin_js_legacy.Node.Synchronizer.{
  Round, skip_flags, is_end_of_clients, validate_after, validate_next, run_while, min_height,
  max_height, index_range, flush_and_throw, on_failure, after_range, run_round, sync_rounds,
  sync_all, height_of, synchronize_chain,
}
use godcoin_js_legacy.Node.Linked.{
  Behind, Linked, Grown, ◌⨟◌, same_store, append_all-file, Validated, Writes-Grown,
}
use godcoin_js_legacy.Blockchain.Reloaded.{reload-KeepsFile}

module _ {Db : Type 0} ⦃n : Neon⦄ ⦃p : Packages⦄ ⦃l : Level Db⦄ where
  -- a step after which the log has grown by linked blocks, whether it gives a value or throws
  record Syncs {A : Type 0} (m : Exec (Reindex Db) A) : Type 0 where
    grows : (w : Reindex Db) → Grown w.chain.store (m w).1.chain.store

  resume-Grown :
      {A B : Type 0} (s : ChainStore) (r : Result A) (f : A → Exec (Reindex Db) B) (w : Reindex Db)
      → Grown s w.chain.store
      → ((a : A) → Syncs (f a))
      → Grown s (resume r f w).1.chain.store
  resume-Grown s (ok a) f w before later = before ⨟ (later a).grows w
  resume-Grown s (err e) f w before later = before

  in_batch-Syncs : {A : Type 0} (m : Exec (Session Db) A) → KeepsLog m → Syncs (in_batch m)
  unfolding in_batch
  in_batch-Syncs m keeps = record { grows = λ w. same_store (keeps.kept _) }

  valid_of :
      (before block : SignedBlock) (clock : Clock) (c : Chain Db)
      → IsSound clock block (some before) skip_flags c
      → Behind before block
  valid_of before block clock c sound =
      let same : sound.before ≡ before =
        ap (λ (o : Option SignedBlock). elim o [ none ↦ before | some b ↦ b ]) (sym sound.after) in
      subst (λ b. Behind b block) same
        (record { next_height = sound.next_height; linked = sound.linked; signed = sound.signed })

  validate_after-Validated :
      (o : Option SignedBlock) (clock : Clock) (block : SignedBlock) (w : Reindex Db)
      → (validate_after o clock block w).0 ≡ ok tt
      → Validated o block
  unfolding on_chain
  validate_after-Validated none clock block w h = tt
  validate_after-Validated (some before) clock block w h =
      valid_of before block clock w.chain
        (validate_block-IsSound clock block (some before) skip_flags w.chain h)

  validate_after_store :
      (o : Option SignedBlock) (clock : Clock) (block : SignedBlock) (w : Reindex Db)
      → (validate_after o clock block w).1.chain.store ≡ w.chain.store
  unfolding on_chain
  validate_after_store none clock block w = refl
  validate_after_store (some before) clock block w =
      (validate_block-KeepsStore clock block (some before) skip_flags).kept w.chain

  -- a block is indexed once it is validated
  indexed_then :
      (block : SignedBlock) (r : Result (Unit {0})) (rest : Exec (Reindex Db) (Unit {0}))
      (s : ChainStore) (w : Reindex Db)
      → w.chain.store ≡ s
      → (r ≡ ok tt → Validated s.block_head block)
      → Syncs rest
      → Grown s
          (resume r (λ u. in_batch (index_block cache_miss block none) >> rest) w).1.chain.store
  unfolding in_batch
  indexed_then block (err e) rest s w same valid later = same_store same
  indexed_then block (ok u) rest s w same valid later =
      let w' = (in_batch (index_block cache_miss block none) w).1 in
      let writes =
        index_block-Writes cache_miss block
          (record { indexer = w.batch; index = w.chain.index; store = w.chain.store }) in
      resume-Grown s _ (λ u. rest) w'
        (Writes-Grown block s w'.chain.store (valid refl)
          (subst (λ x. Writes block x w'.chain.store) same writes))
        (λ u. later)

  block-Syncs :
      (clock : Clock) (block : SignedBlock) (rest : Exec (Reindex Db) (Unit {0}))
      → Syncs rest
      → Syncs (validate_next clock block >> (in_batch (index_block cache_miss block none) >> rest))
  unfolding validate_next
  block-Syncs clock block rest later = record {
    grows = λ w.
        let o = head w.chain in
        indexed_then block _ rest w.chain.store (validate_after o clock block w).1
          (validate_after_store o clock block w) (validate_after-Validated o clock block w) later;
  }

  run_while-Syncs :
      (b : Bool) (body : Exec (Reindex Db) (Unit {0})) → Syncs body → Syncs (run_while b body)
  run_while-Syncs true body syncs = record { grows = λ w. syncs.grows w }
  run_while-Syncs false body syncs = record { grows = λ w. same_store refl }

  index_range-Syncs :
      (still : ℕ → Bool) (clock : Clock) (k : ℕ) (blocks : List SignedBlock)
      → Syncs (index_range still clock k blocks)
  unfolding index_range
  index_range-Syncs still clock k [] = record { grows = λ w. same_store refl }
  index_range-Syncs still clock k (block ∷ blocks) = record {
    grows = λ w.
        (run_while-Syncs (still k) _ (
            block-Syncs clock block (index_range still clock (k + 1) blocks)
              (index_range-Syncs still clock (k + 1) blocks))).grows
          w;
  }

  raise-Syncs : (e : Error) → Syncs {A = Bool} (λ w. (err e, w))
  raise-Syncs e = record { grows = λ w. same_store refl }

  flush-Syncs :
      {A : Type 0} (next : Exec (Reindex Db) A) → Syncs next → Syncs (in_batch flush >> next)
  flush-Syncs next syncs = record {
    grows = λ w.
        resume-Grown w.chain.store _ (λ u. next) (in_batch flush w).1
          ((in_batch-Syncs flush flush-KeepsLog).grows w) (λ u. syncs);
  }

  flush_and_throw-Syncs :
      (ended : Bool) (e : Error) (next : Exec (Reindex Db) Bool)
      → Syncs next
      → Syncs (flush_and_throw ended e next)
  flush_and_throw-Syncs true e next syncs = record { grows = λ w. syncs.grows w }
  flush_and_throw-Syncs false e next syncs = record {
    grows = λ w. (flush-Syncs _ (raise-Syncs e)).grows w;
  }

  on_failure-Syncs :
      (e : Error) (next : Exec (Reindex Db) Bool) → Syncs next → Syncs (on_failure e next)
  unfolding on_failure
  on_failure-Syncs e next syncs = record {
    grows = λ w. (flush_and_throw-Syncs (is_end_of_clients e) e next syncs).grows w;
  }

  after_range-Syncs :
      (r : Result (Unit {0})) (outside : Bool) (next : Exec (Reindex Db) Bool)
      → Syncs next
      → Syncs (after_range r outside next)
  after_range-Syncs (err e) outside next syncs = record {
    grows = λ w. (on_failure-Syncs e next syncs).grows w;
  }
  after_range-Syncs (ok u) true next syncs = record { grows = λ w. same_store refl }
  after_range-Syncs (ok u) false next syncs = record { grows = λ w. syncs.grows w }

  run_round-Syncs :
      (running : Bool) (answer : Result BlockRange) (still : ℕ → Bool) (clock : Clock)
      (retry next : Exec (Reindex Db) Bool)
      → Syncs retry
      → Syncs next
      → Syncs (run_round running answer still clock retry next)
  run_round-Syncs false answer still clock retry next again later = record {
    grows = λ w. same_store refl;
  }
  run_round-Syncs true (err e) still clock retry next again later = record {
    grows = λ w. (on_failure-Syncs e retry again).grows w;
  }
  run_round-Syncs true (ok range) still clock retry next again later = record {
    grows = λ w.
        let r = index_range still clock 0 range.blocks w in
        (index_range-Syncs still clock 0 range.blocks).grows w
        ⨟ (after_range-Syncs r.0 range.range_outside_height next later).grows r.1;
  }

  sync_rounds-Syncs :
      (clock : Clock) (height : Option ℕ) (rounds : List Round)
      → Syncs (sync_rounds clock height rounds)
  unfolding sync_rounds
  sync_rounds-Syncs clock height [] = record { grows = λ w. same_store refl }
  sync_rounds-Syncs clock height (round ∷ rounds) = record {
    grows = λ w.
        (run_round-Syncs round.running (round.answer (min_height height) (max_height height))
            round.still clock (sync_rounds clock height rounds)
            (sync_rounds clock (some (max_height height)) rounds)
            (sync_rounds-Syncs clock height rounds)
            (sync_rounds-Syncs clock (some (max_height height)) rounds)).grows
          w;
  }

module _ {Db : Type 0} ⦃n : Neon⦄ ⦃p : Packages⦄ ⦃l : Level Db⦄ where
  -- the log afterwards is the log before with the frames of linked blocks behind it
  abbrev pub LogGrown : Chain Db → Chain Db → Type 0
  LogGrown c d =
      (bs : List SignedBlock) × Linked (head c) bs × (d.store.file ≡ c.store.file ++ frames bs)

  Grown-LogGrown : (c d : Chain Db) → Grown c.store d.store → LogGrown c d
  Grown-LogGrown c d (bs, linked, e) = (bs, linked, ap (λ s. s.file) e ∙ append_all-file bs c.store)

  same_log : (c d e : Chain Db) → LogGrown c d → e.store.file ≡ d.store.file → LogGrown c e
  same_log c d e (bs, linked, grown) same = (bs, linked, same ∙ grown)

  reload-Keeps : Keeps (λ (w : Reindex Db). w.chain.store.file) (on_chain reload)
  unfolding on_chain
  reload-Keeps = record { kept = λ w. reload-KeepsFile.kept w.chain }

  end-Keeps :
      (ended : Bool) → Keeps (λ (w : Reindex Db). w.chain.store.file) (pure {S = Reindex Db} ended)
  end-Keeps ended = record { kept = λ w. refl }

  flushed_end :
      (c : Chain Db) (r : Result Bool) (w : Reindex Db)
      → Grown c.store w.chain.store
      → LogGrown c (resume r (λ ended. in_batch flush >> (on_chain reload >> pure ended)) w).1.chain
  flushed_end c (err e) w grown = Grown-LogGrown c w.chain grown
  flushed_end c (ok ended) w grown =
      let f = in_batch flush w in
      same_log c f.1.chain (resume f.0 (λ u. on_chain reload >> pure ended) f.1).1.chain
        (Grown-LogGrown c f.1.chain (grown ⨟ (in_batch-Syncs flush flush-KeepsLog).grows w))
        (resume-Keeps (λ (x : Reindex Db). x.chain.store.file) f.0 f.1
          (λ u. on_chain reload >> pure ended) (λ u. >>-Keeps reload-Keeps (end-Keeps ended)))

  -- Whatever the peers answer, whenever the node stops or fails: after a synchronization the log is the
  -- log before with the frames of some blocks behind it, the first of which follows the head (or has
  -- height 0 where there is none), and each next one follows the one before it, by height, by hash and
  -- with a signature that is right.
  pub synchronize_chain-LogGrown :
      (running : Bool) (clock : Clock) (rounds : List Round) (c : Chain Db)
      → (bs : List SignedBlock) × Linked (head c) bs
        × ((synchronize_chain running clock rounds c).1.store.file ≡ c.store.file ++ frames bs)
  unfolding synchronize_chain sync_all
  synchronize_chain-LogGrown false clock rounds c = ([], tt, sym (append-nil c.store.file))
  synchronize_chain-LogGrown true clock rounds c =
      let w : Reindex Db = record { chain = c; batch = new_indexer; last = none; cut = false } in
      let r = sync_rounds clock (height_of (head c)) rounds w in
      flushed_end c r.0 r.1 ((sync_rounds-Syncs clock (height_of (head c)) rounds).grows w)
