-- ===== src/Indexer/Logged.antt =====
-- What indexing does to the log.
use godcoin_js_legacy.Prelude.{
  ℕ, ◌≡◌, refl, sym, ap, ◌∙◌, ◌⊎◌, inl, inr, List, [], ◌∷◌, Option, none, some, arith, Result, ok,
  err, bytes_eq,
}
use mathlib.Core.Path.{subst}
use godcoin_js_legacy.Neon.{
  Neon, Asset, PublicKey, Tx, transfer, bond, reward, unknown, SignedBlock,
}
use godcoin_js_legacy.Packages.{Level, Packages, Long}
use godcoin_js_legacy.Assets.{Balance, add_bal_agnostic, sub_bal_agnostic}
use godcoin_js_legacy.Exec
use godcoin_js_legacy.Exec.{Exec, Keeps, ◌>>=◌, ◌>>◌, >>-Keeps}
use godcoin_js_legacy.Indexer.{Index}
use godcoin_js_legacy.Indexer.BlockIndexer.{
  Session, keep_bal, get_bal, store_bal, update_bal, store_supply, update_supply, index_rewards,
  index_tx, index_transactions, locate, set_pos, index_block, flush_batch, store_totals,
  write_totals, flush, raise_height,
}
use godcoin_js_legacy.ChainStore.{ChainStore, append_block, genesis_first, write_after, write}

written_after :
    ⦃n : Neon⦄ ⦃p : Packages⦄ (block : SignedBlock) (r : Result (Unit {0})) (s t : ChainStore)
    {w : Long}
    → write_after r block s ≡ (ok w, t)
    → (r ≡ ok tt) × (t ≡ append_block block s)
written_after block (ok u) s t h = (refl, ap (λ x. x.1) (sym h))
written_after block (err x) s t h = absurd (ground (arith, h))

module _ ⦃n : Neon⦄ ⦃p : Packages⦄ where
  -- What indexing a block without a place does to the log: nothing, or the block is written behind it.
  abbrev pub Writes : SignedBlock → ChainStore → ChainStore → Type 0
  Writes block s t = (t ≡ s) ⊎ ((genesis_first s block ≡ ok tt) × (t ≡ append_block block s))

  write_after-Writes :
      (block : SignedBlock) (r : Result (Unit {0})) (s : ChainStore)
      → genesis_first s block ≡ r
      → Writes block s (write_after r block s).1
  write_after-Writes block (ok u) s first = inr (first, refl)
  write_after-Writes block (err e) s first = inl refl

module _ {Db : Type 0} ⦃n : Neon⦄ ⦃p : Packages⦄ ⦃l : Level Db⦄ where
  abbrev pub KeepsLog : {A : Type 0} → Exec (Session Db) A → Type 0
  KeepsLog m = Keeps (λ s. s.store) m

  store_bal-KeepsLog : (r : Result Balance) (key : PublicKey) → KeepsLog (store_bal r key)
  store_bal-KeepsLog (ok b) key = record { kept = λ s. refl }
  store_bal-KeepsLog (err e) key = record { kept = λ s. refl }

  keep_bal-KeepsLog :
      (o : Option Balance) (r : Result Balance) (key : PublicKey) → KeepsLog (keep_bal o r key)
  keep_bal-KeepsLog (some b) r key = record { kept = λ s. refl }
  keep_bal-KeepsLog none (ok b) key = record { kept = λ s. refl }
  keep_bal-KeepsLog none (err e) key = record { kept = λ s. refl }

  get_bal-KeepsLog :
      (cmcb : Index Db → PublicKey → Result Balance) (key : PublicKey) → KeepsLog (get_bal cmcb key)
  unfolding get_bal
  get_bal-KeepsLog cmcb key = record { kept = λ s. (keep_bal-KeepsLog _ _ key).kept s }

  update_bal-KeepsLog :
      (key : PublicKey) (op : Balance → Asset → Result Balance) (asset : Asset)
      → KeepsLog (update_bal key op asset)
  unfolding update_bal
  update_bal-KeepsLog key op asset = record { kept = λ s. (store_bal-KeepsLog _ key).kept s }

  store_supply-KeepsLog : (r : Result Balance) → KeepsLog (store_supply r)
  store_supply-KeepsLog (ok b) = record { kept = λ s. refl }
  store_supply-KeepsLog (err e) = record { kept = λ s. refl }

  update_supply-KeepsLog :
      (op : Balance → Asset → Result Balance) (asset : Asset) → KeepsLog (update_supply op asset)
  unfolding update_supply
  update_supply-KeepsLog op asset = record { kept = λ s. (store_supply-KeepsLog _).kept s }

  index_rewards-KeepsLog :
      (to : PublicKey) (rewards : List Asset) → KeepsLog (index_rewards to rewards)
  unfolding index_rewards
  index_rewards-KeepsLog to [] = record { kept = λ s. refl }
  index_rewards-KeepsLog to (r ∷ rewards) =
      >>-Keeps (update_bal-KeepsLog to add_bal_agnostic r)
        (>>-Keeps (update_supply-KeepsLog add_bal_agnostic r) (index_rewards-KeepsLog to rewards))

  index_tx-KeepsLog :
      (cmcb : Index Db → PublicKey → Result Balance) (tx : Tx) → KeepsLog (index_tx cmcb tx)
  unfolding index_tx
  index_tx-KeepsLog cmcb (transfer tx) = >>-Keeps (get_bal-KeepsLog cmcb tx.from) (
      >>-Keeps (get_bal-KeepsLog cmcb tx.to) (
        >>-Keeps (update_bal-KeepsLog tx.from sub_bal_agnostic tx.amount) (
          >>-Keeps (update_bal-KeepsLog tx.from sub_bal_agnostic tx.fee)
            (update_bal-KeepsLog tx.to add_bal_agnostic tx.amount))))
  index_tx-KeepsLog cmcb (bond tx) = >>-Keeps (get_bal-KeepsLog cmcb tx.staker) (
      >>-Keeps (update_bal-KeepsLog tx.staker sub_bal_agnostic tx.fee) (
        >>-Keeps (update_bal-KeepsLog tx.staker sub_bal_agnostic tx.bond_fee) (
          >>-Keeps (update_bal-KeepsLog tx.staker sub_bal_agnostic tx.stake_amt) (
            >>-Keeps (update_supply-KeepsLog sub_bal_agnostic tx.bond_fee)
              (record { kept = λ s. refl })))))
  index_tx-KeepsLog cmcb (reward tx) =
      >>-Keeps (get_bal-KeepsLog cmcb tx.to) (index_rewards-KeepsLog tx.to tx.rewards)
  index_tx-KeepsLog cmcb (unknown tx) = record { kept = λ s. refl }

  index_transactions-KeepsLog :
      (cmcb : Index Db → PublicKey → Result Balance) (txs : List Tx)
      → KeepsLog (index_transactions cmcb txs)
  unfolding index_transactions
  index_transactions-KeepsLog cmcb [] = record { kept = λ s. refl }
  index_transactions-KeepsLog cmcb (tx ∷ txs) =
      >>-Keeps (index_tx-KeepsLog cmcb tx) (index_transactions-KeepsLog cmcb txs)

  set_pos-KeepsLog : (h : ℕ) (w : Long) → KeepsLog (set_pos h w)
  unfolding set_pos
  set_pos-KeepsLog h w = record { kept = λ s. refl }

  flush_batch-KeepsLog : KeepsLog flush_batch
  unfolding flush_batch
  flush_batch-KeepsLog = record {
    kept = λ s.
        Exec.resume-Keeps (λ (x : Session Db). x.store) _ _ _ (λ u. record { kept = λ s'. refl });
  }

  store_totals-KeepsLog : (r : Result (Asset × Asset)) → KeepsLog (store_totals r)
  store_totals-KeepsLog (ok totals) = record { kept = λ s. refl }
  store_totals-KeepsLog (err e) = record { kept = λ s. refl }

  write_totals-KeepsLog : KeepsLog write_totals
  unfolding write_totals
  write_totals-KeepsLog = record { kept = λ s. (store_totals-KeepsLog _).kept _ }

  pub flush-KeepsLog : KeepsLog flush
  unfolding flush
  flush-KeepsLog = >>-Keeps flush_batch-KeepsLog write_totals-KeepsLog

  -- the end of `index`
  place : SignedBlock → Exec (Session Db) (Unit {0})
  place block = locate block none >>= set_pos block.height

  place-Writes :
      (block : SignedBlock) (s : Session Db) → Writes block s.store (place block s).1.store
  unfolding place locate write
  place-Writes block s =
      let r = write_after (genesis_first s.store block) block s.store in
      subst (Writes block s.store)
        (sym (
          Exec.resume-Keeps (λ (x : Session Db). x.store) r.0 (record s { store = r.1 })
            (set_pos block.height) (λ w. set_pos-KeepsLog block.height w)))
        (write_after-Writes block (genesis_first s.store block) s.store refl)

  placed-Writes :
      (block : SignedBlock) (r : Result (Unit {0})) (s t : Session Db)
      → t.store ≡ s.store
      → Writes block s.store
          (Exec.resume r (λ u s'. place block (raise_height block.height s')) t).1.store
  placed-Writes block (err e) s t same = inl same
  placed-Writes block (ok u) s t same =
      subst (λ x. Writes block x (place block (raise_height block.height t)).1.store) same
        (place-Writes block (raise_height block.height t))

  pub index_block-Writes :
      (cmcb : Index Db → PublicKey → Result Balance) (block : SignedBlock) (s : Session Db)
      → Writes block s.store (index_block cmcb block none s).1.store
  unfolding index_block place
  index_block-Writes cmcb block s =
      let r = index_transactions cmcb block.transactions s in
      placed-Writes block r.0 s r.1 ((index_transactions-KeepsLog cmcb block.transactions).kept s)

  store_eq :
      {A : Type 0} (m : Exec (Session Db) A) (s t : Session Db) {r : Result A}
      → KeepsLog m
      → m s ≡ (r, t)
      → t.store ≡ s.store
  store_eq m s t keeps e = Exec.Keeps-lem m s t keeps e

  -- a block that is indexed without a place is written to the log
  pub index_block_store :
      (cmcb : Index Db → PublicKey → Result Balance) (block : SignedBlock) (s t : Session Db)
      → index_block cmcb block none s ≡ (ok tt, t)
      → (genesis_first s.store block ≡ ok tt) × (t.store ≡ append_block block s.store)
  unfolding index_block locate write
  index_block_store cmcb block s t h =
      let (v1, s1, e1, k1) = Exec.>>=-eq-ok (index_transactions cmcb block.transactions) _ s h in
      let (w, s3, e3, k3) =
        Exec.>>=-eq-ok (locate block none) (set_pos block.height) (raise_height block.height s1)
          k1 in
      let kept = store_eq _ s s1 (index_transactions-KeepsLog cmcb block.transactions) e1 in
      let (first, after) =
        written_after block (genesis_first s1.store block) s1.store s3.store
          (ap (λ x. (x.0, x.1.store)) e3) in
      (
        subst (λ x. genesis_first x block ≡ ok tt) kept first,
        store_eq (set_pos block.height w) s3 t (set_pos-KeepsLog block.height w) k3
            ∙ after
            ∙ ap (append_block block) kept,
      )
