-- ===== src/Blockchain/Extends.antt =====
-- What `addBlock` does to the log and the head.
use godcoin_js_legacy.Prelude.{
  ℕ, ◌+◌, ◌≡◌, refl, sym, ap, ◌∙◌, ◌⊎◌, inl, inr, List, [], ◌∷◌, Bool, true, false, Option, none,
  some, Bytes, Result, ok, err, defined, eqb, eqb_iff, type_error, unexpected_height, ◌==◌,
  bytes_eq, bad_previous_hash, bad_merkle_root, invalid_signature, Error,
}
use godcoin_js_legacy.Neon.{Neon, Tx, transfer, bond, reward, unknown, SignedBlock}
use godcoin_js_legacy.Packages.{Level, Packages}
use godcoin_js_legacy.Assets.{Balance}
use godcoin_js_legacy.Exec
use godcoin_js_legacy.Exec.{Exec, lift, Keeps, >>=-Keeps, >>-Keeps}
use godcoin_js_legacy.Indexer.BlockIndexer.{Session, index_block, flush}
use godcoin_js_legacy.Indexer.Logged.{index_block_store, flush-KeepsLog}
use godcoin_js_legacy.ChainStore.{append_block}
use godcoin_js_legacy.Blockchain.Chain.{
  Chain, head, session, with_batch, skip_tx, skip_block_bond_signer, skip_block_merkle, checks,
}
use godcoin_js_legacy.Blockchain.Fees.{store_fee, cache_network_fee}
use godcoin_js_legacy.Blockchain.Balances.{cache_miss}
use godcoin_js_legacy.Blockchain.Transactions.{validate_tx}
use godcoin_js_legacy.Blockchain.Blocks.{
  Clock, is_bond_valid, remember_tx, settle_tx, pass_tx, validate_txs, run_if, check, settle_bond,
  validate_block, accept_at, accept_block, add_block,
}
use godcoin_js_legacy.Blockchain.Valid.{IsSound, validate_block-IsSound}

module _ {Db : Type 0} ⦃n : Neon⦄ ⦃p : Packages⦄ ⦃l : Level Db⦄ where
  abbrev pub KeepsStore : {A : Type 0} → Exec (Chain Db) A → Type 0
  KeepsStore m = Keeps (λ c. c.store) m

  remember_tx-KeepsStore : (tx : Tx) (buf : Bytes) → KeepsStore (remember_tx tx buf)
  unfolding remember_tx
  remember_tx-KeepsStore (transfer tx) buf = record { kept = λ c. refl }
  remember_tx-KeepsStore (bond tx) buf = record { kept = λ c. refl }
  remember_tx-KeepsStore (reward tx) buf = record { kept = λ c. refl }
  remember_tx-KeepsStore (unknown tx) buf = record { kept = λ c. refl }

  settle_tx_store : (r : Result Tx) (c : Chain Db) → (settle_tx r c).1.store ≡ c.store
  settle_tx_store (ok tx) c = refl
  settle_tx_store (err e) c = refl

  settle_bond_store : (r : Result Bool) (c : Chain Db) → (settle_bond r c).1.store ≡ c.store
  settle_bond_store (ok valid) c = refl
  settle_bond_store (err e) c = refl

  pass_tx-KeepsStore : (now now' flags : ℕ) (buf : Bytes) → KeepsStore (pass_tx now now' flags buf)
  pass_tx-KeepsStore now now' flags buf = record {
    kept = λ c. settle_tx_store (validate_tx c now now' flags [] buf) c;
  }

  bond-KeepsStore : (block : SignedBlock) → KeepsStore (λ c. settle_bond (is_bond_valid block c) c)
  bond-KeepsStore block = record { kept = λ c. settle_bond_store (is_bond_valid block c) c }

  check-KeepsStore : (b : Bool) (e : Error) → KeepsStore (check b e)
  check-KeepsStore b e = record { kept = λ c. refl }

  lift-KeepsStore : {A : Type 0} (r : Result A) → KeepsStore (lift r)
  lift-KeepsStore r = record { kept = λ c. refl }

  validate_txs-KeepsStore :
      (clock : Clock) (k flags : ℕ) (txs : List Tx) → KeepsStore (validate_txs clock k flags txs)
  unfolding validate_txs
  validate_txs-KeepsStore clock k flags [] = record { kept = λ c. refl }
  validate_txs-KeepsStore clock k flags (tx ∷ txs) =
      let buf = n.encode_with_sigs tx in
      >>-Keeps (pass_tx-KeepsStore (clock k).0 (clock k).1 flags buf)
        (>>-Keeps (remember_tx-KeepsStore tx buf) (validate_txs-KeepsStore clock (k + 1) flags txs))

  run_if-KeepsStore :
      (b : Bool) {m : Exec (Chain Db) (Unit {0})} → KeepsStore m → KeepsStore (run_if b m)
  run_if-KeepsStore true keeps = keeps
  run_if-KeepsStore false keeps = record { kept = λ c. refl }

  pub validate_block-KeepsStore :
      (clock : Clock) (block : SignedBlock) (prev : Option SignedBlock) (flags : ℕ)
      → KeepsStore (validate_block clock block prev flags)
  unfolding validate_block
  validate_block-KeepsStore clock block prev flags =
      >>=-Keeps (lift-KeepsStore (defined prev type_error)) (λ b.
        >>-Keeps (check-KeepsStore (eqb (b.height + 1) block.height) unexpected_height) (
          >>-Keeps (run_if-KeepsStore (checks flags skip_block_bond_signer) (bond-KeepsStore block))
            (>>-Keeps
              (run_if-KeepsStore (checks flags skip_tx)
                (validate_txs-KeepsStore clock 0 flags block.transactions))
              (>>-Keeps
                (run_if-KeepsStore (checks flags skip_block_merkle)
                  (check-KeepsStore (n.verify_merkle_root block) bad_merkle_root))
                (>>-Keeps
                  (check-KeepsStore (block.previous_hash == n.calc_hash b) bad_previous_hash)
                  (check-KeepsStore
                    (n.verify (block.sig_pair).key (block.sig_pair).signature
                      (n.encode_header block))
                    invalid_signature))))))

  abbrev Follows : Clock → SignedBlock → ℕ → Chain Db → Option SignedBlock → Type 0
  Follows clock block flags c prev =
      ((prev ≡ none) × (block.height ≡ 0)) ⊎ IsSound clock block prev flags c

  accept_at_lem :
      (o : Option SignedBlock) (z : Bool) (clock : Clock) (block : SignedBlock) (flags : ℕ)
      (c t : Chain Db)
      → eqb block.height 0 ≡ z
      → accept_at o z clock block flags c ≡ (ok tt, t)
      → Follows clock block flags c o × (t.store ≡ c.store)
  accept_at_lem (some prev) z clock block flags c t e h = (
    inr (validate_block-IsSound clock block (some prev) flags c (ap (λ x. x.0) h)),
    Exec.Keeps-lem _ c t (validate_block-KeepsStore clock block (some prev) flags) h,
  )
  accept_at_lem none true clock block flags c t e h =
      (inl (refl, (eqb_iff block.height 0).0 e), ap (λ x. x.1.store) (sym h))
  accept_at_lem none false clock block flags c t e h = (
    inr (validate_block-IsSound clock block none flags c (ap (λ x. x.0) h)),
    Exec.Keeps-lem _ c t (validate_block-KeepsStore clock block none flags) h,
  )

  pub store_fee_store : (r : Result Balance) (c : Chain Db) → (store_fee r c).1.store ≡ c.store
  store_fee_store (ok fee) c = refl
  store_fee_store (err e) c = refl

  with_batch-eq-ok :
      {A : Type 0} (m : Exec (Session Db) A) (c t : Chain Db) {a : A}
      → with_batch m c ≡ (ok a, t)
      → (u : Session Db) × (m (session c c.batch_index) ≡ (ok a, u)) × (t.store ≡ u.store)
  unfolding with_batch
  with_batch-eq-ok m c t h = (
    (m (session c c.batch_index)).1,
    ap (λ r. (r, (m (session c c.batch_index)).1)) (ap (λ x. x.0) h),
    ap (λ x. x.1.store) (sym h),
  )

  -- A block that `addBlock` accepts is the first one, at height 0 on an empty chain, or it passed
  -- `validateBlock` against the head; afterwards the log is the old one with the block written behind
  -- it, and the block is the head.
  pub add_block-append_block :
      (clock : Clock) (block : SignedBlock) (flags : ℕ) (c : Chain Db)
      → (add_block clock block flags c).0 ≡ ok tt
      → (((head c ≡ none) × (block.height ≡ 0)) ⊎ IsSound clock block (head c) flags c)
        × ((add_block clock block flags c).1.store ≡ append_block block c.store)
        × (head (add_block clock block flags c).1 ≡ some block)
  unfolding add_block accept_block cache_network_fee append_block
  add_block-append_block clock block flags c h =
      let t = (add_block clock block flags c).1 in
      let (v1, s1, e1, k1) =
        Exec.>>=-eq-ok (accept_block clock block flags) _ c (ap (λ r. (r, t)) h) in
      let (v2, s2, e2, k2) =
        Exec.>>=-eq-ok (with_batch (index_block cache_miss block none)) _ s1 k1 in
      let (v3, s3, e3, k3) = Exec.>>=-eq-ok (with_batch flush) _ s2 k2 in
      let (v4, s4, e4, k4) = Exec.>>=-eq-ok cache_network_fee _ s3 k3 in
      let (follows, kept) =
        accept_at_lem (head c) (eqb block.height 0) clock block flags c s1 refl e1 in
      let (u, indexed, same) = with_batch-eq-ok (index_block cache_miss block none) s1 s2 e2 in
      let (w, flushed, same') = with_batch-eq-ok flush s2 s3 e3 in
      let (first, logged) =
        index_block_store cache_miss block (session s1 s1.batch_index) u indexed in
      let stored : t.store ≡ append_block block c.store =
        ap (λ x. x.1.store) (sym k4)
        ∙ ap (λ x. x.1.store) (sym e4)
        ∙ store_fee_store _ s3
        ∙ same'
        ∙ Exec.Keeps-lem flush (session s2 s2.batch_index) w flush-KeepsLog flushed
        ∙ same
        ∙ logged
        ∙ ap (append_block block) kept in
      (follows, stored, ap (λ x. x.block_head) stored)
