-- ===== src/Blockchain/Valid.antt =====
-- What `validateBlock` promises of a block that it does not refuse.
use godcoin_js_legacy.Prelude.{
  ℕ, ◌+◌, ◌≡◌, refl, ap, ◌∙◌, sym, List, [], ◌∷◌, Bool, true, false, Option, some, arith,
  bytes_equal_iff, Result, ok, err, defined, eqb, eqb_iff, ◌==◌, bytes_eq, assert-eq-ok,
  defined-eq-ok, Error, type_error, invalid_bond, unexpected_height, bad_merkle_root,
  bad_previous_hash, invalid_signature,
}
use mathlib.Core.Path.{subst}
use godcoin_js_legacy.Neon.{Neon, Tx, SignedBlock}
use godcoin_js_legacy.Packages.{Level, Packages}
use godcoin_js_legacy.Exec
use godcoin_js_legacy.Exec.{Exec, lift, ◌>>=◌, ◌>>◌}
use godcoin_js_legacy.Blockchain.Chain.{
  Chain, checks, skip_tx, skip_block_bond_signer, skip_block_merkle,
}
use godcoin_js_legacy.Blockchain.Transactions.{validate_tx}
use godcoin_js_legacy.Blockchain.Blocks.{
  Clock, is_bond_valid, remember_tx, validate_txs, settle_tx, pass_tx, run_if, unless_skipped,
  check, settle_bond, validate_block,
}

module _ {Db : Type 0} ⦃n : Neon⦄ ⦃p : Packages⦄ ⦃l : Level Db⦄ where
  lift-eq-ok :
      {A : Type 0} (r : Result A) (s t : Chain Db) {a : A}
      → lift r s ≡ (ok a, t)
      → (r ≡ ok a) × (s ≡ t)
  lift-eq-ok r s t h = (ap (λ x. x.0) h, ap (λ x. x.1) h)

  check-eq-ok :
      (b : Bool) (e : Error) (s t : Chain Db) {u : Unit {0}}
      → check b e s ≡ (ok u, t)
      → (b ≡ true) × (s ≡ t)
  check-eq-ok b e s t h = (assert-eq-ok b e (ap (λ x. x.0) h), ap (λ x. x.1) h)

  not_skipped :
      (flags flag : ℕ) (m : Exec (Chain Db) (Unit {0})) (s t : Chain Db) {u : Unit {0}}
      → unless_skipped flags flag m s ≡ (ok u, t)
      → checks flags flag ≡ true
      → m s ≡ (ok u, t)
  not_skipped flags flag m s t {u} h on = subst (λ b. run_if b m s ≡ (ok u, t)) on h

  kept_if :
      (b : Bool) (m : Exec (Chain Db) (Unit {0})) (s t : Chain Db) {u : Unit {0}}
      → (m s ≡ (ok u, t) → s ≡ t)
      → run_if b m s ≡ (ok u, t)
      → s ≡ t
  kept_if true m s t kept h = kept h
  kept_if false m s t kept h = ap (λ x. x.1) h

  -- Each transaction passes `validateTx` on the chain that remembers those before it.
  abbrev pub AllPass : Clock → ℕ → ℕ → List Tx → Chain Db → Type 0
  AllPass clock k flags [] c = Unit
  AllPass clock k flags (tx ∷ txs) c =
      ((accepted : Tx) × (validate_tx c (clock k).0 (clock k).1 flags [] (n.encode_with_sigs tx)
          ≡ ok accepted))
      × AllPass clock (k + 1) flags txs (remember_tx tx (n.encode_with_sigs tx) c).1

  passed :
      (r : Result Tx) (c t : Chain Db) {u : Unit {0}}
      → settle_tx r c ≡ (ok u, t)
      → ((accepted : Tx) × (r ≡ ok accepted)) × (c ≡ t)
  passed (ok tx) c t h = ((tx, refl), ap (λ x. x.1) h)
  passed (err e) c t h = absurd (ground (arith, h))

  validate_txs-AllPass :
      (clock : Clock) (k flags : ℕ) (txs : List Tx) (c t : Chain Db)
      → validate_txs clock k flags txs c ≡ (ok tt, t)
      → AllPass clock k flags txs c
  unfolding validate_txs
  validate_txs-AllPass clock k flags [] c t h = tt
  validate_txs-AllPass clock k flags (tx ∷ txs) c t h =
      let (u, s1, e1, k1) =
        Exec.>>=-eq-ok (pass_tx (clock k).0 (clock k).1 flags (n.encode_with_sigs tx)) _ c h in
      let (v, s2, e2, k2) = Exec.>>=-eq-ok (remember_tx tx (n.encode_with_sigs tx)) _ s1 k1 in
      let (accepted, same) = passed _ c s1 e1 in
      let after : s2 ≡ (remember_tx tx (n.encode_with_sigs tx) c).1 =
        ap (λ x. x.1) (sym e2)
        ∙ ap (λ s. (remember_tx tx (n.encode_with_sigs tx) s).1) (sym same) in
      (
        accepted,
        subst (AllPass clock (k + 1) flags txs) after
            (validate_txs-AllPass clock (k + 1) flags txs s2 t k2),
      )

  -- what was tested of the block against its predecessor
  pub record IsSound (clock : Clock) (block : SignedBlock) (prev : Option SignedBlock) (flags : ℕ)
      (c : Chain Db) : Type 0 where
    pub before : SignedBlock
    pub after : prev ≡ some before
    pub next_height : before.height + 1 ≡ block.height
    pub linked : block.previous_hash ≡ n.calc_hash before
    pub signed :
        n.verify (block.sig_pair).key (block.sig_pair).signature (n.encode_header block) ≡ true
    pub bonded : checks flags skip_block_bond_signer ≡ true → is_bond_valid block c ≡ ok true
    pub merkle : checks flags skip_block_merkle ≡ true → n.verify_merkle_root block ≡ true
    pub passing : checks flags skip_tx ≡ true → AllPass clock 0 flags block.transactions c

  bond_checked :
      (r : Result Bool) (c t : Chain Db) {u : Unit {0}}
      → settle_bond r c ≡ (ok u, t)
      → (r ≡ ok true) × (c ≡ t)
  bond_checked (ok b) c t h =
      let (valid, same) = check-eq-ok b invalid_bond c t h in (ap ok valid, same)
  bond_checked (err e) c t h = absurd (ground (arith, h))

  abbrev at_end : SignedBlock → SignedBlock → ℕ → Exec (Chain Db) (Unit {0})
  at_end block before flags = do
    unless_skipped flags skip_block_merkle (check (n.verify_merkle_root block) bad_merkle_root)
    check (block.previous_hash == n.calc_hash before) bad_previous_hash
    check (n.verify (block.sig_pair).key (block.sig_pair).signature (n.encode_header block))
        invalid_signature

  -- `validateBlock` after its first line
  abbrev after_head : Clock → SignedBlock → SignedBlock → ℕ → Exec (Chain Db) (Unit {0})
  after_head clock block before flags = do
    check (eqb (before.height + 1) block.height) unexpected_height
    unless_skipped flags skip_block_bond_signer (λ c. settle_bond (is_bond_valid block c) c)
    unless_skipped flags skip_tx (validate_txs clock 0 flags block.transactions)
    at_end block before flags

  at_end-lem :
      (block b : SignedBlock) (flags : ℕ) (c t : Chain Db)
      → at_end block b flags c ≡ (ok tt, t)
      → (block.previous_hash ≡ n.calc_hash b)
        × (checks flags skip_block_merkle ≡ true → n.verify_merkle_root block ≡ true)
        × (n.verify (block.sig_pair).key (block.sig_pair).signature (n.encode_header block) ≡ true)
  at_end-lem block b flags c t h =
      let (v5, s5, e5, k5) = Exec.>>=-eq-ok (unless_skipped flags skip_block_merkle _) _ c h in
      let (v6, s6, e6, k6) =
        Exec.>>=-eq-ok (check (block.previous_hash == n.calc_hash b) _) _ s5 k5 in
      (
        (bytes_equal_iff _ _).0 (check-eq-ok _ _ s5 s6 e6).0,
        λ on. (check-eq-ok _ _ c s5 (not_skipped flags skip_block_merkle _ c s5 e5 on)).0,
        (check-eq-ok _ _ s6 t k6).0,
      )

  rest-IsSound :
      (clock : Clock) (block : SignedBlock) (prev : Option SignedBlock) (b : SignedBlock)
      (flags : ℕ) (c t : Chain Db)
      → prev ≡ some b
      → after_head clock block b flags c ≡ (ok tt, t)
      → IsSound clock block prev flags c
  rest-IsSound clock block prev b flags c t found h =
      let (v2, s2, e2, k2) = Exec.>>=-eq-ok (check (eqb (b.height + 1) block.height) _) _ c h in
      let (v3, s3, e3, k3) =
        Exec.>>=-eq-ok (unless_skipped flags skip_block_bond_signer _) _ s2 k2 in
      let (v4, s4, e4, k4) = Exec.>>=-eq-ok (unless_skipped flags skip_tx _) _ s3 k3 in
      let (next, c2) = check-eq-ok (eqb (b.height + 1) block.height) _ c s2 e2 in
      let bond : settle_bond (is_bond_valid block s2) s2 ≡ (ok v3, s3) → s2 ≡ s3 =
        λ e. (bond_checked (is_bond_valid block s2) s2 s3 e).1 in
      let c3 : s2 ≡ s3 = kept_if (checks flags skip_block_bond_signer) _ s2 s3 bond e3 in
      let last = at_end-lem block b flags s4 t k4 in
      record {
        before = b;
        after = found;
        next_height = (eqb_iff (b.height + 1) block.height).0 next;
        linked = last.0;
        signed = last.2;
        bonded = λ on.
            subst (λ s. is_bond_valid block s ≡ ok true) (sym c2)
              (bond_checked (is_bond_valid block s2) s2 s3
                (not_skipped flags skip_block_bond_signer _ s2 s3 e3 on)).0;
        merkle = last.1;
        passing = λ on. subst (AllPass clock 0 flags block.transactions) (sym (c2 ∙ c3)) (
            validate_txs-AllPass clock 0 flags block.transactions s3 s4
              (not_skipped flags skip_tx _ s3 s4 e4 on));
      }

  -- What is tested of a block that `validateBlock` lets pass: it follows its predecessor by height and
  -- by hash and its signer's signature is right; and, where the flags do not skip it, the signer has a
  -- bond or is the signer of the genesis block, the Merkle root is right, and each transaction passes
  -- `validateTx` after those before it.
  pub validate_block-IsSound :
      (clock : Clock) (block : SignedBlock) (prev : Option SignedBlock) (flags : ℕ) (c : Chain Db)
      → (validate_block clock block prev flags c).0 ≡ ok tt
      → IsSound clock block prev flags c
  unfolding validate_block
  validate_block-IsSound clock block prev flags c h =
      let t = (validate_block clock block prev flags c).1 in
      let (b, s1, e1, k1) =
        Exec.>>=-eq-ok (lift (defined prev type_error)) _ c (ap (λ r. (r, t)) h) in
      let (found, c1) = lift-eq-ok (defined prev type_error) c s1 e1 in
      rest-IsSound clock block prev b flags c t (defined-eq-ok prev type_error found)
        (subst (λ s. after_head clock block b flags s ≡ (ok tt, t)) (sym c1) k1)
