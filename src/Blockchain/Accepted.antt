-- ===== src/Blockchain/Accepted.antt =====
-- What `validateTx` promises of the transfer or the bond that it returns.
use godcoin_js_legacy.Prelude.{
  ℕ, ◌≡◌, List, true, false, not, some, arith, Bytes, ok, assert, defined, >>=-eq-ok, assert-eq-ok,
  defined-eq-ok,
}
use godcoin_js_legacy.Neon.{Neon, Tx, TransferTx, transfer, BondTx, bond}
use godcoin_js_legacy.Neon.Laws.{NeonLaws}
use godcoin_js_legacy.Packages.{Level, Packages}
use godcoin_js_legacy.Indexer.{has_tx}
use godcoin_js_legacy.Blockchain.Chain.{Chain, checks, skip_tx}
use godcoin_js_legacy.Blockchain.Fees.{get_total_fee}
use godcoin_js_legacy.Blockchain.Balances.{get_balance}
use godcoin_js_legacy.Blockchain.Transactions.{
  check_base, check_class, check_transfer_form, check_bond_form, validate_tx,
}
use godcoin_js_legacy.Blockchain.Funds.{
  IsFunded, check_transfer_funds-IsFunded, IsStaked, check_bond_funds-IsStaked,
}

module _ {Db : Type 0} ⦃n : Neon⦄ ⦃p : Packages⦄ ⦃l : Level Db⦄ where
  -- what was tested on the way to the result
  pub record Passed (c : Chain Db) (now now' flags : ℕ) (extra : List Tx) (buf : Bytes) (tx : Tx)
      : Type 0 where
    pub allowed : checks flags skip_tx ≡ true
    pub fresh : has_tx c.index buf ≡ false
    pub decoded : n.decode_with_sigs buf ≡ some tx
    pub base : check_base c now now' flags tx ≡ ok tt
    pub by_class : check_class c flags extra tx ≡ ok tt

  pub validate_tx-Passed :
      (c : Chain Db) (now now' flags : ℕ) (extra : List Tx) (buf : Bytes) {tx : Tx}
      → validate_tx c now now' flags extra buf ≡ ok tx
      → Passed c now now' flags extra buf tx
  unfolding validate_tx
  validate_tx-Passed c now now' flags extra buf {tx} h =
      let (u, allowed, k) = >>=-eq-ok (assert (checks flags skip_tx) _) _ h in
      let (u', fresh, k') = >>=-eq-ok (assert (not (has_tx c.index buf)) _) _ k in
      let (tx', decoded, k'') = >>=-eq-ok (defined (n.decode_with_sigs buf) _) _ k' in
      let (v, base, k3) = >>=-eq-ok (check_base c now now' flags tx') _ k'' in
      let (v', by_class, last) = >>=-eq-ok (check_class c flags extra tx') _ k3 in
      let same : tx' ≡ tx = ground arith in
      let not_seen = assert-eq-ok (not (has_tx c.index buf)) _ fresh in
      record {
        allowed = assert-eq-ok _ _ allowed;
        fresh = ground arith;
        decoded = rw same at (defined-eq-ok _ _ decoded);
        base = rw same at base;
        by_class = rw same at by_class;
      }

  -- A transfer that `validateTx` returns was not seen before, pays at least the total fee of its
  -- sender, and is covered by the sender's balance, the additional transactions included.
  pub validate_tx-IsFunded :
      (nl : NeonLaws n) (c : Chain Db) (now now' flags : ℕ) (extra : List Tx) (buf : Bytes)
      (tx : TransferTx)
      → validate_tx c now now' flags extra buf ≡ ok (transfer tx)
      → (has_tx c.index buf ≡ false)
        × IsFunded nl (get_balance c.index tx.from extra) (get_total_fee c tx.from extra) tx
  unfolding check_class
  validate_tx-IsFunded nl c now now' flags extra buf tx h =
      let passed = validate_tx-Passed c now now' flags extra buf h in
      let (u, form, funds) = >>=-eq-ok (check_transfer_form flags tx) _ passed.by_class in
      (passed.fresh, check_transfer_funds-IsFunded nl _ _ tx funds)

  -- A bond that `validateTx` returns was not seen before and pays at least the total fee of its staker
  -- in gold, and its staker's balance in gold, the additional transactions included, covers that
  -- minimum, the bond fee and the stake.
  pub validate_tx-IsStaked :
      (nl : NeonLaws n) (c : Chain Db) (now now' flags : ℕ) (extra : List Tx) (buf : Bytes)
      (tx : BondTx)
      → validate_tx c now now' flags extra buf ≡ ok (bond tx)
      → (has_tx c.index buf ≡ false)
        × IsStaked nl (get_balance c.index tx.staker extra) (get_total_fee c tx.staker extra) tx
  unfolding check_class
  validate_tx-IsStaked nl c now now' flags extra buf tx h =
      let passed = validate_tx-Passed c now now' flags extra buf h in
      let (u, form, funds) = >>=-eq-ok (check_bond_form tx) _ passed.by_class in
      (passed.fresh, check_bond_funds-IsStaked nl _ _ tx funds)
