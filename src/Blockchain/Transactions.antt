-- ===== src/Blockchain/Transactions.antt =====
-- `validateTx`. The two readings of the clock are arguments, and `additional_txs` is empty where the
-- code has `undefined`.
use godcoin_js_legacy.Prelude.{
  ℕ, List, [], ◌∷◌, Bool, true, false, not, Option, none, some, Bytes, pos, ◌-ℤ◌, Result, ok, err,
  assert, defined, ◌>>=◌, ◌>>◌, ltb, leb, eqb, ltb_ℤ, leb_ℤ, length, get_elem?, type_error,
  symbol_mismatch, cannot_skip_tx, duplicate_tx, undecodable_tx, timestamp_in_future, zero_fee,
  tx_expired, behind_head, nonzero_reward_time, signed_reward, fee_asset_differs, zero_amount,
  memo_too_long, invalid_signature, unknown_balance_symbol, fee_too_small, insufficient_balance,
  same_keys, zero_stake, wrong_signature_count, wrong_bond_fee, invalid_transaction,
}
use godcoin_js_legacy.Neon.{
  Neon, Asset, AssetSymbol, gold, silver, other, symbol_equal, SigPair, PublicKey, Tx, TransferTx,
  BondTx, RewardTx, transfer, bond, reward, unknown, time_of, fee_of, SignedBlock,
}
use godcoin_js_legacy.Packages.{Level, Packages}
use godcoin_js_legacy.Assets.{Balance, check_asset, bond_fee_amount, tx_expiry_time}
use godcoin_js_legacy.Indexer.{has_tx}
use godcoin_js_legacy.Blockchain.Chain.{
  Chain, checks, skip_tx, skip_tx_signature, skip_tx_time, get_head!,
}
use godcoin_js_legacy.Blockchain.Fees.{get_total_fee}
use godcoin_js_legacy.Blockchain.Balances.{get_balance}

-- `if (condition) { … }`
abbrev pub when : Bool → Result (Unit {0}) → Result (Unit {0})
when true m = m
when false m = ok tt

-- the slots of a balance and of a fee for a symbol
abbrev pub pick :
    AssetSymbol → Result Balance → Result Balance → Result (Option Asset × Option Asset)
pick gold bal fee = do b ← bal; f ← fee; ok (b.0, f.0)
pick silver bal fee = do b ← bal; f ← fee; ok (b.1, f.1)
pick (other id) bal fee = ok (none, none)

module _ ⦃n : Neon⦄ where
  -- `from.verify(signature_pairs[i][1], buf)`
  unfoldable pub check_signature : PublicKey → List SigPair → ℕ → Bytes → Result (Unit {0})
  check_signature key pairs i buf = do
    pair ← defined (get_elem? pairs i) type_error
    assert (n.verify key pair.signature buf) invalid_signature

  -- `assert(a.geq(b), …)`, where a fee that is `undefined` throws too
  unfoldable pub check_geq : Asset → Option Asset → Result (Unit {0})
  check_geq a b = do
    fee ← defined b type_error
    covered ← defined (n.geq a fee) symbol_mismatch
    assert covered fee_too_small

  -- `bal.sub(x).sub(y)…` and the test of what remains
  unfoldable pub check_remaining : Option Asset → List Asset → Result (Unit {0})
  check_remaining remaining [] = do
    r ← defined remaining type_error
    assert (leb_ℤ (pos 0) r.amount) insufficient_balance
  check_remaining remaining (x ∷ xs) = do
    r ← defined remaining type_error
    check_remaining (n.sub r x) xs

  -- the tests of a transaction that is no reward, up to those of its time
  unfoldable pub check_common : ℕ → Tx → Result (Unit {0})
  check_common now tx = do
    assert (ltb (time_of tx) now) timestamp_in_future
    assert (ltb_ℤ (pos 0) (fee_of tx).amount) zero_fee
    check_asset (fee_of tx) none

  -- the tests under `(opts.skipFlags & SkipFlags.SKIP_TX_TIME) === 0`
  unfoldable pub check_time : ℕ → Result SignedBlock → Tx → Result (Unit {0})
  check_time now head tx = do
    let delta = pos now -ℤ pos (time_of tx)
    assert (leb_ℤ delta (pos tx_expiry_time)) tx_expired
    assert (ltb_ℤ (pos 0) delta) timestamp_in_future
    block ← head
    let time_head = pos (block.timestamp) -ℤ pos 3000
    assert (ltb_ℤ time_head (pos (time_of tx))) behind_head

  unfoldable pub check_reward : ℕ → RewardTx → Result (Unit {0})
  check_reward skip_flags tx = do
    when (checks skip_flags skip_tx_time) (assert (eqb tx.timestamp 0) nonzero_reward_time)
    assert (eqb (length tx.signature_pairs) 0) signed_reward

  -- the tests of a transfer on itself
  unfoldable pub check_transfer_form : ℕ → TransferTx → Result (Unit {0})
  check_transfer_form skip_flags tx = do
    assert (symbol_equal (tx.amount).symbol (tx.fee).symbol) fee_asset_differs
    assert (ltb_ℤ (pos 0) (tx.amount).amount) zero_amount
    check_asset tx.amount (some (tx.fee).symbol)
    assert (leb (length tx.memo) 512) memo_too_long
    when (checks skip_flags skip_tx_signature)
        (check_signature tx.from tx.signature_pairs 0 (n.encode (transfer tx)))

  -- the tests of a transfer against the balance and the fee of its sender
  unfoldable pub check_transfer_funds :
      Result Balance → Result Balance → TransferTx → Result (Unit {0})
  check_transfer_funds bal fee tx = do
    slots ← pick (tx.amount).symbol bal fee
    b ← defined slots.0 unknown_balance_symbol
    check_geq tx.fee slots.1
    check_remaining (some b) (tx.amount ∷ tx.fee ∷ [])

  unfoldable pub check_bond_form : BondTx → Result (Unit {0})
  check_bond_form tx = do
    assert (not (n.key_equals tx.minter tx.staker)) same_keys
    check_asset tx.stake_amt (some gold)
    check_asset tx.bond_fee (some gold)
    assert (ltb_ℤ (pos 0) (tx.stake_amt).amount) zero_stake
    assert (eqb (length tx.signature_pairs) 2) wrong_signature_count
    check_signature tx.minter tx.signature_pairs 0 (n.encode (bond tx))
    check_signature tx.staker tx.signature_pairs 1 (n.encode (bond tx))

  -- the minimum `fee`, and not the fee of the transaction, is taken from the balance
  unfoldable pub check_bond_funds : Result Balance → Result Balance → BondTx → Result (Unit {0})
  check_bond_funds balance total_fee tx = do
    bal ← balance
    fee ← total_fee
    check_geq tx.fee fee.0
    exact ← defined (n.eq tx.bond_fee bond_fee_amount) symbol_mismatch
    assert exact wrong_bond_fee
    f ← defined fee.0 type_error
    check_remaining bal.0 (f ∷ tx.bond_fee ∷ tx.stake_amt ∷ [])

module _ {Db : Type 0} ⦃n : Neon⦄ ⦃p : Packages⦄ ⦃l : Level Db⦄ where
  -- the first `if (!(tx instanceof RewardTx))`
  unfoldable pub check_base : Chain Db → ℕ → ℕ → ℕ → Tx → Result (Unit {0})
  check_base c now now' skip_flags (reward tx) = ok tt
  check_base c now now' skip_flags tx = do
    check_common now tx
    when (checks skip_flags skip_tx_time) (check_time now' (get_head! c) tx)

  -- the branch on the class of the transaction
  unfoldable pub check_class : Chain Db → ℕ → List Tx → Tx → Result (Unit {0})
  check_class c skip_flags additional_txs (reward tx) = check_reward skip_flags tx
  check_class c skip_flags additional_txs (transfer tx) = do
    check_transfer_form skip_flags tx
    check_transfer_funds (get_balance c.index tx.from additional_txs)
        (get_total_fee c tx.from additional_txs) tx
  check_class c skip_flags additional_txs (bond tx) = do
    check_bond_form tx
    check_bond_funds (get_balance c.index tx.staker additional_txs)
        (get_total_fee c tx.staker additional_txs) tx
  check_class c skip_flags additional_txs (unknown tx) = err invalid_transaction

  unfoldable pub validate_tx : Chain Db → ℕ → ℕ → ℕ → List Tx → Bytes → Result Tx
  validate_tx c now now' skip_flags additional_txs tx_buf = do
    assert (checks skip_flags skip_tx) cannot_skip_tx
    assert (not (has_tx c.index tx_buf)) duplicate_tx
    tx ← defined (n.decode_with_sigs tx_buf) undecodable_tx
    check_base c now now' skip_flags tx
    check_class c skip_flags additional_txs tx
    ok tx
