-- ===== src/Blockchain/Balances.antt =====
-- `getBalance`: the balance in the index, and what transactions that are not in a block change in it.
use godcoin_js_legacy.Prelude.{List, [], ◌∷◌, true, false, Option, none, some, Result, ok, ◌>>=◌}
use godcoin_js_legacy.Neon.{Neon, Asset, PublicKey, Tx, transfer, bond, reward, unknown}
use godcoin_js_legacy.Packages.{Level, Packages}
use godcoin_js_legacy.Assets.{Balance, add_bal_agnostic, sub_bal_agnostic}
use godcoin_js_legacy.Indexer.{Index}
use godcoin_js_legacy.Indexer
use godcoin_js_legacy.Indexer.BlockIndexer.{empty_balance}

module _ ⦃n : Neon⦄ where
  unfoldable pub add_rewards : Balance → List Asset → Result Balance
  add_rewards bal [] = ok bal
  add_rewards bal (r ∷ rewards) = do bal' ← add_bal_agnostic bal r; add_rewards bal' rewards

  -- one round of the loop over `additionalTxs`
  unfoldable pub apply_tx : PublicKey → Balance → Tx → Result Balance
  apply_tx addr bal (transfer tx) = elim (n.key_equals tx.from addr) [
    | true ↦ sub_bal_agnostic bal tx.amount >>= λ b. sub_bal_agnostic b tx.fee
    | false ↦ elim (n.key_equals tx.to addr) [
      | true ↦ add_bal_agnostic bal tx.amount
      | false ↦ ok bal
    ]
  ]
  apply_tx addr bal (bond tx) = elim (n.key_equals tx.staker addr) [
    | true ↦ sub_bal_agnostic bal tx.fee >>= λ b.
        sub_bal_agnostic b tx.bond_fee >>= λ b'. sub_bal_agnostic b' tx.stake_amt
    | false ↦ ok bal
  ]
  apply_tx addr bal (reward tx) = elim (n.key_equals tx.to addr) [
    | true ↦ add_rewards bal tx.rewards
    | false ↦ ok bal
  ]
  apply_tx addr bal (unknown tx) = ok bal

  unfoldable pub apply_txs : PublicKey → Balance → List Tx → Result Balance
  apply_txs addr bal [] = ok bal
  apply_txs addr bal (tx ∷ txs) = do bal' ← apply_tx addr bal tx; apply_txs addr bal' txs

  abbrev pub or_empty : Option (Asset × Asset) → Balance
  or_empty none = empty_balance
  or_empty (some (g, s)) = (some g, some s)

module _ {Db : Type 0} ⦃n : Neon⦄ ⦃p : Packages⦄ ⦃l : Level Db⦄ where
  unfoldable pub get_balance : Index Db → PublicKey → List Tx → Result Balance
  get_balance i addr additional_txs = do
    found ← Indexer.get_balance i addr
    apply_txs addr (or_empty found) additional_txs

  -- the callback that `prepareBatch` gives to a block indexer
  unfoldable pub cache_miss : Index Db → PublicKey → Result Balance
  cache_miss i addr = get_balance i addr []
