-- ===== src/Assets.antt =====
-- src/lib/asset.ts and src/lib/constants.ts: the checks on amounts and the updates of a balance.
use godcoin_js_legacy.Prelude.{
  ℕ, true, false, Option, none, some, pos, Result, ok, err, assert, defined, ◌>>=◌, ◌>>◌,
  type_error, wrong_symbol, too_many_decimals, unhandled_symbol, leb, eqb,
}
use godcoin_js_legacy.Neon.{Neon, Asset, AssetSymbol, gold, silver, other, symbol_equal}

-- `[Asset, Asset]`, gold and silver. A slot is `none` once `add` or `sub` has returned `undefined`.
abbrev pub Balance : Type 0
Balance = Option Asset × Option Asset

-- The constants of src/lib/constants.ts, as `Asset.fromString` reads their texts.
abbrev pub min_gold_fee : Asset
min_gold_fee = record { amount = pos 100; decimals = 8; symbol = gold }

abbrev pub min_silver_fee : Asset
min_silver_fee = record { amount = pos 1000; decimals = 8; symbol = silver }

abbrev pub gold_fee_mult : Asset
gold_fee_mult = record { amount = pos 200000000; decimals = 8; symbol = gold }

abbrev pub silver_fee_mult : Asset
silver_fee_mult = record { amount = pos 200000000; decimals = 8; symbol = silver }

abbrev pub fee_reset_window : ℕ
fee_reset_window = 4

abbrev pub network_fee_gold_mult : Asset
network_fee_gold_mult = record { amount = pos 100200000; decimals = 8; symbol = gold }

abbrev pub network_fee_silver_mult : Asset
network_fee_silver_mult = record { amount = pos 100200000; decimals = 8; symbol = silver }

abbrev pub network_fee_avg_window : ℕ
network_fee_avg_window = 10

abbrev pub bond_fee_amount : Asset
bond_fee_amount = record { amount = pos 500000000; decimals = 8; symbol = gold }

abbrev pub block_prod_time : ℕ
block_prod_time = 3000

abbrev pub tx_expiry_time : ℕ
tx_expiry_time = 60000

module _ ⦃n : Neon⦄ where
  -- `if (symbol) assert(amt.symbol === symbol)`: a symbol whose identifier is 0 is not tested for.
  unfoldable pub check_symbol : Asset → Option AssetSymbol → Result (Unit {0})
  check_symbol amt none = ok tt
  check_symbol amt (some symbol) = elim (eqb (n.symbol_id symbol) 0) [
    | true ↦ ok tt
    | false ↦ assert (symbol_equal amt.symbol symbol) wrong_symbol
  ]

  unfoldable pub check_asset : Asset → Option AssetSymbol → Result (Unit {0})
  check_asset amt symbol = do
    check_symbol amt symbol
    assert (leb amt.decimals n.max_precision) too_many_decimals

  unfoldable pub update_slot :
      (Asset → Asset → Option Asset) → Balance → Asset → AssetSymbol → Result Balance
  update_slot op bal asset gold = do g ← defined bal.0 type_error; ok (op g asset, bal.1)
  update_slot op bal asset silver = do s ← defined bal.1 type_error; ok (bal.0, op s asset)
  update_slot op bal asset (other id) = err unhandled_symbol

  unfoldable pub add_bal_agnostic : Balance → Asset → Result Balance
  add_bal_agnostic bal asset = update_slot n.add bal asset asset.symbol

  unfoldable pub sub_bal_agnostic : Balance → Asset → Result Balance
  sub_bal_agnostic bal asset = update_slot n.sub bal asset asset.symbol
