-- ===== src/Blockchain/Fees.antt =====
-- The fees: `getAddressFee`, `calcNetworkFee`, `getTotalFee`, `cacheNetworkFee`.
use godcoin_js_legacy.Prelude.{
  ℕ, zero, suc, ◌+◌, ◌-◌, ◌%◌, List, [], ◌∷◌, Bool, true, false, Option, some, Result, ok, err,
  defined, ◌>>=◌, type_error, length, leb, eqb, if◌then◌else◌,
}
use godcoin_js_legacy.Neon.{
  Neon, Asset, PublicKey, Tx, transfer, bond, reward, unknown, SignedBlock,
}
use godcoin_js_legacy.Packages.{Level, Packages}
use godcoin_js_legacy.Assets.{
  Balance, min_gold_fee, min_silver_fee, gold_fee_mult, silver_fee_mult, fee_reset_window,
  network_fee_gold_mult, network_fee_silver_mult, network_fee_avg_window,
}
use godcoin_js_legacy.Blockchain.Chain.{Chain, get_block!, get_head! }

module _ ⦃n : Neon⦄ where
  -- `tx instanceof TransferTx && tx.from.equals(addr) || tx instanceof BondTx && tx.staker.equals(addr)`
  unfoldable pub pays : PublicKey → Tx → Bool
  pays addr (transfer tx) = n.key_equals tx.from addr
  pays addr (bond tx) = n.key_equals tx.staker addr
  pays addr (reward tx) = false
  pays addr (unknown tx) = false

  -- the loop over `additionalTxs`
  unfoldable pub count_paid : PublicKey → ℕ → List Tx → ℕ
  count_paid addr tx_count [] = tx_count
  count_paid addr tx_count (tx ∷ txs) =
      count_paid addr (if pays addr tx then tx_count + 1 else tx_count) txs

  -- the loop over a block's transactions, on `delta` and `txCount`
  unfoldable pub scan_block : PublicKey → ℕ × ℕ → List Tx → ℕ × ℕ
  scan_block addr acc [] = acc
  scan_block addr (delta, tx_count) (tx ∷ txs) =
      scan_block addr (if pays addr tx then (0, tx_count + 1) else (delta, tx_count)) txs

  -- `min.mul(mult.pow(txCount, prec), prec)`
  abbrev pub scaled_fee : Asset → Asset → ℕ → Option Asset
  scaled_fee base mult tx_count = n.mul base (n.pow mult tx_count n.max_precision) n.max_precision

  -- what `add` gives where an operand that is `undefined` throws
  abbrev pub add_defined : Option Asset → Option Asset → Result (Option Asset)
  add_defined a b = do x ← defined a type_error; y ← defined b type_error; ok (n.add x y)

module _ {Db : Type 0} ⦃n : Neon⦄ ⦃p : Packages⦄ ⦃l : Level Db⦄ where
  -- `for (let i = this.head.height; i <= 0; --i)`. At 0 the loop ends by the `break` of its last line.
  unfoldable pub fee_loop : Chain Db → PublicKey → ℕ → ℕ → ℕ → Result ℕ
  fee_loop c addr zero delta tx_count = do
    block ← get_block! c 0
    ok (scan_block addr (delta + 1, tx_count) block.transactions).1
  fee_loop c addr (suc i) delta tx_count = elim (leb (suc i) 0) [
    | false ↦ ok tx_count
    | true ↦ get_block! c (suc i) >>= λ block.
        let acc = scan_block addr (delta + 1, tx_count) block.transactions in
        elim (eqb acc.0 fee_reset_window) [
          | true ↦ ok acc.1
          | false ↦ fee_loop c addr i acc.0 acc.1
        ]
  ]

  -- the final `txCount` of `getAddressFee`
  unfoldable pub address_tx_count : Chain Db → PublicKey → List Tx → Result ℕ
  address_tx_count c addr additional_txs = do
    head ← get_head! c
    fee_loop c addr head.height 0 (count_paid addr 1 additional_txs)

  unfoldable pub get_address_fee : Chain Db → PublicKey → List Tx → Result Balance
  get_address_fee c addr additional_txs = do
    tx_count ← address_tx_count c addr additional_txs
    ok (
      scaled_fee min_gold_fee gold_fee_mult tx_count,
      scaled_fee min_silver_fee silver_fee_mult tx_count,
    )

  unfoldable pub get_total_fee : Chain Db → PublicKey → List Tx → Result Balance
  get_total_fee c addr additional_txs = do
    addr_fee ← get_address_fee c addr additional_txs
    net_fee ← defined c.network_fee type_error
    gold_fee ← add_defined net_fee.0 addr_fee.0
    silver_fee ← add_defined net_fee.1 addr_fee.1
    ok (gold_fee, silver_fee)

  -- the loop of `calcNetworkFee`, over `rounds` blocks from `minHeight`
  unfoldable pub count_txs : Chain Db → ℕ → ℕ → ℕ → Result ℕ
  count_txs c zero min_height tx_count = ok tx_count
  count_txs c (suc rounds) min_height tx_count = get_block! c min_height >>= λ block.
      count_txs c rounds (min_height + 1) (tx_count + length block.transactions)

  unfoldable pub calc_network_fee : Chain Db → SignedBlock → Result Balance
  calc_network_fee c block = do
    let max_height = block.height - block.height % 5
    let min_height = max_height - network_fee_avg_window
    tx_count ← count_txs c (max_height + 1 - min_height) min_height 1
    ok (
      scaled_fee min_gold_fee network_fee_gold_mult tx_count,
      scaled_fee min_silver_fee network_fee_silver_mult tx_count,
    )

  abbrev pub store_fee : Result Balance → Chain Db → Result (Unit {0}) × Chain Db
  store_fee (err e) c = (err e, c)
  store_fee (ok fee) c = (ok tt, record c { network_fee = some fee })

  unfoldable pub cache_network_fee : Chain Db → Result (Unit {0}) × Chain Db
  cache_network_fee c = store_fee (get_head! c >>= calc_network_fee c) c
