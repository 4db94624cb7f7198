-- ===== src/Producer/TxPool.antt =====
-- src/lib/producer/tx_pool.ts. The methods run alone, under the pool's lock. A key of `txSet` is the
-- transaction's bytes in hexadecimal, here an argument as in the source.
use godcoin_js_legacy.Prelude.{
  ℕ, ◌+◌, List, [], ◌∷◌, ◌++◌, Bool, true, false, not, Bytes, ℤ, pos, ◌-ℤ◌, Result, ok, err, assert,
  ◌>>=◌, ◌>>◌, bytes_eq, Dict, lookup, insert, erase, Option, none, some, ◌||◌, duplicate_tx,
  invalid_tx_type,
}
use godcoin_js_legacy.Neon.{Neon, PublicKey, Tx, transfer, bond, reward, unknown, time_of}
use godcoin_js_legacy.Packages.{Level, Packages}
use godcoin_js_legacy.Assets.{Balance, tx_expiry_time}
use godcoin_js_legacy.Indexer.{has_tx}
use godcoin_js_legacy.Blockchain.Chain.{Chain, skip_nothing}
use godcoin_js_legacy.Blockchain.Fees.{get_total_fee}
use godcoin_js_legacy.Blockchain.Balances.{get_balance}
use godcoin_js_legacy.Blockchain.Transactions.{validate_tx}

-- `timers` are the keys to delete and after how many milliseconds; `events` are the transactions
-- emitted, the latest first.
pub record TxPool : Type 0 where
  pub tx_set : Dict Bytes (Unit {0})
  pub txs : List Tx
  pub timers : List (Bytes × ℤ)
  pub events : List Tx

-- `tx instanceof TransferTx || tx instanceof BondTx`
unfoldable pub is_poolable : Tx → Bool
is_poolable (transfer tx) = true
is_poolable (bond tx) = true
is_poolable (reward tx) = false
is_poolable (unknown tx) = false

abbrev pub is_some : {A : Type 0} → Option A → Bool
is_some none = false
is_some (some a) = true

-- `txSet[hex] === true`
unfoldable pub in_set : Bytes → TxPool → Bool
in_set hex pool = is_some (lookup hex pool.tx_set)

-- what `push` does with a transaction that passed; `now` is the clock's reading
unfoldable pub accept : ℕ → Bytes → Tx → TxPool → TxPool
accept now hex tx pool = record {
  tx_set = insert hex tt pool.tx_set;
  txs = pool.txs ++ tx ∷ [];
  timers = pool.timers ++ (hex, pos (time_of tx + tx_expiry_time) -ℤ pos now) ∷ [];
  events = tx ∷ pool.events;
}

-- the body of a timer
unfoldable pub expire : Bytes → TxPool → TxPool
expire hex pool = record pool { tx_set = erase hex pool.tx_set }

unfoldable pub pop_all : TxPool → List Tx × TxPool
pop_all pool = (pool.txs, record pool { txs = [] })

module _ {Db : Type 0} ⦃n : Neon⦄ ⦃p : Packages⦄ ⦃l : Level Db⦄ where
  -- `hasTx` of the pool
  unfoldable pub pool_has_tx : Chain Db → TxPool → Bytes → Bytes → Bool
  pool_has_tx c pool tx_buf hex = has_tx c.index tx_buf || in_set hex pool

  -- the tests of `push`
  unfoldable pub check_push : Chain Db → TxPool → ℕ → ℕ → Bytes → Bytes → Result Tx
  check_push c pool now now' tx_buf hex = do
    assert (not (pool_has_tx c pool tx_buf hex)) duplicate_tx
    tx ← validate_tx c now now' skip_nothing pool.txs tx_buf
    assert (is_poolable tx) invalid_tx_type
    ok tx

  unfoldable pub push : Chain Db → ℕ → ℕ → ℕ → Bytes → Bytes → TxPool → Result (Unit {0}) × TxPool
  push c now now' now'' tx_buf hex pool = elim (check_push c pool now now' tx_buf hex) [
    | err e ↦ (err e, pool)
    | ok tx ↦ (ok tt, accept now'' hex tx pool)
  ]

  unfoldable pub pool_total_fee : Chain Db → TxPool → PublicKey → Result Balance
  pool_total_fee c pool addr = get_total_fee c addr pool.txs

  unfoldable pub pool_balance : Chain Db → TxPool → PublicKey → Result Balance
  pool_balance c pool addr = get_balance c.index addr pool.txs
