-- ===== src/Tests/ChainTests.antt =====
-- Fees and funds of transactions on a small chain.
use godcoin_js_legacy.Prelude.{
  ℕ, ◌≡◌, refl, List, [], ◌∷◌, true, false, none, some, ok, Bytes, ◌+ℤ◌, ◌-ℤ◌, lookup, bytes_equal,
}
use godcoin_js_legacy.Neon.{
  Neon, PublicKey, Tx, TransferTx, BondTx, bond, transfer, reward, gold, silver, SignedBlock,
}
use godcoin_js_legacy.Assets.{
  Balance, bond_fee_amount, check_asset, check_symbol, add_bal_agnostic, update_slot,
}
use godcoin_js_legacy.Indexer.{has_tx, get_prop}
use godcoin_js_legacy.Indexer
use godcoin_js_legacy.Blockchain.Chain.{Chain, checks, get_head! }
use godcoin_js_legacy.Blockchain.Fees.{
  count_paid, address_tx_count, get_total_fee, get_address_fee, fee_loop, pays,
}
use godcoin_js_legacy.Blockchain.Balances.{get_balance, apply_txs, apply_tx, add_rewards}
use godcoin_js_legacy.Blockchain.Transactions.{
  check_bond_funds, validate_tx, check_base, check_common, check_time, check_class,
  check_transfer_form, check_bond_form, check_signature, check_transfer_funds, check_geq,
  check_remaining,
}
use godcoin_js_legacy.Blockchain.Funds.{IsFunded, IsStaked, check_bond_funds-any_fee}
use godcoin_js_legacy.Blockchain.Accepted.{validate_tx-IsFunded, validate_tx-IsStaked}
use godcoin_js_legacy.Producer.TxPool.{TxPool, push, pop_all, expire}
use godcoin_js_legacy.Tests.Sample.{Db, level, packages, neon_for, neon_laws, coin}

abbrev key : ℕ → PublicKey
key k = record { buffer = k ∷ [] }

abbrev head_block : SignedBlock
head_block = record {
  height = 1;
  previous_hash = 0 ∷ [];
  timestamp = 4000;
  merkle_root = [];
  transactions = [];
  sig_pair = record { key = key 10; signature = 10 ∷ [] };
}

abbrev payment : TransferTx
payment = record {
  timestamp = 5000;
  from = key 1;
  to = key 2;
  amount = coin 1000 gold;
  fee = coin 300 gold;
  memo = [];
  signature_pairs = record { key = key 1; signature = 1 ∷ [] } ∷ [];
}

abbrev staked : BondTx
staked = record {
  timestamp = 5000;
  fee = coin 300 gold;
  minter = key 3;
  staker = key 1;
  stake_amt = coin 100 gold;
  bond_fee = bond_fee_amount;
  signature_pairs =
      record { key = key 3; signature = 3 ∷ [] } ∷ record { key = key 1; signature = 1 ∷ [] } ∷ [];
}

-- what the staker has besides
abbrev fortune : Tx
fortune = reward (record {
  timestamp = 0;
  to = key 1;
  fee = coin 0 gold;
  rewards = coin 900000000 gold ∷ [];
  signature_pairs = [];
})

abbrev income : Tx
income = reward (record {
  timestamp = 0;
  to = key 1;
  fee = coin 0 gold;
  rewards = coin 5000 gold ∷ [];
  signature_pairs = [];
})

abbrev txs : List (Bytes × Tx)
txs = (7 ∷ [], transfer payment) ∷ (8 ∷ [], bond staked) ∷ []

instance abbrev neon : Neon
neon = neon_for txs []

abbrev fees : Balance
fees = (some (coin 100 gold), some (coin 1000 silver))

abbrev chain : Chain Db
chain = record {
  index = record { db = []; timers = [] };
  store = record {
    file = [];
    block_tail_pos = 0;
    block_head = some head_block;
    initialized = true;
    block_cache = record { cache = []; min = 0; count = 0 };
  };
  batch_index = record {
    batch = record { ops = []; map = none };
    height = 0;
    map = [];
    supply = fees;
  };
  genesis_block = none;
  network_fee = some fees;
  events = [];
}

abbrev deposit : BondTx
deposit = record {
  timestamp = 5000;
  fee = coin 300 gold;
  minter = key 3;
  staker = key 1;
  stake_amt = coin 100 gold;
  bond_fee = bond_fee_amount;
  signature_pairs = [];
}

abbrev rich : Balance
rich = (some (coin 900000000 gold), some (coin 0 silver))

payment_accepted : validate_tx chain 6000 6000 0 (income ∷ []) (7 ∷ []) ≡ ok (transfer payment)
unfolding validate_tx lookup ◌+ℤ◌ ◌-ℤ◌ bytes_equal checks has_tx get_prop check_base check_common
    check_asset check_symbol check_time get_head! check_class check_transfer_form check_signature
    check_transfer_funds check_geq check_remaining get_balance Indexer.get_balance apply_txs
    apply_tx add_rewards add_bal_agnostic update_slot get_total_fee get_address_fee address_tx_count
    fee_loop count_paid pays
payment_accepted = refl

validate_tx-IsFunded_example :
    (has_tx chain.index (7 ∷ []) ≡ false)
    × IsFunded
        (neon_laws txs [])
        (get_balance chain.index (key 1) (income ∷ []))
        (get_total_fee chain (key 1) (income ∷ []))
        payment
validate_tx-IsFunded_example =
    validate_tx-IsFunded (neon_laws txs []) chain 6000 6000 0 (income ∷ []) (7 ∷ []) payment
      payment_accepted

deposit_accepted : check_bond_funds (ok rich) (ok fees) deposit ≡ ok tt
unfolding check_bond_funds ◌+ℤ◌ ◌-ℤ◌ check_geq check_remaining
deposit_accepted = refl

check_bond_funds-any_fee_example :
    check_bond_funds (ok rich) (ok fees) (record deposit { fee = coin 1000000000 gold }) ≡ ok tt
check_bond_funds-any_fee_example =
    check_bond_funds-any_fee rich fees deposit (coin 1000000000 gold) (coin 100 gold)
      deposit_accepted refl refl

abbrev empty_pool : TxPool
empty_pool = record { tx_set = []; txs = income ∷ []; timers = []; events = [] }

abbrev pushed : TxPool
pushed = (push chain 6000 6000 6000 (7 ∷ []) (7 ∷ []) empty_pool).1

-- another push, a timer of another transaction, and a block that takes what is queued
abbrev later : TxPool
later = (pop_all (expire (9 ∷ []) (push chain 6000 6000 6000 (8 ∷ []) (8 ∷ []) pushed).1)).1

bond_accepted : validate_tx chain 6000 6000 0 (fortune ∷ []) (8 ∷ []) ≡ ok (bond staked)
unfolding validate_tx lookup ◌+ℤ◌ ◌-ℤ◌ bytes_equal checks has_tx get_prop check_base check_common
    check_asset check_symbol check_time get_head! check_class check_bond_form check_signature
    check_bond_funds check_geq check_remaining get_balance Indexer.get_balance apply_txs apply_tx
    add_rewards add_bal_agnostic update_slot get_total_fee get_address_fee address_tx_count fee_loop
    count_paid pays
bond_accepted = refl

validate_tx-IsStaked_example :
    (has_tx chain.index (8 ∷ []) ≡ false)
    × IsStaked
        (neon_laws txs [])
        (get_balance chain.index (key 1) (fortune ∷ []))
        (get_total_fee chain (key 1) (fortune ∷ []))
        staked
validate_tx-IsStaked_example =
    validate_tx-IsStaked (neon_laws txs []) chain 6000 6000 0 (fortune ∷ []) (8 ∷ []) staked
      bond_accepted
