-- ===== src/Tests/BlockTests.antt =====
-- Blocks on a small chain, and the indexing of a transfer.
use godcoin_js_legacy.Prelude.{
  ℕ, ◌≡◌, ◌⊎◌, refl, List, [], ◌∷◌, true, none, some, ok, Bytes, ◌+ℤ◌, ◌-ℤ◌, lookup, insert,
  bytes_equal,
}
use godcoin_js_legacy.Neon.{Neon, SignedBlock, PublicKey, Tx, transfer, reward, gold, silver}
use godcoin_js_legacy.Assets.{Balance, add_bal_agnostic, sub_bal_agnostic, update_slot}
use godcoin_js_legacy.Indexer
use godcoin_js_legacy.Indexer.{Index, get_prop, set_prop}
use godcoin_js_legacy.Indexer.Batch
use godcoin_js_legacy.Indexer.BlockIndexer.{
  get_bal, update_bal, update_supply, index_rewards, index_tx, index_transactions, index_block,
  locate, set_pos, flush_batch, write_totals, add_totals, add_slot, flush,
}
use godcoin_js_legacy.ChainStore.{ChainStore, append_block, write, fs_write, frame, read}
use godcoin_js_legacy.ChainStore.Cache
use godcoin_js_legacy.Blockchain.Chain.{
  Chain, head, checks, with_batch, get_head!, get_block, get_block!,
}
use godcoin_js_legacy.Blockchain.Fees.{cache_network_fee, calc_network_fee, count_txs}
use godcoin_js_legacy.Blockchain.Balances.{cache_miss, get_balance, apply_txs}
use godcoin_js_legacy.Blockchain.Blocks.{
  Clock, is_bond_valid, validate_txs, validate_block, accept_block, add_block,
}
use godcoin_js_legacy.Blockchain.Valid.{IsSound, validate_block-IsSound}
use godcoin_js_legacy.Blockchain.Views.{view}
use godcoin_js_legacy.Blockchain.Agreement.{start_at, get_balance-index_transactions}
use godcoin_js_legacy.Blockchain.Extends.{add_block-append_block}
use godcoin_js_legacy.Tests.Sample.{Db, level, level_laws, packages, neon_for, neon_laws, coin}

abbrev pub key : ℕ → PublicKey
key k = record { buffer = k ∷ [] }

abbrev block_at : ℕ → Bytes → ℕ → SignedBlock
block_at h previous t = record {
  height = h;
  previous_hash = previous;
  timestamp = t;
  merkle_root = [];
  transactions = [];
  sig_pair = record { key = key 10; signature = 10 ∷ [] };
}

abbrev pub first_block : SignedBlock
first_block = block_at 0 [] 1000

abbrev pub second_block : SignedBlock
second_block = block_at 1 (0 ∷ []) 4000

instance abbrev pub neon : Neon
neon = neon_for [] (first_block ∷ second_block ∷ [])

abbrev nothing : Balance
nothing = (some (coin 0 gold), some (coin 0 silver))

abbrev empty_index : Index Db
empty_index = record { db = []; timers = [] }

abbrev empty_store : ChainStore
empty_store = record {
  file = [];
  block_tail_pos = 0;
  block_head = none;
  initialized = true;
  block_cache = record { cache = []; min = 0; count = 0 };
}

abbrev pub empty_chain : Chain Db
empty_chain = record {
  index = empty_index;
  store = empty_store;
  batch_index = record {
    batch = record { ops = []; map = none };
    height = 0;
    map = [];
    supply = nothing;
  };
  genesis_block = none;
  network_fee = none;
  events = [];
}

abbrev pub short_chain : Chain Db
short_chain = record empty_chain {
  store = record empty_store { block_head = some first_block };
  genesis_block = some first_block;
}

abbrev pub clock : Clock
clock k = (5000, 5000)

second_valid : (validate_block clock second_block (some first_block) 0 short_chain).0 ≡ ok tt
unfolding validate_block is_bond_valid Indexer.get_bond get_prop lookup bytes_equal validate_txs
    checks
second_valid = refl

validate_block-IsSound_example : IsSound clock second_block (some first_block) 0 short_chain
validate_block-IsSound_example =
    validate_block-IsSound clock second_block (some first_block) 0 short_chain second_valid

first_added : (add_block clock first_block 0 empty_chain).0 ≡ ok tt
unfolding add_block accept_block with_batch index_block index_transactions locate write append_block
    set_pos Batch.set_block_pos Batch.maybe_flush flush flush_batch Batch.set_balances Batch.flush
    Batch.flush_balances Batch.balance_ops Batch.put_all write_totals add_totals add_slot
    Indexer.get_token_supply Indexer.set_chain_height get_prop set_prop lookup insert bytes_equal
    cache_network_fee calc_network_fee count_txs get_head! get_block get_block! read Cache.get
    Cache.push fs_write frame ◌+ℤ◌
first_added = refl

add_block-append_block_example :
    (((head empty_chain ≡ none) × (first_block.height ≡ 0))
      ⊎ IsSound clock first_block (head empty_chain) 0 empty_chain)
    × ((add_block clock first_block 0 empty_chain).1.store ≡ append_block first_block empty_store)
    × (head (add_block clock first_block 0 empty_chain).1 ≡ some first_block)
add_block-append_block_example = add_block-append_block clock first_block 0 empty_chain first_added

abbrev pub payment : Tx
payment = transfer (record {
  timestamp = 5000;
  from = key 1;
  to = key 2;
  amount = coin 1000 gold;
  fee = coin 300 gold;
  memo = [];
  signature_pairs = [];
})

abbrev pub income : Tx
income = reward (record {
  timestamp = 0;
  to = key 1;
  fee = coin 0 gold;
  rewards = coin 5000 gold ∷ [];
  signature_pairs = [];
})

abbrev txs : List Tx
txs = income ∷ payment ∷ []

indexed : (index_transactions cache_miss txs (start_at empty_index empty_store)).0 ≡ ok tt
unfolding index_transactions index_tx index_rewards get_bal update_bal update_supply cache_miss
    get_balance Indexer.get_balance get_prop apply_txs lookup insert bytes_equal add_bal_agnostic
    sub_bal_agnostic update_slot ◌+ℤ◌ ◌-ℤ◌
indexed = refl

nothing_held : get_balance empty_index (key 2) [] ≡ ok nothing
unfolding get_balance Indexer.get_balance get_prop lookup apply_txs
nothing_held = refl

get_balance-index_transactions_example :
    get_balance empty_index (key 2) txs
    ≡ view cache_miss
        (key 2)
        (index_transactions cache_miss txs (start_at empty_index empty_store)).1
unfolding bytes_equal
get_balance-index_transactions_example =
    get_balance-index_transactions (neon_laws [] (first_block ∷ second_block ∷ [])) level_laws txs
      empty_index empty_store (tt, (refl, tt)) indexed (key 2) nothing nothing_held
