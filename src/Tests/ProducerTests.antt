-- ===== src/Tests/ProducerTests.antt =====
-- A producer and blocks of its peers.
use godcoin_js_legacy.Prelude.{
  ℕ, ◌≡◌, refl, [], ◌∷◌, true, false, none, some, ok, err, Bytes, unexpected_height, ◌-ℤ◌, ◌+ℤ◌,
  lookup, insert, bytes_equal,
}
use godcoin_js_legacy.Neon.{Neon, SignedBlock, PublicKey, gold, silver}
use godcoin_js_legacy.Assets.{Balance}
use godcoin_js_legacy.Blockchain.Chain.{
  Chain, get_head!, checks, with_batch, get_block, get_block!,
}
use godcoin_js_legacy.Blockchain.Blocks.{
  Clock, is_bond_valid, validate_txs, add_block, accept_block, validate_block,
}
use godcoin_js_legacy.Producer.Scheduler.{next_minter}
use godcoin_js_legacy.Producer.Minting.{
  Producer, on_block, take_block, post_production, start_timer, on_chain, is_acceptable, turn,
}
use godcoin_js_legacy.Producer.Incoming.{IsDue, IsNext, on_block-IsDue, on_block-stalls}
use godcoin_js_legacy.Indexer
use godcoin_js_legacy.Indexer.{get_prop, set_prop}
use godcoin_js_legacy.Indexer.Batch
use godcoin_js_legacy.Indexer.BlockIndexer.{
  index_transactions, index_block, locate, set_pos, flush_batch, write_totals, add_totals, add_slot,
  flush,
}
use godcoin_js_legacy.ChainStore.{append_block, write, fs_write, frame, read}
use godcoin_js_legacy.ChainStore.Cache
use godcoin_js_legacy.Blockchain.Fees.{cache_network_fee, calc_network_fee, count_txs}
use godcoin_js_legacy.Tests.Sample.{Db, level, packages, neon_for, coin}

abbrev key : PublicKey
key = record { buffer = 10 ∷ [] }

abbrev block_at : ℕ → Bytes → ℕ → SignedBlock
block_at h previous t = record {
  height = h;
  previous_hash = previous;
  timestamp = t;
  merkle_root = [];
  transactions = [];
  sig_pair = record { key = key; signature = 10 ∷ [] };
}

abbrev genesis_block : SignedBlock
genesis_block = block_at 0 [] 1000

abbrev second : SignedBlock
second = block_at 1 (0 ∷ []) 4000

abbrev too_high : SignedBlock
too_high = block_at 7 (0 ∷ []) 4000

instance abbrev neon : Neon
neon = neon_for [] (genesis_block ∷ second ∷ [])

abbrev nothing : Balance
nothing = (some (coin 0 gold), some (coin 0 silver))

abbrev chain : Chain Db
chain = record {
  index = record { db = []; timers = [] };
  store = record {
    file = [];
    block_tail_pos = 0;
    block_head = some genesis_block;
    initialized = true;
    block_cache = record { cache = (0, genesis_block) ∷ []; min = 0; count = 1 };
  };
  batch_index = record {
    batch = record { ops = []; map = none };
    height = 0;
    map = [];
    supply = nothing;
  };
  genesis_block = some genesis_block;
  network_fee = none;
  events = [];
}

abbrev pub producer : Producer Db
producer = record {
  running = true;
  initd = true;
  timer = none;
  missed = 0;
  bonds =
      record { identity = 0; bond = record { minter = key; staker = key; stake_amt = coin 1 gold } }
      ∷ [];
  pool = record { tx_set = []; txs = []; timers = []; events = [] };
  minter = none;
  chain = chain;
}

abbrev clock : Clock
clock k = (5000, 5000)

high_acceptable : is_acceptable too_high producer ≡ ok true
unfolding is_acceptable turn next_minter get_head! bytes_equal ◌-ℤ◌
high_acceptable = refl

high_refused : add_block clock too_high 0 producer.chain ≡ (err unexpected_height, producer.chain)
unfolding add_block accept_block validate_block
high_refused = refl

on_block-stalls_example :
    ((on_block clock 5000 too_high producer).0 ≡ false)
    × ((on_block clock 5000 too_high producer).1.timer ≡ none)
on_block-stalls_example =
    on_block-stalls clock 5000 too_high producer chain unexpected_height refl high_acceptable
      high_refused

second_taken : (on_block clock 5000 second producer).0 ≡ true
unfolding on_block take_block is_acceptable turn next_minter get_head! bytes_equal ◌-ℤ◌ ◌+ℤ◌
    add_block accept_block validate_block checks is_bond_valid Indexer.get_bond validate_txs
    with_batch index_block index_transactions locate write append_block set_pos Batch.set_block_pos
    Batch.maybe_flush flush flush_batch Batch.set_balances Batch.flush Batch.flush_balances
    Batch.balance_ops Batch.put_all write_totals add_totals add_slot Indexer.get_token_supply
    Indexer.set_chain_height get_prop set_prop lookup insert cache_network_fee calc_network_fee
    count_txs get_block get_block! read Cache.get Cache.push fs_write frame post_production
    start_timer on_chain
second_taken = refl

on_block-IsDue_example :
    IsDue second producer
    × ((add_block clock second 0 producer.chain).0 ≡ ok tt)
    × IsNext (add_block clock second 0 producer.chain).1 (on_block clock 5000 second producer).1
on_block-IsDue_example = on_block-IsDue clock 5000 second producer refl second_taken
