-- ===== src/Tests/NodeTests.antt =====
-- The lock, the pool of transactions, the turns, the peers and the command line at concrete data.
use godcoin_js_legacy.Prelude.{
  ℕ, zero, suc, ◌+◌, ◌<◌, ◌≡◌, ◌≢◌, refl, [], ◌∷◌, true, false, Option, none, some, Result, ok, err,
  length, get_elem?, disconnected, end_of_clients, pos, startup_failed,
}
use godcoin_js_legacy.Node.Started.{started, thrown, planned, all_noted, made, start_node-stop_node}
use godcoin_js_legacy.Node.Running.{Call, start_sync, NodeOpts, NodeState, StopsWork, start_node}
use godcoin_js_legacy.Neon.{SignedBlock}
use godcoin_js_legacy.Indexer.{Bond}
use godcoin_js_legacy.Lock.{Lock, unlocked, lock, unlock}
use godcoin_js_legacy.Lock.Fairness.{History, start, ask, return, IsFair, History-IsFair}
use godcoin_js_legacy.Producer.Scheduler.{Entry, next_minter}
use godcoin_js_legacy.Producer.Turns.{bond_of, next_minter-IsFair}
use godcoin_js_legacy.Node.PeerPool.{PeerPool, invoke, get_block_range, range_from, range_step}
use godcoin_js_legacy.Node.Rounds.{answer_at, place, invoke-IsRoundRobin}
use godcoin_js_legacy.Node.Ranges.{IsRange, get_block_range-IsRange}
use godcoin_js_legacy.Tests.Sample.{coin}
use godcoin_js_legacy.Neon.{gold}

-- Caller 1 holds the lock, callers 2 and 3 wait, then 1 gives it back.
abbrev asked_thrice : Lock ℕ
asked_thrice = (lock 3 (lock 2 (lock 1 unlocked).1).1).1

asked_thrice-locked : asked_thrice.locked ≡ true
unfolding lock
asked_thrice-locked = refl

abbrev history : History asked_thrice (1 ∷ 2 ∷ 3 ∷ []) (1 ∷ []) 0
unfolding lock
history = ask 3 (ask 2 (ask 1 start))

abbrev returned_once : History (unlock asked_thrice).1 (1 ∷ 2 ∷ 3 ∷ []) (1 ∷ 2 ∷ []) 1
unfolding lock unlock
returned_once = return asked_thrice-locked history

History-IsFair_example : IsFair (unlock asked_thrice).1 (1 ∷ 2 ∷ 3 ∷ []) (1 ∷ 2 ∷ []) 1
History-IsFair_example = History-IsFair returned_once

abbrev bond_of_minter : ℕ → Bond
bond_of_minter k = record {
  minter = record { buffer = k ∷ [] };
  staker = record { buffer = 9 ∷ [] };
  stake_amt = coin 5 gold;
}

abbrev entry : ℕ → Entry
entry k = record { identity = k; bond = bond_of_minter k }

abbrev head_block : SignedBlock
head_block = record {
  height = 4;
  previous_hash = [];
  timestamp = 4;
  merkle_root = [];
  transactions = [];
  sig_pair = record { key = record { buffer = 10 ∷ [] }; signature = 10 ∷ [] };
}

next_minter-IsFair_example :
    ((skip : ℕ) → (b : Bond) × (next_minter (entry 1 ∷ entry 2 ∷ []) head_block skip ≡ some b))
    × ((skip : ℕ)
        → next_minter (entry 1 ∷ entry 2 ∷ []) head_block (skip + length (entry 1 ∷ entry 2 ∷ []))
          ≡ next_minter (entry 1 ∷ entry 2 ∷ []) head_block skip)
    × ((i : ℕ)
        → i < length (entry 1 ∷ entry 2 ∷ [])
        → (skip : ℕ) × (skip < length (entry 1 ∷ entry 2 ∷ []))
          × (next_minter (entry 1 ∷ entry 2 ∷ []) head_block skip
              ≡ bond_of (get_elem? (entry 1 ∷ entry 2 ∷ []) i)))
next_minter-IsFair_example = next_minter-IsFair (entry 1) (entry 2 ∷ []) head_block

-- of the clients 0, 1 and 2 only 0 is connected
abbrev call : ℕ → Result ℕ
call zero = ok 7
call (suc k) = err disconnected

abbrev pool : PeerPool ℕ
pool = record { clients = 0 ∷ 1 ∷ 2 ∷ []; index = 0; connected_count = pos 1; events = [] }

invoke-IsRoundRobin_example :
    (((k : ℕ) → k < length pool.clients → answer_at call pool.clients k ≡ err disconnected)
      → (invoke call pool).0 ≡ err end_of_clients)
    × ((j : ℕ)
        → j < length pool.clients
        → ((k : ℕ)
            → k < j
            → answer_at call pool.clients (place call pool.clients pool.index k) ≡ err disconnected)
        → answer_at call pool.clients (place call pool.clients pool.index j) ≢ err disconnected
        → invoke call pool ≡ (
          answer_at call pool.clients (place call pool.clients pool.index j),
          record pool { index = place call pool.clients pool.index j },
        ))
invoke-IsRoundRobin_example = invoke-IsRoundRobin call pool

abbrev peer_block : ℕ → Result (Option SignedBlock)
peer_block (suc (suc (suc (suc zero)))) = ok (some head_block)
peer_block _ = ok none

one_block :
    get_block_range peer_block 4 9
    ≡ ok (record { range_outside_height = true; blocks = head_block ∷ [] })
unfolding get_block_range range_from range_step
one_block = refl

get_block_range-IsRange_example :
    IsRange peer_block 4 6 (record { range_outside_height = true; blocks = head_block ∷ [] })
get_block_range-IsRange_example = get_block_range-IsRange peer_block 4 9 one_block

-- a node with a minter whose synchronizer cannot start
abbrev failing : Call → Result (Unit {0})
failing start_sync = err startup_failed
failing c = ok tt

abbrev minter_alone : NodeOpts
minter_alone = record { has_minter = true; has_peers = false; listen = true; has_head = false }

abbrev idle_node : NodeState
idle_node = record { running = false; server = false; calls = [] }

stops_work : StopsWork failing
stops_work = record { producer = refl; sync = refl; peers = refl; server = refl; chain = refl }

start_node-stop_node_example :
    start_node failing minter_alone idle_node
    ≡ started
        (thrown failing (planned minter_alone))
        (all_noted (made failing (planned minter_alone)) (record idle_node { running = true }))
start_node-stop_node_example = start_node-stop_node failing minter_alone idle_node refl stops_work
