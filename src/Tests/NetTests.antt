-- ===== src/Tests/NetTests.antt =====
-- A call of a wallet to a node, and a connection that closes.
use godcoin_js_legacy.Prelude.{
  ◌≡◌, ◌⊎◌, refl, List, [], ◌∷◌, true, false, none, some, disconnected, lookup, insert, erase,
  length, arith, nat_eq,
}
use godcoin_js_legacy.Producer.TxPool.{TxPool}
use godcoin_js_legacy.Net.Payload.{RpcPayload, wallet, block_req, block_res}
use godcoin_js_legacy.Net.Calls.{
  Answer, rejected, keep_first, next_id, promise, wait_for, settle, fulfil, drop_all,
}
use godcoin_js_legacy.Net.Peer.{
  new_peer, call, send, invoke_rpc, on_open, on_close, remove_subscriptions,
}
use godcoin_js_legacy.Net.Messages.{
  Host, Moment, Wire, process_message, on_message, on_answer, settle_waiting,
}
use godcoin_js_legacy.Net.Steps.{
  Step, asks, receives, opens, closes, rejects_next, stops, unsubscribes, with_peer, step, run,
}
use godcoin_js_legacy.Net.Client.{
  NetStep, starts, stops, fires, goes_on, connects, handshake_ends, closes, fails, new_client,
  net_run, net_step, start_net, ask_lock, delay, connecting,
}
use godcoin_js_legacy.Net.Exclusive.{net_run-IsExclusive}
use godcoin_js_legacy.Net.Holding.{IsExclusive}
use godcoin_js_legacy.Net.Kept.{has, IsKept, no_calls-IsKept}
use godcoin_js_legacy.Net.Answers.{run-IsKept}
use godcoin_js_legacy.Net.Abandoned.{IsWaiting, stop-IsWaiting}
use godcoin_js_legacy.Net.Portless.{net_run-stuck}
use godcoin_js_legacy.Lock
use godcoin_js_legacy.Net.Closing.{repeat, close-settles}
use godcoin_js_legacy.Net.Exchange.{reply_of, outcome_of, call-process_message}
use godcoin_js_legacy.Tests.Sample.{Db, level, packages}
use godcoin_js_legacy.Tests.BlockTests.{neon, second_block, short_chain}

abbrev wire : Wire
wire = record { to_hex = λ b. b; properties_has_req = false }

abbrev moment : Moment
moment = record { now = 5000; now' = 5000; now'' = 5000; refusal = none }

abbrev empty_pool : TxPool
empty_pool = record { tx_set = []; txs = []; timers = []; events = [] }

abbrev client : Host Db
client = record { peer = new_peer wallet; chain = short_chain; pool = empty_pool }

abbrev connected : Host Db
connected = record client { peer = record (new_peer wallet) { is_open = true } }

-- two calls, an answer to the second, and a refused call to a closed peer
abbrev two_calls : List Step
two_calls =
    asks (block_req 0)
    ∷ opens
    ∷ asks (block_req 1)
    ∷ asks (block_req 2)
    ∷ receives moment (record { id = 2; body = block_res (some second_block) })
    ∷ []

run-IsKept_example : IsKept (run wire two_calls client).peer.calls
run-IsKept_example = run-IsKept wire two_calls client wallet refl

still_attached : (run wire two_calls client).peer.attached ≡ true
unfolding run step call invoke_rpc next_id on_open send on_message on_answer settle_waiting lookup
    promise wait_for fulfil insert keep_first
still_attached = refl

one_waits : length (step wire closes (run wire two_calls client)).peer.calls.deferred ≡ 1
unfolding run step call invoke_rpc next_id promise fulfil keep_first wait_for on_open send
    on_message on_answer settle_waiting settle lookup insert erase on_close remove_subscriptions
    drop_all
one_waits = refl

third_asked : has 3 (run wire two_calls client).peer.calls.asked ≡ true
unfolding run step call invoke_rpc next_id promise fulfil keep_first wait_for on_open send
    on_message on_answer settle_waiting settle lookup insert erase
third_asked = refl

close-settles_example :
    (a : Answer) × (lookup 3
        (run wire (closes ∷ repeat 1 rejects_next) (run wire two_calls client)).peer.calls.settled
      ≡ some a)
    × ((lookup 3 (run wire two_calls client).peer.calls.settled ≡ some a)
        ⊎ (rejected disconnected ≡ a))
close-settles_example =
    close-settles wire two_calls client wallet 1 3 refl still_attached (omega (arith, one_waits))
      third_asked

abbrev request : RpcPayload
request = record { id = 1; body = block_req 0 }

abbrev first_reply : RpcPayload
first_reply = reply_of 1 (process_message wire moment (block_req 0) connected).0

call-process_message_example :
    ((with_peer (call (block_req 0)) connected).peer.sent ≡ request ∷ [])
    × (lookup 1 (with_peer (call (block_req 0)) connected).peer.calls.settled ≡ none)
    × (on_message wire moment request connected
        ≡ record ((process_message wire moment (block_req 0) connected).1) {
          peer = record (connected.peer) { sent = first_reply ∷ [] };
        })
    × (lookup 1
          (on_message wire moment first_reply
            (with_peer (call (block_req 0)) connected)).peer.calls.settled
        ≡ some (outcome_of 1 (process_message wire moment (block_req 0) connected).0))
call-process_message_example =
    call-process_message wire moment moment (block_req 0) connected connected no_calls-IsKept refl
      refl refl refl refl

-- a connection that fails once, succeeds at the second try, closes, and a stop meanwhile
abbrev some_steps : List NetStep
some_steps =
    starts
    ∷ fires
    ∷ goes_on
    ∷ fails (1, 2)
    ∷ fires
    ∷ goes_on
    ∷ connects
    ∷ stops
    ∷ closes
    ∷ handshake_ends
    ∷ goes_on
    ∷ []

net_run-IsExclusive_example : IsExclusive (net_run some_steps (new_client true))
net_run-IsExclusive_example = net_run-IsExclusive some_steps

-- a client without a port that tries to connect and is stopped
tries_to_connect :
    (net_run (starts ∷ fires ∷ goes_on ∷ []) (new_client false)).connect_state ≡ connecting
unfolding net_run net_step start_net ask_lock Lock.lock delay
tries_to_connect = refl

net_run-stuck_example :
    ((net_run
        (stops ∷ goes_on ∷ [])
        (net_run (starts ∷ fires ∷ goes_on ∷ []) (new_client false))).open_lock.locked
      ≡ true)
    × ((net_run
          (stops ∷ goes_on ∷ [])
          (net_run (starts ∷ fires ∷ goes_on ∷ []) (new_client false))).turn
        ≡ none)
    × ((net_run
          (stops ∷ goes_on ∷ [])
          (net_run (starts ∷ fires ∷ goes_on ∷ []) (new_client false))).attempt
        ≡ none)
    × ((net_run
          (stops ∷ goes_on ∷ [])
          (net_run (starts ∷ fires ∷ goes_on ∷ []) (new_client false))).socket
        ≡ false)
net_run-stuck_example =
    net_run-stuck (starts ∷ fires ∷ goes_on ∷ []) (stops ∷ goes_on ∷ []) tries_to_connect

-- the third call waits when the client is stopped and the connection closes
third_waits : IsWaiting 3 (run wire two_calls client).peer.calls
unfolding run step call invoke_rpc next_id promise fulfil keep_first wait_for on_open send
    on_message on_answer settle_waiting settle lookup insert erase
third_waits = record { given = omega arith; waits = refl; unsettled = refl; undeferred = refl }

stop-IsWaiting_example :
    IsWaiting 3
      (run wire
        (stops ∷ closes ∷ rejects_next ∷ unsubscribes ∷ [])
        (run wire two_calls client)).peer.calls
stop-IsWaiting_example =
    stop-IsWaiting wire 3 (closes ∷ rejects_next ∷ unsubscribes ∷ []) (run wire two_calls client)
      third_waits (tt, (tt, (tt, tt)))
