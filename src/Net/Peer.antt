-- ===== src/Net/Peer.antt =====
-- `Peer` of src/lib/net/peer.ts: sending, calling, and the subscriptions to blocks and transactions.
use godcoin_js_legacy.Prelude.{
  ℕ, ◌+◌, ◌-◌, List, [], ◌∷◌, Bool, true, false, Option, none, some, Error, Result, ok, err,
  disconnected, type_error,
}
use godcoin_js_legacy.Exec.{Exec}
use godcoin_js_legacy.Net.Payload.{PeerType, wallet, node, Event, event, Body, RpcPayload}
use godcoin_js_legacy.Net.Calls.{
  Calls, no_calls, rejected, fulfil, settle, next_id, promise, wait_for, drop_all, next_deferred,
}

-- `is_open` is `net.isOpen`; `sent` are the messages handed to the socket and `events` those emitted,
-- the latest first. `subscribed` says that `txHandler` and `blockHandler` are set, `listeners` how often
-- these two are registered, `stale` how many former ones still are, and `registering` how many
-- registrations wait in `setImmediate`. `attached` says that the peer listens to `net`, as from its
-- constructor on.
pub record Peer : Type 0 where
  pub calls : Calls
  pub is_open : Bool
  pub peer_type : PeerType
  pub sent : List RpcPayload
  pub events : List Event
  pub subscribed : Bool
  pub registering : ℕ
  pub listeners : ℕ
  pub stale : ℕ
  pub attached : Bool

abbrev pub new_peer : PeerType → Peer
new_peer t = record {
  calls = no_calls;
  is_open = false;
  peer_type = t;
  sent = [];
  events = [];
  subscribed = false;
  registering = 0;
  listeners = 0;
  stale = 0;
  attached = true;
}

abbrev pub with_calls : (Calls → Calls) → Peer → Peer
with_calls f p = record p { calls = f p.calls }

abbrev pub written : Option Error → Result (Unit {0})
written none = ok tt
written (some e) = err e

-- `send` of `net`, by whether it is open; `refusal` is the error with which the socket refuses to write
abbrev pub send_if : Bool → Option Error → RpcPayload → Exec Peer (Unit {0})
send_if false refusal rpc p = (err disconnected, p)
send_if true refusal rpc p = (written refusal, record p { sent = rpc ∷ p.sent })

unfoldable pub send : Option Error → RpcPayload → Exec Peer (Unit {0})
send refusal rpc p = send_if p.is_open refusal rpc p

-- `invokeRpc`, up to the write, whose failure is `write_failed`
abbrev pub invoke_if : Bool → RpcPayload → Peer → Peer
invoke_if false rpc p = with_calls (λ c. fulfil rpc.id (rejected disconnected) (promise rpc.id c)) p
invoke_if true rpc p = (send none rpc (with_calls (λ c. wait_for rpc.id (promise rpc.id c)) p)).1

unfoldable pub invoke_rpc : RpcPayload → Peer → Peer
invoke_rpc rpc p = invoke_if p.is_open rpc p

-- the handler of a write that failed later
unfoldable pub write_failed : ℕ → Error → Peer → Peer
write_failed k e p = with_calls (settle k (rejected e)) p

-- `broadcast`, `getProperties`, `getBlock`, `getBalance` and `getTotalFee`
unfoldable pub call : Body → Peer → Peer
call body p =
    let p' = with_calls next_id p in invoke_rpc (record { id = p'.calls.id; body = body }) p'

abbrev pub subscribe_unless : Bool → Peer → Peer
subscribe_unless true p = p
subscribe_unless false p = record p { subscribed = true; registering = p.registering + 1 }

unfoldable pub add_subscriptions : Peer → Peer
add_subscriptions p = subscribe_unless p.subscribed p

-- the function that `addSubscriptions` gives to `setImmediate`; it throws when the handlers are gone
abbrev pub listen_if : Bool → Exec Peer (Unit {0})
listen_if true p = (ok tt, record p { listeners = p.listeners + 1 })
listen_if false p = (err type_error, p)

unfoldable pub register : Exec Peer (Unit {0})
register p = listen_if p.subscribed (record p { registering = p.registering - 1 })

-- A removal takes one registration of the handlers away.
abbrev pub unsubscribe_if : Bool → Peer → Peer
unsubscribe_if false p = p
unsubscribe_if true p = record p {
  subscribed = false;
  listeners = 0;
  stale = p.stale + (p.listeners - 1);
}

unfoldable pub remove_subscriptions : Peer → Peer
remove_subscriptions p = unsubscribe_if p.subscribed p

-- the body of `txHandler` and of `blockHandler`; what the write throws is at most printed
unfoldable pub push_event : Event → Peer → Peer
push_event e p =
    let p' = with_calls next_id p in (send none (record { id = p'.calls.id; body = event e }) p').1

-- the socket opens, and `onOpen`
abbrev pub welcome : PeerType → Peer → Peer
welcome wallet p = p
welcome node p = add_subscriptions p

unfoldable pub on_open : Peer → Peer
on_open p = welcome p.peer_type (record p { is_open = true })

-- the socket closes, and `onClose`
unfoldable pub on_close : Peer → Peer
on_close p = with_calls drop_all (remove_subscriptions (record p { is_open = false }))

-- `removeAllListeners` in `stop` of `net`, the `ClientNet` of a client that runs
unfoldable pub stop_net : Peer → Peer
stop_net p = record p { attached = false }

unfoldable pub run_deferred : Peer → Peer
run_deferred p = with_calls next_deferred p
