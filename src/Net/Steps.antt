-- ===== src/Net/Steps.antt =====
-- What can happen to a peer of src/lib/net/peer.ts, one event of Node's loop after another, and `stop` of
-- src/lib/net/client_peer.
use godcoin_js_legacy.Prelude.{
  ℕ, ◌+◌, List, [], ◌∷◌, Bool, true, false, Option, none, some, Error, lookup, nat_eq, eqb,
}
use godcoin_js_legacy.Neon.{Neon}
use godcoin_js_legacy.Packages.{Level, Packages}
use godcoin_js_legacy.Net.Payload.{Body, Event, RpcPayload}
use godcoin_js_legacy.Net.Peer.{
  Peer, call, write_failed, register, push_event, on_open, on_close, stop_net, remove_subscriptions,
  run_deferred,
}
use godcoin_js_legacy.Net.Messages.{Host, Moment, Wire, on_message}

pub data Step : Type 0 where
  -- a call by this side
  asks : Body → Step
  receives : Moment → RpcPayload → Step
  -- the write of a call fails
  write_fails : ℕ → Error → Step
  opens closes : Step
  -- the next function given to `setImmediate`, by `onClose` or by `addSubscriptions`
  rejects_next registers : Step
  -- the pool or the chain has news
  pushes : Event → Step
  -- `stop` of a client: first that of its `net`, and then the last line of its own
  stops unsubscribes : Step

-- only the write of a call has a handler that can fail
unfoldable pub fail_write : Option (Unit {0}) → ℕ → Error → Peer → Peer
fail_write none k e p = p
fail_write (some u) k e p = write_failed k e p

abbrev pub push_to : Bool → Event → Peer → Peer
push_to true e p = p
push_to false e p = push_event e p

-- A socket that opens or closes reaches `onOpen` and `onClose` while the peer listens to `net`.
abbrev pub opened_by : Bool → Peer → Peer
opened_by true p = on_open p
opened_by false p = record p { is_open = true }

abbrev pub closed_by : Bool → Peer → Peer
closed_by true p = on_close p
closed_by false p = record p { is_open = false }

abbrev pub with_peer : {Db : Type 0} → (Peer → Peer) → Host Db → Host Db
with_peer f h = record h { peer = f h.peer }

module _ {Db : Type 0} ⦃n : Neon⦄ ⦃p : Packages⦄ ⦃l : Level Db⦄ (wire : Wire) where
  abbrev pub hear : Bool → Moment → RpcPayload → Host Db → Host Db
  hear true m rpc h = on_message wire m rpc h
  hear false m rpc h = h

  unfoldable pub step : Step → Host Db → Host Db
  step (asks body) h = with_peer (call body) h
  step (receives m rpc) h = hear h.peer.attached m rpc h
  step (write_fails k e) h = with_peer (fail_write (lookup k h.peer.calls.asked) k e) h
  step opens h = with_peer (λ q. opened_by q.attached q) h
  step closes h = with_peer (λ q. closed_by q.attached q) h
  step rejects_next h = with_peer run_deferred h
  step registers h = with_peer (λ q. (register q).1) h
  step (pushes e) h = with_peer (push_to (eqb (h.peer.listeners + h.peer.stale) 0) e) h
  step stops h = with_peer stop_net h
  step unsubscribes h = with_peer remove_subscriptions h

  unfoldable pub run : List Step → Host Db → Host Db
  run [] h = h
  run (s ∷ steps) h = run steps (step s h)
