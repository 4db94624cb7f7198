-- ===== src/Net/Abandoned.antt =====
-- The calls of a client that is stopped while they wait.
use godcoin_js_legacy.Prelude.{
  ℕ, ◌+◌, ◌≤◌, ◌≡◌, ◌≢◌, refl, sym, List, [], ◌∷◌, Bool, true, false, Option, none, some, arith,
  Error, disconnected, Dict, lookup, lookup-erase, lookup-insert, nat_eq, eqb_iff, All,
}
use mathlib.Core.Path.{subst}
use godcoin_js_legacy.Neon.{Neon}
use godcoin_js_legacy.Packages.{Level, Packages}
use godcoin_js_legacy.Net.Payload.{Event, Body, RpcPayload}
use godcoin_js_legacy.Net.Calls.{
  Answer, rejected, Calls, fulfil, settle, next_id, promise, wait_for, next_from, next_deferred,
}
use godcoin_js_legacy.Net.Peer.{
  Peer, send, send_if, invoke_if, invoke_rpc, write_failed, call, register, listen_if, stop_net,
  remove_subscriptions, unsubscribe_if, push_event, run_deferred,
}
use godcoin_js_legacy.Net.Messages.{Host, Wire}
use godcoin_js_legacy.Net.Steps.{
  Step, asks, receives, write_fails, opens, closes, rejects_next, registers, pushes, stops,
  unsubscribes, fail_write, push_to, opened_by, closed_by, hear, step, run,
}
use godcoin_js_legacy.Net.Kept.{has, has-keep_first}

-- The request `k` is open, its promise is not settled, and no rejection of it is planned.
pub record IsWaiting (k : ℕ) (c : Calls) : Type 0 where
  pub given : k ≤ c.id
  pub waits : has k c.requests ≡ true
  pub unsettled : has k c.settled ≡ false
  pub undeferred : has k c.deferred ≡ false

settle-IsWaiting :
    (k j : ℕ) (a : Answer) (c : Calls) → j ≢ k → IsWaiting k c → IsWaiting k (settle j a c)
unfolding settle fulfil
settle-IsWaiting k j a c other w = record {
  given = w.given;
  waits = ground (arith, lookup-erase j k c.requests, w.waits, other, eqb_iff j k);
  unsettled = ground (arith, has-keep_first j k a c.settled, w.unsettled, other, eqb_iff j k);
  undeferred = w.undeferred;
}

next_from-IsWaiting :
    (d : Dict ℕ (Unit {0})) (k : ℕ) (c : Calls)
    → c.deferred ≡ d
    → IsWaiting k c
    → IsWaiting k (next_from d c)
unfolding lookup
next_from-IsWaiting [] k c same w = w
next_from-IsWaiting ((j, u) ∷ rest) k c same w =
    let none_of : has k ((j, u) ∷ rest) ≡ false =
      subst (λ (d : Dict ℕ (Unit {0})). has k d ≡ false) same w.undeferred in
    settle-IsWaiting k j (rejected disconnected) (record c { deferred = rest })
      (λ e. absurd (ground (arith, none_of, e, eqb_iff j k)))
      (record {
        given = w.given;
        waits = w.waits;
        unsettled = w.unsettled;
        undeferred = ground (arith, none_of, eqb_iff j k);
      })

-- a new request
asked-IsWaiting :
    (k : ℕ) (c : Calls)
    → IsWaiting k c
    → IsWaiting k (wait_for (c.id + 1) (promise (c.id + 1) (next_id c)))
unfolding wait_for promise next_id
asked-IsWaiting k c w = record {
  given = omega (arith, w.given);
  waits = ground (arith, lookup-insert (c.id + 1) k tt c.requests, w.waits);
  unsettled = w.unsettled;
  undeferred = w.undeferred;
}

refused-IsWaiting :
    (k : ℕ) (c : Calls)
    → IsWaiting k c
    → IsWaiting k (fulfil (c.id + 1) (rejected disconnected) (promise (c.id + 1) (next_id c)))
unfolding fulfil promise next_id
refused-IsWaiting k c w = record {
  given = omega (arith, w.given);
  waits = w.waits;
  unsettled = ground (
    arith,
    has-keep_first (c.id + 1) k (rejected disconnected) c.settled,
    w.unsettled,
    w.given,
    eqb_iff (c.id + 1) k,
  );
  undeferred = w.undeferred;
}

counted-IsWaiting : (k : ℕ) (c : Calls) → IsWaiting k c → IsWaiting k (next_id c)
unfolding next_id
counted-IsWaiting k c w = record {
  given = omega (arith, w.given);
  waits = w.waits;
  unsettled = w.unsettled;
  undeferred = w.undeferred;
}

-- a peer that no longer listens to its `net`, while `k` waits
record IsAdrift (k : ℕ) (p : Peer) : Type 0 where
  detached : p.attached ≡ false
  waiting : IsWaiting k p.calls

send_if-IsAdrift :
    (b : Bool) (k : ℕ) (rpc : RpcPayload) (p : Peer)
    → IsAdrift k p
    → IsAdrift k (send_if b none rpc p).1
send_if-IsAdrift true k rpc p a = record { detached = a.detached; waiting = a.waiting }
send_if-IsAdrift false k rpc p a = a

invoke_if-IsAdrift :
    (b : Bool) (k : ℕ) (body : Body) (p : Peer)
    → IsAdrift k p
    → IsAdrift k (
        invoke_if b
          (record { id = p.calls.id + 1; body = body })
          (record p { calls = next_id p.calls }))
unfolding send
invoke_if-IsAdrift true k body p a =
    send_if-IsAdrift p.is_open k _ _
      (record { detached = a.detached; waiting = asked-IsWaiting k p.calls a.waiting })
invoke_if-IsAdrift false k body p a = record {
  detached = a.detached;
  waiting = refused-IsWaiting k p.calls a.waiting;
}

push_to-IsAdrift :
    (b : Bool) (k : ℕ) (e : Event) (p : Peer) → IsAdrift k p → IsAdrift k (push_to b e p)
unfolding push_event send
push_to-IsAdrift true k e p a = a
push_to-IsAdrift false k e p a =
    send_if-IsAdrift p.is_open k _ _
      (record { detached = a.detached; waiting = counted-IsWaiting k p.calls a.waiting })

listen_if-IsAdrift : (b : Bool) (k : ℕ) (p : Peer) → IsAdrift k p → IsAdrift k (listen_if b p).1
listen_if-IsAdrift true k p a = record { detached = a.detached; waiting = a.waiting }
listen_if-IsAdrift false k p a = a

unsubscribe_if-IsAdrift :
    (b : Bool) (k : ℕ) (p : Peer) → IsAdrift k p → IsAdrift k (unsubscribe_if b p)
unsubscribe_if-IsAdrift true k p a = record { detached = a.detached; waiting = a.waiting }
unsubscribe_if-IsAdrift false k p a = a

fail_write-IsAdrift :
    (o : Option (Unit {0})) (k j : ℕ) (e : Error) (p : Peer)
    → j ≢ k
    → IsAdrift k p
    → IsAdrift k (fail_write o j e p)
unfolding fail_write write_failed
fail_write-IsAdrift none k j e p other a = a
fail_write-IsAdrift (some u) k j e p other a = record {
  detached = a.detached;
  waiting = settle-IsWaiting k j (rejected e) p.calls other a.waiting;
}

-- what does not make the write of the request `k` fail
abbrev pub IsSpared : ℕ → Step → Type 0
IsSpared k (write_fails j e) = j ≢ k
IsSpared k _ = Unit {0}

module _ {Db : Type 0} ⦃n : Neon⦄ ⦃p : Packages⦄ ⦃l : Level Db⦄ (wire : Wire) (k : ℕ) where
  step-IsAdrift :
      (s : Step) (h : Host Db) → IsSpared k s → IsAdrift k h.peer → IsAdrift k (step wire s h).peer
  unfolding step call invoke_rpc next_id register run_deferred next_deferred stop_net
      remove_subscriptions
  step-IsAdrift (asks body) h spared a = invoke_if-IsAdrift h.peer.is_open k body h.peer a
  step-IsAdrift (receives m rpc) h spared a =
      subst (λ b. IsAdrift k (hear wire b m rpc h).peer) (sym a.detached) a
  step-IsAdrift (write_fails j e) h other a =
      fail_write-IsAdrift (lookup j h.peer.calls.asked) k j e h.peer other a
  step-IsAdrift opens h spared a =
      subst (λ b. IsAdrift k (opened_by b h.peer)) (sym a.detached)
        (record { detached = a.detached; waiting = a.waiting })
  step-IsAdrift closes h spared a =
      subst (λ b. IsAdrift k (closed_by b h.peer)) (sym a.detached)
        (record { detached = a.detached; waiting = a.waiting })
  step-IsAdrift rejects_next h spared a = record {
    detached = a.detached;
    waiting = next_from-IsWaiting h.peer.calls.deferred k h.peer.calls refl a.waiting;
  }
  step-IsAdrift registers h spared a =
      listen_if-IsAdrift h.peer.subscribed k _
        (record { detached = a.detached; waiting = a.waiting })
  step-IsAdrift (pushes e) h spared a = push_to-IsAdrift _ k e h.peer a
  step-IsAdrift stops h spared a = record { detached = refl; waiting = a.waiting }
  step-IsAdrift unsubscribes h spared a = unsubscribe_if-IsAdrift h.peer.subscribed k h.peer a

  run-IsAdrift :
      (steps : List Step) (h : Host Db)
      → All (IsSpared k) steps
      → IsAdrift k h.peer
      → IsAdrift k (run wire steps h).peer
  unfolding run
  run-IsAdrift [] h spared a = a
  run-IsAdrift (s ∷ steps) h spared a =
      run-IsAdrift steps (step wire s h) spared.1 (step-IsAdrift s h spared.0 a)

  -- A call that waits for its answer when the `net` of its peer is stopped, and of which no rejection is
  -- planned, stays open and unsettled whatever happens afterwards, a closing of the connection
  -- included, unless the write of its request fails.
  pub stop-IsWaiting :
      (steps : List Step) (h : Host Db)
      → IsWaiting k h.peer.calls
      → All (IsSpared k) steps
      → IsWaiting k (run wire (stops ∷ steps) h).peer.calls
  unfolding run step stop_net
  stop-IsWaiting steps h waiting spared =
      (run-IsAdrift steps (step wire stops h) spared
        (record { detached = refl; waiting = waiting })).waiting
