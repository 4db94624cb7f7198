-- ===== src/Net/Answers.antt =====
-- What becomes of the promises of a peer, whatever happens to it.
use godcoin_js_legacy.Prelude
use godcoin_js_legacy.Prelude.{
  ℕ, suc, ◌+◌, ◌≡◌, ◌⊎◌, inl, inr, refl, sym, ap, ◌∙◌, List, [], ◌∷◌, ◌++◌, Bool, true, false, ◌||◌,
  Option, none, some, arith, Error, Result, ok, err, Dict, lookup, eqb, eqb_iff, nat_eq, length,
}
use mathlib.Core.Path.{subst}
use godcoin_js_legacy.Neon.{Neon}
use godcoin_js_legacy.Packages.{Level, Packages}
use godcoin_js_legacy.Net.Payload.{
  Event, Body, RpcPayload, PeerType, wallet, node, failure, broadcast_req,
}
use godcoin_js_legacy.Net.Calls.{
  Answer, rejected, Calls, fulfil, settle, next_id, promise, wait_for, drop_all, next_deferred,
}
use godcoin_js_legacy.Net.Peer.{
  Peer, new_peer, send, send_if, invoke_if, invoke_rpc, write_failed, call, add_subscriptions,
  subscribe_unless, register, listen_if, remove_subscriptions, unsubscribe_if, push_event, welcome,
  on_open, on_close, stop_net, run_deferred,
}
use godcoin_js_legacy.Net.Messages.{
  Host, Moment, Wire, answer_with, answer_of, after_write, reply, settle_waiting, push_tx,
  process_message, serve, emit, on_answer, dispatch, on_message,
}
use godcoin_js_legacy.Net.Steps.{
  Step, asks, receives, write_fails, opens, closes, rejects_next, registers, pushes, stops,
  unsubscribes, fail_write, push_to, opened_by, closed_by, hear, step, run,
}
use godcoin_js_legacy.Net.Kept.{
  has, IsKept, IsOwn, settle-IsKept, next_deferred-IsKept, ask-IsKept, refuse-IsKept,
  drop_all-IsKept, next_id-IsKept, no_calls-IsKept,
}

-- what one step can do to the promises
data Move : Calls → Calls → Type 0 where
  stays : {c : Calls} → Move c c
  settles :
      {c : Calls} (k : ℕ) (a : Answer) → has k c.asked ≡ true → IsOwn k a → Move c (settle k a c)
  rejects : {c : Calls} → Move c (next_deferred c)
  calls_out : {c : Calls} → Move c (wait_for (c.id + 1) (promise (c.id + 1) (next_id c)))
  fails_at_once :
      {c : Calls}
      → Move c (fulfil (c.id + 1) (rejected Prelude.disconnected) (promise (c.id + 1) (next_id c)))
  drops : {c : Calls} → Move c (drop_all c)
  counts : {c : Calls} → Move c (next_id c)

Move-IsKept : {c d : Calls} → Move c d → IsKept c → IsKept d
Move-IsKept stays held = held
Move-IsKept (settles {c = c} k a asked own) held = settle-IsKept k a c asked own held
Move-IsKept (rejects {c = c}) held = next_deferred-IsKept c held
Move-IsKept (calls_out {c = c}) held = ask-IsKept c held
Move-IsKept (fails_at_once {c = c}) held = refuse-IsKept c held
Move-IsKept (drops {c = c}) held = drop_all-IsKept c held
Move-IsKept (counts {c = c}) held = next_id-IsKept c held

send_if-calls :
    (b : Bool) (refusal : Option Error) (rpc : RpcPayload) (p : Peer)
    → (send_if b refusal rpc p).1.calls ≡ p.calls
send_if-calls true refusal rpc p = refl
send_if-calls false refusal rpc p = refl

pub send-calls :
    (refusal : Option Error) (rpc : RpcPayload) (p : Peer) → (send refusal rpc p).1.calls ≡ p.calls
unfolding send
send-calls refusal rpc p = send_if-calls p.is_open refusal rpc p

after_write-calls :
    (r : Result (Unit {0})) (id : ℕ) (p : Peer) → (after_write r id p).calls ≡ p.calls
after_write-calls (ok u) id p = refl
after_write-calls (err e) id p = send-calls none _ p

reply-calls :
    (refusal : Option Error) (id : ℕ) (r : Result Body) (p : Peer)
    → (reply refusal id r p).calls ≡ p.calls
unfolding reply
reply-calls refusal id (err e) p = send-calls none _ p
reply-calls refusal id (ok body) p =
    let s = send refusal (record { id = id; body = body }) p in
    after_write-calls s.0 id s.1 ∙ send-calls refusal _ p

invoke_if-Move :
    (b : Bool) (body : Body) (p : Peer)
    → Move p.calls
        (invoke_if b
          (record { id = p.calls.id + 1; body = body })
          (record p { calls = next_id p.calls })).calls
invoke_if-Move false body p = fails_at_once
invoke_if-Move true body p = subst (Move p.calls) (sym (send-calls none _ _)) calls_out

call-Move : (body : Body) (p : Peer) → Move p.calls (call body p).calls
unfolding call invoke_rpc next_id
call-Move body p = invoke_if-Move p.is_open body p

push_to-Move : (b : Bool) (e : Event) (p : Peer) → Move p.calls (push_to b e p).calls
unfolding push_event
push_to-Move true e p = stays
push_to-Move false e p = subst (Move p.calls) (sym (send-calls none _ _)) counts

subscribe_unless-calls : (b : Bool) (p : Peer) → (subscribe_unless b p).calls ≡ p.calls
subscribe_unless-calls true p = refl
subscribe_unless-calls false p = refl

welcome-calls : (t : PeerType) (p : Peer) → (welcome t p).calls ≡ p.calls
unfolding add_subscriptions
welcome-calls wallet p = refl
welcome-calls node p = subscribe_unless-calls p.subscribed p

unsubscribe_if-calls : (b : Bool) (p : Peer) → (unsubscribe_if b p).calls ≡ p.calls
unsubscribe_if-calls true p = refl
unsubscribe_if-calls false p = refl

listen_if-calls : (b : Bool) (p : Peer) → (listen_if b p).1.calls ≡ p.calls
listen_if-calls true p = refl
listen_if-calls false p = refl

pub on_close-calls : (p : Peer) → (on_close p).calls ≡ drop_all p.calls
unfolding on_close remove_subscriptions
on_close-calls p = ap drop_all (unsubscribe_if-calls p.subscribed (record p { is_open = false }))

opened_by-calls : (b : Bool) (p : Peer) → (opened_by b p).calls ≡ p.calls
unfolding on_open
opened_by-calls true p = welcome-calls p.peer_type (record p { is_open = true })
opened_by-calls false p = refl

closed_by-Move : (b : Bool) (p : Peer) → Move p.calls (closed_by b p).calls
closed_by-Move true p = subst (Move p.calls) (sym (on_close-calls p)) drops
closed_by-Move false p = stays

-- the answer to a request is one with its number
answer_with-IsOwn : (b : Body) (rpc : RpcPayload) → IsOwn rpc.id (answer_with b rpc)
answer_with-IsOwn (failure e) rpc r h = absurd (ground (arith, h))
answer_with-IsOwn b rpc r h = ground (arith, h)

settle_waiting-Move :
    (o : Option (Unit {0})) (rpc : RpcPayload) (p : Peer)
    → (o ≡ some tt → has rpc.id p.calls.asked ≡ true)
    → Move p.calls (settle_waiting o rpc p).calls
unfolding settle_waiting
settle_waiting-Move none rpc p asked = stays
settle_waiting-Move (some u) rpc p asked =
    settles rpc.id (answer_of rpc) (asked refl) (answer_with-IsOwn rpc.body rpc)

fail_write-Move :
    (o : Option (Unit {0})) (k : ℕ) (e : Error) (p : Peer)
    → (o ≡ some tt → has k p.calls.asked ≡ true)
    → Move p.calls (fail_write o k e p).calls
unfolding fail_write write_failed
fail_write-Move none k e p asked = stays
fail_write-Move (some u) k e p asked =
    settles k (rejected e) (asked refl) (λ rpc h. absurd (ground (arith, h)))

module _ {Db : Type 0} ⦃n : Neon⦄ ⦃p : Packages⦄ ⦃l : Level Db⦄ (wire : Wire) where
  pub process_message-peer :
      (m : Moment) (b : Body) (h : Host Db) → (process_message wire m b h).1.peer ≡ h.peer
  unfolding process_message push_tx
  process_message-peer m (broadcast_req tx) h = refl
  process_message-peer m _ h = refl

  dispatch-Move :
      (o : Option Event) (b : Bool) (m : Moment) (rpc : RpcPayload) (h : Host Db)
      → IsKept h.peer.calls
      → Move h.peer.calls (dispatch wire o b m rpc h).peer.calls
  unfolding emit serve on_answer
  dispatch-Move (some e) b m rpc h held = stays
  dispatch-Move none true m rpc h held =
      let r = process_message wire m rpc.body h in
      subst (Move h.peer.calls)
        (sym (
          reply-calls m.refusal rpc.id r.0 r.1.peer
          ∙ ap (λ (q : Peer). q.calls) (process_message-peer m rpc.body h)))
        stays
  dispatch-Move none false m rpc h held =
      settle_waiting-Move (lookup rpc.id h.peer.calls.requests) rpc h.peer
        (λ e. held.waiting rpc.id (ground (arith, e)))

  hear-Move :
      (b : Bool) (m : Moment) (rpc : RpcPayload) (h : Host Db)
      → IsKept h.peer.calls
      → Move h.peer.calls (hear wire b m rpc h).peer.calls
  unfolding on_message
  hear-Move false m rpc h held = stays
  hear-Move true m rpc h held = dispatch-Move _ _ m rpc h held

  step-Move :
      (s : Step) (h : Host Db) → IsKept h.peer.calls → Move h.peer.calls (step wire s h).peer.calls
  unfolding step register run_deferred stop_net remove_subscriptions
  step-Move (asks body) h held = call-Move body h.peer
  step-Move (receives m rpc) h held = hear-Move h.peer.attached m rpc h held
  step-Move (write_fails k e) h held =
      fail_write-Move (lookup k h.peer.calls.asked) k e h.peer (λ same. ground (arith, same))
  step-Move opens h held =
      subst (Move h.peer.calls) (sym (opened_by-calls h.peer.attached h.peer)) stays
  step-Move closes h held = closed_by-Move h.peer.attached h.peer
  step-Move stops h held = stays
  step-Move unsubscribes h held =
      subst (Move h.peer.calls) (sym (unsubscribe_if-calls h.peer.subscribed h.peer)) stays
  step-Move rejects_next h held = rejects
  step-Move registers h held =
      subst (Move h.peer.calls) (sym (listen_if-calls h.peer.subscribed _)) stays
  step-Move (pushes e) h held = push_to-Move _ e h.peer

  -- however much happens to the peer
  pub run-keeps :
      (steps : List Step) (h : Host Db) → IsKept h.peer.calls → IsKept (run wire steps h).peer.calls
  unfolding run
  run-keeps [] h held = held
  run-keeps (s ∷ steps) h held =
      run-keeps steps (step wire s h) (Move-IsKept (step-Move s h held) held)

  -- Whatever happens to a new peer, each of its promises is open, settled, or about to be rejected; only
  -- what was asked is settled, no open promise is, and a promise that is resolved has a message
  -- with the number of its own request.
  pub run-IsKept :
      (steps : List Step) (h : Host Db) (t : PeerType)
      → h.peer ≡ new_peer t
      → IsKept (run wire steps h).peer.calls
  run-IsKept steps h t fresh =
      run-keeps steps h (subst (λ (q : Peer). IsKept q.calls) (sym fresh) no_calls-IsKept)
