-- ===== src/Net/Exchange.antt =====
-- A call of one peer, the answer of the other, and what the caller gets.
use godcoin_js_legacy.Prelude.{
  ℕ, ◌+◌, ◌≡◌, refl, ap, ◌∙◌, ◌∷◌, Bool, true, false, Option, none, some, Option-cases, inl, inr,
  arith, Result, ok, err, lookup, lookup-insert_self, nat_eq,
}
use godcoin_js_legacy.Neon.{Neon}
use godcoin_js_legacy.Packages.{Level, Packages}
use godcoin_js_legacy.Net.Payload.{
  Event, Body, failure, RpcPayload, event_of, has_req, broadcast_req, block_req, balance_req,
  total_fee_req, properties_req,
}
use godcoin_js_legacy.Net.Calls.{
  Answer, resolved, refused, next_id, promise, wait_for, settle, fulfil, keep_first,
}
use godcoin_js_legacy.Net.Peer.{Peer, send, send_if, call, invoke_rpc, invoke_if}
use godcoin_js_legacy.Net.Messages.{
  Host, Moment, Wire, failed, answer_body, answer_of, after_write, reply, settle_waiting,
  process_message, serve, on_answer, dispatch, on_message,
}
use godcoin_js_legacy.Net.Steps.{with_peer}
use godcoin_js_legacy.Net.Kept.{IsKept}
use godcoin_js_legacy.Net.Answers.{process_message-peer}

-- the message that carries the outcome of a request back, and what its promise then gives
abbrev pub reply_body : Result Body → Body
reply_body (ok body) = body
reply_body (err e) = failure e

abbrev pub reply_of : ℕ → Result Body → RpcPayload
reply_of k r = record { id = k; body = reply_body r }

abbrev pub outcome_of : ℕ → Result Body → Answer
outcome_of k (ok body) = resolved (record { id = k; body = body })
outcome_of k (err e) = refused e

pub call-open :
    (body : Body) (p : Peer)
    → p.is_open ≡ true
    → call body p ≡ record p {
      calls = wait_for (p.calls.id + 1) (promise (p.calls.id + 1) (next_id p.calls));
      sent = record { id = p.calls.id + 1; body = body } ∷ p.sent;
    }
unfolding call invoke_rpc send next_id
call-open body p opened =
    let k = p.calls.id + 1 in
    let rpc : RpcPayload = record { id = k; body = body } in
    let p1 : Peer = record p { calls = next_id p.calls } in
    let p2 : Peer = record p { calls = wait_for k (promise k (next_id p.calls)) } in
    ap (λ b. invoke_if b rpc p1) opened ∙ ap (λ b. (send_if b none rpc p2).1) opened

reply-open :
    (id : ℕ) (r : Result Body) (p : Peer)
    → p.is_open ≡ true
    → reply none id r p ≡ record p { sent = reply_of id r ∷ p.sent }
unfolding reply send
reply-open id (err e) p opened = ap (λ b. (send_if b none (failed id e) p).1) opened
reply-open id (ok body) p opened =
    ap (λ b. let s = send_if b none (record { id = id; body = body }) p in after_write s.0 id s.1)
      opened

-- what a body that answers a request is not
record IsReply (properties_has_req : Bool) (r : Result Body) : Type 0 where
  no_event : (k : ℕ) → event_of (reply_of k r).body ≡ none
  no_request : (k : ℕ) → has_req properties_has_req (reply_of k r).body ≡ false
  answers : (k : ℕ) → answer_of (reply_of k r) ≡ outcome_of k r

answer_body-IsReply :
    (properties_has_req : Bool) {A : Type 0} (f : A → Body) (r : Result A)
    → ((a : A) → IsReply properties_has_req (ok (f a)))
    → IsReply properties_has_req (answer_body f r)
answer_body-IsReply q f (err e) plain = record {
  no_event = λ k. refl;
  no_request = λ k. refl;
  answers = λ k. refl;
}
answer_body-IsReply q f (ok a) plain = plain a

new_id : (p : Peer) → IsKept p.calls → lookup (p.calls.id + 1) p.calls.settled ≡ none
new_id p held = elim (Option-cases (lookup (p.calls.id + 1) p.calls.settled)) [
  | inl e ↦ e
  | inr (a, e) ↦
      let k = p.calls.id + 1 in
      absurd (omega (arith, held.known k (held.asked_only k (ground (arith, e)))))
]

module _ {Db : Type 0} ⦃n : Neon⦄ ⦃p : Packages⦄ ⦃l : Level Db⦄ (wire : Wire) where
  process_message-IsReply :
      (m : Moment) (b : Body) (h : Host Db)
      → IsReply wire.properties_has_req (process_message wire m b h).0
  unfolding process_message
  process_message-IsReply m (broadcast_req tx) h =
      answer_body-IsReply wire.properties_has_req _ _
        (λ a. record { no_event = λ k. refl; no_request = λ k. refl; answers = λ k. refl })
  process_message-IsReply m properties_req h =
      answer_body-IsReply wire.properties_has_req _ _
        (λ a. record { no_event = λ k. refl; no_request = λ k. refl; answers = λ k. refl })
  process_message-IsReply m (block_req height) h =
      answer_body-IsReply wire.properties_has_req _ _
        (λ a. record { no_event = λ k. refl; no_request = λ k. refl; answers = λ k. refl })
  process_message-IsReply m (balance_req address) h =
      answer_body-IsReply wire.properties_has_req _ _
        (λ a. record { no_event = λ k. refl; no_request = λ k. refl; answers = λ k. refl })
  process_message-IsReply m (total_fee_req address) h =
      answer_body-IsReply wire.properties_has_req _ _
        (λ a. record { no_event = λ k. refl; no_request = λ k. refl; answers = λ k. refl })
  process_message-IsReply m _ h = record {
    no_event = λ k. refl;
    no_request = λ k. refl;
    answers = λ k. refl;
  }

  on_message-at :
      (o : Option Event) (b : Bool) (m : Moment) (rpc : RpcPayload) (h : Host Db)
      → event_of rpc.body ≡ o
      → has_req wire.properties_has_req rpc.body ≡ b
      → on_message wire m rpc h ≡ dispatch wire o b m rpc h
  unfolding on_message
  on_message-at o b m rpc h e f =
      ap (λ x. dispatch wire x (has_req wire.properties_has_req rpc.body) m rpc h) e
      ∙ ap (λ x. dispatch wire o x m rpc h) f

  -- a message that answers an open request settles it
  on_answer-settles :
      (rpc : RpcPayload) (h : Host Db)
      → lookup rpc.id h.peer.calls.requests ≡ some tt
      → lookup rpc.id h.peer.calls.settled ≡ none
      → lookup rpc.id (on_answer wire rpc h).peer.calls.settled ≡ some (answer_of rpc)
  unfolding on_answer settle_waiting settle fulfil keep_first
  on_answer-settles rpc h waits unsettled =
      ap (λ o. lookup rpc.id (settle_waiting o rpc h.peer).calls.settled) waits
      ∙ ap (λ o. lookup rpc.id (keep_first o rpc.id (answer_of rpc) h.peer.calls.settled)) unsettled
      ∙ lookup-insert_self rpc.id (answer_of rpc) h.peer.calls.settled

  -- the other side's part
  on_message-process_message :
      (m : Moment) (rpc : RpcPayload) (b : Host Db)
      → m.refusal ≡ none
      → b.peer.is_open ≡ true
      → event_of rpc.body ≡ none
      → has_req wire.properties_has_req rpc.body ≡ true
      → let r = process_message wire m rpc.body b in
        on_message wire m rpc b
        ≡ record (r.1) { peer = record (b.peer) { sent = reply_of rpc.id r.0 ∷ b.peer.sent } }
  unfolding serve
  on_message-process_message m rpc b works opened no_event asks =
      let r = process_message wire m rpc.body b in
      on_message-at none true m rpc b no_event asks
      ∙ ap (λ (x : Peer). record (r.1) { peer = x })
          (ap (λ x. reply x rpc.id r.0 r.1.peer) works
            ∙ ap (reply none rpc.id r.0) (process_message-peer wire m rpc.body b)
            ∙ reply-open rpc.id r.0 b.peer opened)

  -- this side's part
  on_message-outcome :
      (m : Moment) (k : ℕ) (r : Result Body) (a : Host Db)
      → IsReply wire.properties_has_req r
      → lookup k a.peer.calls.requests ≡ some tt
      → lookup k a.peer.calls.settled ≡ none
      → lookup k (on_message wire m (reply_of k r) a).peer.calls.settled ≡ some (outcome_of k r)
  on_message-outcome m k r a replies waits unsettled =
      let rpc = reply_of k r in
      ap (λ (h : Host Db). lookup k h.peer.calls.settled)
        (on_message-at none false m rpc a (replies.no_event k) (replies.no_request k))
      ∙ on_answer-settles rpc a waits unsettled
      ∙ ap some (replies.answers k)

  -- A call over an open connection, whose message is one with a `req` when it arrives (which leaves out
  -- `getProperties`, where the wire gives a body without one), sends the request under a new number; the
  -- other side, when it is open
  -- and writes, does what processMessage does and sends one message with that number; and when
  -- that message arrives the promise, which is not settled before, gives what processMessage gave or is
  -- rejected with the text of what it threw.
  pub call-process_message :
      (m m' : Moment) (body : Body) (a b : Host Db)
      → IsKept a.peer.calls
      → a.peer.is_open ≡ true
      → b.peer.is_open ≡ true
      → m.refusal ≡ none
      → event_of body ≡ none
      → has_req wire.properties_has_req body ≡ true
      → let k = a.peer.calls.id + 1 in
        let request : RpcPayload = record { id = k; body = body } in
        let waiting = with_peer (call body) a in
        let r = process_message wire m body b in
        (waiting.peer.sent ≡ request ∷ a.peer.sent)
        × (lookup k waiting.peer.calls.settled ≡ none)
        × (on_message wire m request b
            ≡ record (r.1) { peer = record (b.peer) { sent = reply_of k r.0 ∷ b.peer.sent } })
        × (lookup k (on_message wire m' (reply_of k r.0) waiting).peer.calls.settled
            ≡ some (outcome_of k r.0))
  unfolding wait_for promise next_id
  call-process_message m m' body a b held a_open b_open works no_event asks =
      let k = a.peer.calls.id + 1 in
      let called = call-open body a.peer a_open in
      let unsettled = ap (λ (q : Peer). lookup k q.calls.settled) called ∙ new_id a.peer held in
      (
        ap (λ (q : Peer). q.sent) called,
        unsettled,
        on_message-process_message m (record { id = k; body = body }) b works b_open no_event asks,
        on_message-outcome m' k (process_message wire m body b).0 (with_peer (call body) a)
            (process_message-IsReply m body b)
            (ap (λ (q : Peer). lookup k q.calls.requests) called
              ∙ lookup-insert_self k tt a.peer.calls.requests)
            unsettled,
      )
