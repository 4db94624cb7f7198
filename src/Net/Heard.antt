-- ===== src/Net/Heard.antt =====
-- What the listener of the first message does in src/lib/net/server_peer/net.ts.
use godcoin_js_legacy.Prelude.{
  ◌≡◌, refl, sym, ap, ◌∙◌, List, [], ◌∷◌, Bool, true, false, Option, none, some, Error, Result, ok,
  err, eqb, invalid_handshake_id, not_a_handshake,
}
use mathlib.Core.Path.{subst}
use godcoin_js_legacy.Net.Payload.{PeerType}
use godcoin_js_legacy.Net.Socket.{RpcCodec, Net, type_once, set_peer_type, send, send_if}
use godcoin_js_legacy.Net.Handshake.{
  Greeting, handshake_answer, ServerNet, ServerEvent, messages, times_out, closes, keep_settled,
  with_net, respond, accept_type, check_type, check_id, hear_if, hear_all, on_event, then_go_on,
  server_run,
}
use godcoin_js_legacy.Net.Verdict.{
  judge_type, judge_kind, judge_id, opens, IsAt, close-gone, gone-then_go_on, send_if-events,
  send_if-type, settle-IsAt, settle_again-IsAt, then_go_on-IsAt, time_out-gone,
}

module _ {C : Type 0} (k : RpcCodec Greeting C) where
  pub set_peer_type-opens :
      (t : PeerType) (o : Option PeerType) (net : Net Greeting C)
      → opens (type_once o t net).1.events ≡ opens net.events
  set_peer_type-opens t none net = refl
  set_peer_type-opens t (some u) net = refl

  -- messages after the first one are not heard
  pub deaf-hear_all :
      (refusal : Option Error) (rpcs : List Greeting) (s : ServerNet C)
      → s.listening ≡ false
      → hear_all k refusal rpcs s ≡ s
  unfolding hear_all
  deaf-hear_all refusal [] s deaf = refl
  deaf-hear_all refusal (rpc ∷ rpcs) s deaf =
      ap (λ b. hear_all k refusal rpcs (hear_if k b refusal rpc s)) deaf
      ∙ deaf-hear_all refusal rpcs s deaf

  -- the first message, before what follows it
  pub respond-IsAt :
      (refusal : Option Error) (t : PeerType) (s : ServerNet C)
      → s.listening ≡ false
      → IsAt none false s
      → IsAt (some (ok t)) false (respond k refusal (set_peer_type t s.net) s)
  unfolding set_peer_type send
  respond-IsAt refusal t s deaf at =
      let net : Net Greeting C = record (s.net) { peer_type = some t } in
      let once : type_once (s.net).peer_type t s.net ≡ (ok tt, net) =
        ap (λ o. type_once o t s.net) at.typed in
      subst (λ x. IsAt (some (ok t)) false (respond k refusal x s)) (sym once)
        (record {
          settled = ap (λ o. keep_settled o (ok tt)) at.settled;
          resumed = at.resumed;
          serving = at.serving;
          opened = ap opens (send_if-events k net.socket refusal handshake_answer net) ∙ at.opened;
          waiting = refl;
          typed = (deaf, send_if-type k net.socket refusal handshake_answer net);
        })

  pub judged_type-IsAt :
      (refusal : Option Error) (o : Option (Option PeerType)) (s : ServerNet C)
      → s.listening ≡ false
      → IsAt none false s
      → IsAt (judge_type o) false (accept_type k refusal o s)
  judged_type-IsAt refusal none s deaf at = at
  judged_type-IsAt refusal (some none) s deaf at = at
  judged_type-IsAt refusal (some (some t)) s deaf at = respond-IsAt refusal t s deaf at

  pub judged_kind-IsAt :
      (refusal : Option Error) (b : Bool) (rpc : Greeting) (s : ServerNet C)
      → s.listening ≡ false
      → IsAt none false s
      → IsAt (judge_kind b rpc) false (check_type k refusal b rpc s)
  judged_kind-IsAt refusal false rpc s deaf at = settle-IsAt (err not_a_handshake) s at tt
  judged_kind-IsAt refusal true rpc s deaf at = judged_type-IsAt refusal rpc.req s deaf at

  pub judged-IsAt :
      (refusal : Option Error) (b : Bool) (rpc : Greeting) (s : ServerNet C)
      → s.listening ≡ false
      → IsAt none false s
      → IsAt (judge_id b rpc) false (check_id k refusal b rpc s)
  judged-IsAt refusal false rpc s deaf at = settle-IsAt (err invalid_handshake_id) s at tt
  judged-IsAt refusal true rpc s deaf at = judged_kind-IsAt refusal rpc.is_handshake rpc s deaf at

  -- a message does not register the listener again
  pub respond-listening :
      (refusal : Option Error) (x : Result (Unit {0}) × Net Greeting C) (s : ServerNet C)
      → (respond k refusal x s).listening ≡ s.listening
  respond-listening refusal (ok done, net) s = refl
  respond-listening refusal (err e, net) s = refl

  pub accept-listening :
      (refusal : Option Error) (o : Option (Option PeerType)) (s : ServerNet C)
      → (accept_type k refusal o s).listening ≡ s.listening
  accept-listening refusal none s = refl
  accept-listening refusal (some none) s = refl
  accept-listening refusal (some (some t)) s = respond-listening refusal (set_peer_type t s.net) s

  pub kind-listening :
      (refusal : Option Error) (b : Bool) (rpc : Greeting) (s : ServerNet C)
      → (check_type k refusal b rpc s).listening ≡ s.listening
  kind-listening refusal false rpc s = refl
  kind-listening refusal true rpc s = accept-listening refusal rpc.req s

  pub heard-listening :
      (refusal : Option Error) (b : Bool) (rpc : Greeting) (s : ServerNet C)
      → (check_id k refusal b rpc s).listening ≡ s.listening
  heard-listening refusal false rpc s = refl
  heard-listening refusal true rpc s = kind-listening refusal rpc.is_handshake rpc s

  -- a message that comes after the timer does not change the end of the handshake
  pub late_respond-IsAt :
      (refusal : Option Error) (e : Error) (o : Option PeerType) (t : PeerType) (s : ServerNet C)
      → IsAt (some (err e)) true s
      → IsAt (some (err e)) true (respond k refusal (type_once o t s.net) s)
  unfolding send
  late_respond-IsAt refusal e (some u) t s at = at
  late_respond-IsAt refusal e none t s at =
      let net : Net Greeting C = record (s.net) { peer_type = some t } in
      settle_again-IsAt e (ok tt) (with_net (send_if k net.socket refusal handshake_answer net).1 s)
        (record {
          settled = at.settled;
          resumed = at.resumed;
          serving = at.serving;
          opened = ap opens (send_if-events k net.socket refusal handshake_answer net) ∙ at.opened;
          waiting = at.waiting;
          typed = tt;
        })

  pub late_type-IsAt :
      (refusal : Option Error) (e : Error) (o : Option (Option PeerType)) (s : ServerNet C)
      → IsAt (some (err e)) true s
      → IsAt (some (err e)) true (accept_type k refusal o s)
  unfolding set_peer_type
  late_type-IsAt refusal e none s at = at
  late_type-IsAt refusal e (some none) s at = at
  late_type-IsAt refusal e (some (some t)) s at =
      late_respond-IsAt refusal e (s.net).peer_type t s at

  pub late_kind-IsAt :
      (refusal : Option Error) (e : Error) (b : Bool) (rpc : Greeting) (s : ServerNet C)
      → IsAt (some (err e)) true s
      → IsAt (some (err e)) true (check_type k refusal b rpc s)
  late_kind-IsAt refusal e false rpc s at = settle_again-IsAt e (err not_a_handshake) s at
  late_kind-IsAt refusal e true rpc s at = late_type-IsAt refusal e rpc.req s at

  pub late-IsAt :
      (refusal : Option Error) (e : Error) (b : Bool) (rpc : Greeting) (s : ServerNet C)
      → IsAt (some (err e)) true s
      → IsAt (some (err e)) true (check_id k refusal b rpc s)
  late-IsAt refusal e false rpc s at = settle_again-IsAt e (err invalid_handshake_id) s at
  late-IsAt refusal e true rpc s at = late_kind-IsAt refusal e rpc.is_handshake rpc s at

  pub late_hear-IsAt :
      (refusal : Option Error) (e : Error) (b : Bool) (rpc : Greeting) (s : ServerNet C)
      → IsAt (some (err e)) true s
      → IsAt (some (err e)) true (hear_if k b refusal rpc s)
  late_hear-IsAt refusal e false rpc s at = at
  late_hear-IsAt refusal e true rpc s at =
      late-IsAt refusal e (eqb rpc.id 0) rpc (record s { listening = false })
        (record {
          settled = at.settled;
          resumed = at.resumed;
          serving = at.serving;
          opened = at.opened;
          waiting = at.waiting;
          typed = tt;
        })

  pub late_all-IsAt :
      (refusal : Option Error) (e : Error) (rpcs : List Greeting) (s : ServerNet C)
      → IsAt (some (err e)) true s
      → IsAt (some (err e)) true (hear_all k refusal rpcs s)
  unfolding hear_all
  late_all-IsAt refusal e [] s at = at
  late_all-IsAt refusal e (rpc ∷ rpcs) s at =
      late_all-IsAt refusal e rpcs (hear_if k s.listening refusal rpc s)
        (late_hear-IsAt refusal e s.listening rpc s at)

  -- once it is there, the end of the handshake stays
  pub gone-on_event :
      (v : Result PeerType) (e : ServerEvent) (s : ServerNet C)
      → IsAt (some v) true s
      → IsAt (some v) true (on_event k e s)
  unfolding on_event
  gone-on_event (ok t) (messages refusal rpcs) s at =
      subst (IsAt (some (ok t)) true) (sym (deaf-hear_all refusal rpcs s at.typed.0)) at
  gone-on_event (err e) (messages refusal rpcs) s at = late_all-IsAt refusal e rpcs s at
  gone-on_event v times_out s at = subst (IsAt (some v) true) (sym (time_out-gone v s at)) at
  gone-on_event v closes s at = close-gone v s at

  pub gone-server_run :
      (v : Result PeerType) (es : List ServerEvent) (s : ServerNet C)
      → IsAt (some v) true s
      → IsAt (some v) true (server_run k es s)
  unfolding server_run
  gone-server_run v [] s at = at
  gone-server_run v (e ∷ es) s at =
      let next = gone-on_event v e s at in
      gone-server_run v es (then_go_on (on_event k e s))
        (subst (IsAt (some v) true) (sym (gone-then_go_on v (on_event k e s) next)) next)

  pub decided-server_run :
      (v : Result PeerType) (es : List ServerEvent) (s : ServerNet C)
      → IsAt (some v) false s
      → IsAt (some v) true (server_run k es (then_go_on s))
  decided-server_run v es s at = gone-server_run v es (then_go_on s) (then_go_on-IsAt v s at)
