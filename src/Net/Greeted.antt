-- ===== src/Net/Greeted.antt =====
-- What the handshake of src/lib/net/server_peer/net.ts comes to, by the events of the connection.
use godcoin_js_legacy.Prelude.{
  ◌≡◌, refl, sym, ap, ◌∙◌, List, [], ◌∷◌, true, false, Option, none, some, Error, Result, err, eqb,
  handshake_timeout, disconnected_in_handshake,
}
use mathlib.Core.Path.{subst}
use godcoin_js_legacy.Net.Payload.{PeerType}
use godcoin_js_legacy.Net.Socket.{RpcCodec, Net, set_socket}
use godcoin_js_legacy.Net.Handshake.{
  Greeting, ServerNet, ServerEvent, messages, times_out, closes, time_out_if, close_server,
  reject_if, init, check_id, hear_if, hear_all, on_event, then_go_on, server_run,
}
use godcoin_js_legacy.Net.Verdict.{
  judge, verdict_later, or_later, verdict, opens, has_gone, IsAt, on_close-opens, on_close-type,
  settle-IsAt, undecided-then_go_on,
}
use godcoin_js_legacy.Net.Heard.{deaf-hear_all, decided-server_run, heard-listening, judged-IsAt}

module _ {C : Type 0} (k : RpcCodec Greeting C) where
  timed_out-IsAt :
      (s : ServerNet C)
      → IsAt none false s
      → IsAt (some (err handshake_timeout)) false (time_out_if s.waiting s)
  timed_out-IsAt s at =
      subst (λ b. IsAt (some (err handshake_timeout)) false (time_out_if b s)) (sym at.waiting)
        (settle-IsAt (err handshake_timeout) s at tt)

  closed-IsAt :
      (s : ServerNet C)
      → IsAt none false s
      → IsAt (some (err disconnected_in_handshake)) false (reject_if s.waiting (close_server s))
  closed-IsAt s at =
      subst (λ b. IsAt (some (err disconnected_in_handshake)) false (reject_if b (close_server s)))
        (sym at.waiting)
        (settle-IsAt (err disconnected_in_handshake) (close_server s)
          (record {
            settled = at.settled;
            resumed = at.resumed;
            serving = at.serving;
            opened = on_close-opens s.net ∙ at.opened;
            waiting = at.waiting;
            typed = on_close-type s.net ∙ at.typed;
          })
          tt)

  later-server_run :
      (es : List ServerEvent) (s : ServerNet C)
      → s.listening ≡ false
      → IsAt none false s
      → IsAt (verdict_later es) (has_gone (verdict_later es)) (server_run k es s)
  unfolding server_run on_event
  later-server_run [] s deaf at = at
  later-server_run (messages refusal rpcs ∷ es) s deaf at =
      let same : then_go_on (hear_all k refusal rpcs s) ≡ s =
        ap then_go_on (deaf-hear_all k refusal rpcs s deaf) ∙ undecided-then_go_on s at in
      subst (λ x. IsAt (verdict_later es) (has_gone (verdict_later es)) (server_run k es x))
        (sym same) (later-server_run es s deaf at)
  later-server_run (times_out ∷ es) s deaf at =
      decided-server_run k (err handshake_timeout) es (time_out_if s.waiting s)
        (timed_out-IsAt s at)
  later-server_run (closes ∷ es) s deaf at =
      decided-server_run k (err disconnected_in_handshake) es (reject_if s.waiting (close_server s))
        (closed-IsAt s at)

  heard-server_run :
      (v : Option (Result PeerType)) (es : List ServerEvent) (s : ServerNet C)
      → s.listening ≡ false
      → IsAt v false s
      → IsAt (or_later v es) (has_gone (or_later v es)) (server_run k es (then_go_on s))
  heard-server_run none es s deaf at =
      subst (λ x. IsAt (verdict_later es) (has_gone (verdict_later es)) (server_run k es x))
        (sym (undecided-then_go_on s at)) (later-server_run es s deaf at)
  heard-server_run (some v) es s deaf at = decided-server_run k v es s at

  first_heard :
      (refusal : Option Error) (rpc : Greeting) (rpcs : List Greeting) (s : ServerNet C)
      → s.listening ≡ true
      → hear_all k refusal (rpc ∷ rpcs) s
        ≡ check_id k refusal (eqb rpc.id 0) rpc (record s { listening = false })
  unfolding hear_all
  first_heard refusal rpc rpcs s hears =
      ap (λ b. hear_all k refusal rpcs (hear_if k b refusal rpc s)) hears
      ∙ deaf-hear_all k refusal rpcs (hear_if k true refusal rpc s)
          (heard-listening k refusal (eqb rpc.id 0) rpc (record s { listening = false }))

  -- no message
  unheard : (refusal : Option Error) (s : ServerNet C) → hear_all k refusal [] s ≡ s
  unfolding hear_all
  unheard refusal s = refl

  listening-server_run :
      (es : List ServerEvent) (s : ServerNet C)
      → s.listening ≡ true
      → IsAt none false s
      → IsAt (verdict es) (has_gone (verdict es)) (server_run k es s)
  unfolding server_run on_event
  listening-server_run [] s hears at = at
  listening-server_run (messages refusal [] ∷ es) s hears at =
      let same : then_go_on (hear_all k refusal [] s) ≡ s =
        ap then_go_on (unheard refusal s) ∙ undecided-then_go_on s at in
      subst (λ x. IsAt (verdict es) (has_gone (verdict es)) (server_run k es x)) (sym same)
        (listening-server_run es s hears at)
  listening-server_run (messages refusal (rpc ∷ rpcs) ∷ es) s hears at =
      let s' = record s { listening = false } in
      let heard = check_id k refusal (eqb rpc.id 0) rpc s' in
      subst
        (λ x.
          IsAt (or_later (judge rpc) es) (has_gone (or_later (judge rpc) es))
            (server_run k es (then_go_on x)))
        (sym (first_heard refusal rpc rpcs s hears))
        (heard-server_run (judge rpc) es heard (heard-listening k refusal (eqb rpc.id 0) rpc s') (
          judged-IsAt k refusal (eqb rpc.id 0) rpc s' refl (record {
            settled = at.settled;
            resumed = at.resumed;
            serving = at.serving;
            opened = at.opened;
            waiting = at.waiting;
            typed = at.typed;
          })))
  listening-server_run (times_out ∷ es) s hears at =
      decided-server_run k (err handshake_timeout) es (time_out_if s.waiting s)
        (timed_out-IsAt s at)
  listening-server_run (closes ∷ es) s hears at =
      decided-server_run k (err disconnected_in_handshake) es (reject_if s.waiting (close_server s))
        (closed-IsAt s at)

  -- However the events of a connection come, the handshake ends the way its first message says, or, when
  -- that decides nothing, with the timer or the end of the connection: it is settled so once and for all,
  -- the connection is served and announced, once, if it was a handshake with a type, which then is the
  -- type of the peer, and never otherwise.
  pub server_run-verdict :
      (es : List ServerEvent) (net : Net Greeting C)
      → net.peer_type ≡ none
      → opens net.events ≡ 0
      → IsAt (verdict es) (has_gone (verdict es)) (server_run k es (init k net))
  unfolding init set_socket
  server_run-verdict es net untyped quiet = listening-server_run es (init k net) refl (record {
    settled = refl;
    resumed = refl;
    serving = refl;
    opened = quiet;
    waiting = refl;
    typed = untyped;
  })
