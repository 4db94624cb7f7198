-- ===== src/Net/Verdict.antt =====
-- How the handshake of src/lib/net/server_peer/net.ts ends, by the events of the connection, and the states
-- that this puts it in.
use godcoin_js_legacy.Prelude.{
  ℕ, suc, ◌+◌, ◌≡◌, refl, sym, ap, ◌∙◌, List, [], ◌∷◌, ◌++◌, Bool, true, false, Option, none, some,
  arith, Error, Result, ok, err, eqb, handshake_timeout, invalid_handshake_id, not_a_handshake,
  disconnected_in_handshake,
}
use mathlib.Core.Option.{map}
use mathlib.Core.Path.{subst}
use godcoin_js_legacy.Net.Payload.{PeerType}
use godcoin_js_legacy.Net.Socket.{
  RpcCodec, Net, NetEvent, open_event, close_event, emit_event, open_as, on_open, on_close,
  drop_socket, send_if, end_if,
}
use godcoin_js_legacy.Net.Handshake.{
  Greeting, ServerNet, ServerEvent, messages, times_out, closes, keep_settled, settle_handshake,
  time_out_if, close_server, reject_if, end_if_open, go_on, then_go_on,
}

-- what the first message decides, and nothing if an assertion throws
abbrev pub judge_type : Option (Option PeerType) → Option (Result PeerType)
judge_type none = none
judge_type (some none) = none
judge_type (some (some t)) = some (ok t)

abbrev pub judge_kind : Bool → Greeting → Option (Result PeerType)
judge_kind false rpc = some (err not_a_handshake)
judge_kind true rpc = judge_type rpc.req

abbrev pub judge_id : Bool → Greeting → Option (Result PeerType)
judge_id false rpc = some (err invalid_handshake_id)
judge_id true rpc = judge_kind rpc.is_handshake rpc

abbrev pub judge : Greeting → Option (Result PeerType)
judge rpc = judge_id (eqb rpc.id 0) rpc

-- the end of the handshake when the first message has decided nothing
abbrev pub verdict_later : List ServerEvent → Option (Result PeerType)
verdict_later [] = none
verdict_later (messages refusal rpcs ∷ es) = verdict_later es
verdict_later (times_out ∷ es) = some (err handshake_timeout)
verdict_later (closes ∷ es) = some (err disconnected_in_handshake)

abbrev pub or_later : Option (Result PeerType) → List ServerEvent → Option (Result PeerType)
or_later none es = verdict_later es
or_later (some v) es = some v

-- how the handshake ends: by the first message, or else by the timer or the end of the connection
abbrev pub verdict : List ServerEvent → Option (Result PeerType)
verdict [] = none
verdict (messages refusal [] ∷ es) = verdict es
verdict (messages refusal (rpc ∷ rpcs) ∷ es) = or_later (judge rpc) es
verdict (times_out ∷ es) = some (err handshake_timeout)
verdict (closes ∷ es) = some (err disconnected_in_handshake)

abbrev pub forget : Result PeerType → Result (Unit {0})
forget (ok t) = ok tt
forget (err e) = err e

abbrev pub opens : List NetEvent → ℕ
opens [] = 0
opens (open_event ∷ es) = suc (opens es)
opens (close_event ∷ es) = opens es

-- whether the connection is served, once what follows the verdict has run
abbrev pub is_served : Bool → Option (Result PeerType) → Bool
is_served true (some (ok t)) = true
is_served true (some (err e)) = false
is_served true none = false
is_served false v = false

abbrev pub times_opened : Bool → Option (Result PeerType) → ℕ
times_opened true (some (ok t)) = 1
times_opened true (some (err e)) = 0
times_opened true none = 0
times_opened false v = 0

abbrev pub is_undecided : Option (Result PeerType) → Bool
is_undecided none = true
is_undecided (some v) = false

-- what follows a verdict runs at once
abbrev pub has_gone : Option (Result PeerType) → Bool
has_gone none = false
has_gone (some v) = true

module _ {C : Type 0} where
  abbrev pub IsTyped : Option (Result PeerType) → ServerNet C → Type 0
  IsTyped none s = (s.net).peer_type ≡ none
  IsTyped (some (ok t)) s = (s.listening ≡ false) × ((s.net).peer_type ≡ some t)
  IsTyped (some (err e)) s = Unit

  -- The connection is where the verdict puts it; `gone` says that what follows the verdict has run.
  pub record IsAt (v : Option (Result PeerType)) (gone : Bool) (s : ServerNet C) : Type 0 where
    pub settled : s.settled ≡ map forget v
    pub resumed : s.resumed ≡ gone
    pub serving : s.serving ≡ is_served gone v
    pub opened : opens (s.net).events ≡ times_opened gone v
    pub waiting : s.waiting ≡ is_undecided v
    pub typed : IsTyped v s

pub opens-append : (xs ys : List NetEvent) → opens (xs ++ ys) ≡ opens xs + opens ys
opens-append [] ys = omega arith
opens-append (open_event ∷ xs) ys = omega (arith, opens-append xs ys)
opens-append (close_event ∷ xs) ys = opens-append xs ys

module _ {M C : Type 0} where
  pub end_if-events : (b : Bool) (net : Net M C) → (end_if b net).events ≡ net.events
  end_if-events true net = refl
  end_if-events false net = refl

  pub end_if-type : (b : Bool) (net : Net M C) → (end_if b net).peer_type ≡ net.peer_type
  end_if-type true net = refl
  end_if-type false net = refl

  pub on_close-type : (net : Net M C) → (on_close net).peer_type ≡ net.peer_type
  unfolding on_close emit_event drop_socket
  on_close-type net = end_if-type net.socket net

  pub on_close-opens : (net : Net M C) → opens (on_close net).events ≡ opens net.events
  unfolding on_close emit_event drop_socket
  on_close-opens net = omega (
    arith,
    opens-append (end_if net.socket net).events (close_event ∷ []),
    ap opens (end_if-events net.socket net),
  )

  pub open_as-opens :
      (o : Option PeerType) (net : Net M C)
      → opens (open_as o true net).events ≡ suc (opens net.events)
  unfolding emit_event
  open_as-opens none net = omega (arith, opens-append net.events (open_event ∷ []))
  open_as-opens (some t) net = omega (arith, opens-append net.events (open_event ∷ []))

  pub open_as-type :
      (o : Option PeerType) (net : Net M C) → (open_as o true net).peer_type ≡ net.peer_type
  unfolding emit_event
  open_as-type none net = refl
  open_as-type (some t) net = refl

  pub send_if-events :
      (k : RpcCodec M C) (b : Bool) (refusal : Option Error) (m : M) (net : Net M C)
      → (send_if k b refusal m net).1.events ≡ net.events
  send_if-events k false refusal m net = refl
  send_if-events k true none m net = refl
  send_if-events k true (some e) m net = refl

  pub send_if-type :
      (k : RpcCodec M C) (b : Bool) (refusal : Option Error) (m : M) (net : Net M C)
      → (send_if k b refusal m net).1.peer_type ≡ net.peer_type
  send_if-type k false refusal m net = refl
  send_if-type k true none m net = refl
  send_if-type k true (some e) m net = refl

module _ {C : Type 0} where
  pub settle-IsAt :
      (v : Result PeerType) (s : ServerNet C)
      → IsAt none false s
      → IsTyped (some v) (settle_handshake (forget v) s)
      → IsAt (some v) false (settle_handshake (forget v) s)
  settle-IsAt v s at typed = record {
    settled = ap (λ o. keep_settled o (forget v)) at.settled;
    resumed = at.resumed;
    serving = at.serving;
    opened = at.opened;
    waiting = refl;
    typed = typed;
  }

  -- nothing follows before the verdict
  pub undecided-then_go_on : (s : ServerNet C) → IsAt none false s → then_go_on s ≡ s
  undecided-then_go_on s at = ap (λ o. go_on o s.resumed s) at.settled

  -- and nothing more after what follows it
  pub gone-then_go_on :
      (v : Result PeerType) (s : ServerNet C) → IsAt (some v) true s → then_go_on s ≡ s
  gone-then_go_on (ok t) s at =
      ap (λ o. go_on o s.resumed s) at.settled ∙ ap (λ b. go_on (some (ok tt)) b s) at.resumed
  gone-then_go_on (err e) s at =
      ap (λ o. go_on o s.resumed s) at.settled ∙ ap (λ b. go_on (some (err e)) b s) at.resumed

  pub end_if_open-IsAt :
      (b : Bool) (e : Error) (s : ServerNet C)
      → IsAt (some (err e)) false s
      → IsAt (some (err e)) true (end_if_open b (record s { resumed = true }))
  end_if_open-IsAt true e s at = record {
    settled = at.settled;
    resumed = refl;
    serving = at.serving;
    opened = at.opened;
    waiting = at.waiting;
    typed = tt;
  }
  end_if_open-IsAt false e s at = record {
    settled = at.settled;
    resumed = refl;
    serving = at.serving;
    opened = at.opened;
    waiting = at.waiting;
    typed = tt;
  }

  pub go_on-IsAt :
      (v : Result PeerType) (s : ServerNet C)
      → IsAt (some v) false s
      → IsAt (some v) true (go_on (some (forget v)) false s)
  unfolding on_open
  go_on-IsAt (err e) s at = end_if_open-IsAt (s.net).socket e s at
  go_on-IsAt (ok t) s at =
      let (deaf, type) = at.typed in
      record {
        settled = at.settled;
        resumed = refl;
        serving = refl;
        opened = open_as-opens (s.net).peer_type s.net ∙ ap suc at.opened;
        waiting = at.waiting;
        typed = (deaf, open_as-type (s.net).peer_type s.net ∙ type);
      }

  pub then_go_on-IsAt :
      (v : Result PeerType) (s : ServerNet C)
      → IsAt (some v) false s
      → IsAt (some v) true (then_go_on s)
  then_go_on-IsAt v s at =
      subst (IsAt (some v) true)
        (sym (
          ap (λ o. go_on o s.resumed s) at.settled
          ∙ ap (λ b. go_on (some (forget v)) b s) at.resumed))
        (go_on-IsAt v s at)

  -- a later settling changes nothing
  pub settle_again-IsAt :
      (e : Error) (r : Result (Unit {0})) (s : ServerNet C)
      → IsAt (some (err e)) true s
      → IsAt (some (err e)) true (settle_handshake r s)
  settle_again-IsAt e r s at = record {
    settled = ap (λ o. keep_settled o r) at.settled;
    resumed = at.resumed;
    serving = at.serving;
    opened = at.opened;
    waiting = refl;
    typed = tt;
  }

  pub time_out-gone :
      (v : Result PeerType) (s : ServerNet C) → IsAt (some v) true s → time_out_if s.waiting s ≡ s
  time_out-gone v s at = ap (λ b. time_out_if b s) at.waiting

  pub closed-IsTyped :
      (v : Result PeerType) (s : ServerNet C)
      → IsTyped (some v) s
      → IsTyped (some v) (close_server s)
  closed-IsTyped (ok t) s (deaf, type) = (refl, on_close-type s.net ∙ type)
  closed-IsTyped (err e) s typed = tt

  pub close-gone :
      (v : Result PeerType) (s : ServerNet C)
      → IsAt (some v) true s
      → IsAt (some v) true (reject_if s.waiting (close_server s))
  close-gone v s at =
      subst (λ b. IsAt (some v) true (reject_if b (close_server s))) (sym at.waiting)
        (record {
          settled = at.settled;
          resumed = at.resumed;
          serving = at.serving;
          opened = on_close-opens s.net ∙ at.opened;
          waiting = at.waiting;
          typed = closed-IsTyped v s at.typed;
        })
