-- ===== src/Net/Handshake.antt =====
-- `ServerNet` of src/lib/net/server_peer/net.ts, with what the callback of src/lib/node/server.ts does with
-- a connection. What follows an event by promises runs before the next event.
use godcoin_js_legacy.Prelude.{
  ℕ, List, [], ◌∷◌, Bool, true, false, Option, none, some, Error, Result, ok, err, eqb,
  handshake_timeout, invalid_handshake_id, not_a_handshake, disconnected_in_handshake,
}
use godcoin_js_legacy.Net.Payload.{PeerType}
use godcoin_js_legacy.Net.Socket.{
  RpcCodec, Net, set_peer_type, end_socket, on_open, on_close, set_socket, send,
}

-- what the handshake reads of a message: `req` is none where there is no request, `some none` for one whose
-- `peer_type` is undefined
pub record Greeting : Type 0 where
  pub id : ℕ
  pub is_handshake : Bool
  pub req : Option (Option PeerType)

-- the answer, of type NONE
abbrev pub handshake_answer : Greeting
handshake_answer = record { id = 0; is_handshake = false; req = none }

-- `waiting` says that there is a `handshakePromise`, whose timer runs as long; `listening` that the listener
-- of the first message is registered; `settled` is what the promise was given first; `resumed` says that
-- `init` and the server's callback went on after it, and `serving` that the callback then registered its
-- listeners.
pub record ServerNet (C : Type 0) : Type 0 where
  pub net : Net Greeting C
  pub waiting : Bool
  pub listening : Bool
  pub settled : Option (Result (Unit {0}))
  pub resumed : Bool
  pub serving : Bool

-- an event of the connection: the messages of a piece of data, with the error with which the socket refuses
-- the answer, if it does
pub data ServerEvent : Type 0 where
  messages : Option Error → List Greeting → ServerEvent
  times_out closes : ServerEvent

abbrev pub keep_settled :
    Option (Result (Unit {0})) → Result (Unit {0}) → Option (Result (Unit {0}))
keep_settled none r = some r
keep_settled (some first) r = some first

module _ {C : Type 0} where
  -- `resolve` and `reject`
  abbrev pub settle_handshake : Result (Unit {0}) → ServerNet C → ServerNet C
  settle_handshake r s = record s { waiting = false; settled = keep_settled s.settled r }

  abbrev pub with_net : Net Greeting C → ServerNet C → ServerNet C
  with_net net s = record s { net = net }

  -- the function of the timer
  abbrev pub time_out_if : Bool → ServerNet C → ServerNet C
  time_out_if true s = settle_handshake (err handshake_timeout) s
  time_out_if false s = s

  -- `onClose`, which removes all listeners
  abbrev pub close_server : ServerNet C → ServerNet C
  close_server s = record s { net = on_close s.net; listening = false }

  abbrev pub reject_if : Bool → ServerNet C → ServerNet C
  reject_if true s = settle_handshake (err disconnected_in_handshake) s
  reject_if false s = s

  -- `if (serverNet.socket && serverNet.isOpen) serverNet.socket.end()`
  abbrev pub end_if_open : Bool → ServerNet C → ServerNet C
  end_if_open true s = with_net (end_socket s.net) s
  end_if_open false s = s

  -- the end of `init` and of the server's callback
  abbrev pub go_on : Option (Result (Unit {0})) → Bool → ServerNet C → ServerNet C
  go_on none resumed s = s
  go_on (some r) true s = s
  go_on (some (ok done)) false s = record s {
    net = on_open true s.net;
    resumed = true;
    serving = true;
  }
  go_on (some (err e)) false s = end_if_open (s.net).socket (record s { resumed = true })

  abbrev pub then_go_on : ServerNet C → ServerNet C
  then_go_on s = go_on s.settled s.resumed s

module _ {C : Type 0} (k : RpcCodec Greeting C) where
  -- the constructor and the first part of `init`
  unfoldable pub init : Net Greeting C → ServerNet C
  init net = record {
    net = set_socket k net;
    waiting = true;
    listening = true;
    settled = none;
    resumed = false;
    serving = false;
  }

  -- the response, whose promise nobody awaits
  abbrev pub respond : Option Error → Result (Unit {0}) × Net Greeting C → ServerNet C → ServerNet C
  respond refusal (err e, net) s = s
  respond refusal (ok done, net) s =
      settle_handshake (ok tt) (with_net (send k refusal handshake_answer net).1 s)

  -- by `rpc.req!.peer_type`; without it an assertion throws
  abbrev pub accept_type : Option Error → Option (Option PeerType) → ServerNet C → ServerNet C
  accept_type refusal none s = s
  accept_type refusal (some none) s = s
  accept_type refusal (some (some t)) s = respond refusal (set_peer_type t s.net) s

  abbrev pub check_type : Option Error → Bool → Greeting → ServerNet C → ServerNet C
  check_type refusal false rpc s = settle_handshake (err not_a_handshake) s
  check_type refusal true rpc s = accept_type refusal rpc.req s

  abbrev pub check_id : Option Error → Bool → Greeting → ServerNet C → ServerNet C
  check_id refusal false rpc s = settle_handshake (err invalid_handshake_id) s
  check_id refusal true rpc s = check_type refusal rpc.is_handshake rpc s

  -- the listener of the first message
  abbrev pub hear_if : Bool → Option Error → Greeting → ServerNet C → ServerNet C
  hear_if false refusal rpc s = s
  hear_if true refusal rpc s = check_id refusal (eqb rpc.id 0) rpc (record s { listening = false })

  unfoldable pub hear_all : Option Error → List Greeting → ServerNet C → ServerNet C
  hear_all refusal [] s = s
  hear_all refusal (rpc ∷ rpcs) s = hear_all refusal rpcs (hear_if s.listening refusal rpc s)

  unfoldable pub on_event : ServerEvent → ServerNet C → ServerNet C
  on_event (messages refusal rpcs) s = hear_all refusal rpcs s
  on_event times_out s = time_out_if s.waiting s
  on_event closes s = reject_if s.waiting (close_server s)

  unfoldable pub server_run : List ServerEvent → ServerNet C → ServerNet C
  server_run [] s = s
  server_run (e ∷ es) s = server_run es (then_go_on (on_event e s))
