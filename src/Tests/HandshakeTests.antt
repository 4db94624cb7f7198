-- ===== src/Tests/HandshakeTests.antt =====
-- A connection whose first message is a handshake, and one whose first message comes too late.
use godcoin_js_legacy.Prelude.{refl, [], ◌∷◌, true, false, none, some, ok}
use godcoin_js_legacy.Net.Payload.{node}
use godcoin_js_legacy.Net.Socket.{RpcCodec, Net}
use godcoin_js_legacy.Net.Handshake.{Greeting, messages, times_out, closes, init, server_run}
use godcoin_js_legacy.Net.Verdict.{IsAt}
use godcoin_js_legacy.Net.Greeted.{server_run-verdict}

abbrev codec : RpcCodec Greeting (Unit {0})
codec = record {
  new_codec = tt;
  encode = λ m. m.id ∷ [];
  update = λ b c. c;
  decode = λ c. (none, c);
}

abbrev fresh : Net Greeting (Unit {0})
fresh = record {
  peer_type = none;
  socket = false;
  codec = none;
  written = [];
  ended = false;
  messages = [];
  events = [];
}

abbrev hello : Greeting
hello = record { id = 0; is_handshake = true; req = some (some node) }

abbrev untyped : Greeting
untyped = record { id = 0; is_handshake = true; req = some none }

server_run-verdict_example : IsAt (some (ok node)) true (
    server_run codec
      (messages none (hello ∷ untyped ∷ []) ∷ times_out ∷ closes ∷ [])
      (init codec fresh))
server_run-verdict_example =
    server_run-verdict codec (messages none (hello ∷ untyped ∷ []) ∷ times_out ∷ closes ∷ []) fresh
      refl refl
