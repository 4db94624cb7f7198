-- ===== src/Net/Socket.antt =====
-- The class `Net` of src/lib/net/net.ts, on the codec of godcoin-neon and on Node's sockets. What it emits
-- is kept in the order in which it is emitted; the bytes it writes are those of the present socket.
use godcoin_js_legacy.Prelude.{
  ℕ, zero, suc, List, [], ◌∷◌, ◌++◌, Bool, true, false, Option, none, some, Bytes, Error, Result,
  ok, err, disconnected, peer_type_set,
}
use mathlib.Core.Option.{map}
use godcoin_js_legacy.Net.Payload.{PeerType}

-- `RpcCodec`, for messages `M`; `C` is what a codec holds between two calls
pub record RpcCodec (M C : Type 0) : Type 0 where
  pub new_codec : C
  pub encode : M → Bytes
  pub update : Bytes → C → C
  pub decode : C → Option M × C

pub data NetEvent : Type 0 where
  open_event close_event : NetEvent

-- `ended` says that `end` was called on the socket
pub record Net (M C : Type 0) : Type 0 where
  pub peer_type : Option PeerType
  pub socket : Bool
  pub codec : Option C
  pub written : Bytes
  pub ended : Bool
  pub messages : List M
  pub events : List NetEvent

module _ {M C : Type 0} where
  abbrev pub is_open : Net M C → Bool
  is_open net = net.socket

  -- `set peerType`
  abbrev pub type_once : Option PeerType → PeerType → Net M C → Result (Unit {0}) × Net M C
  type_once (some u) t net = (err peer_type_set, net)
  type_once none t net = (ok tt, record net { peer_type = some t })

  unfoldable pub set_peer_type : PeerType → Net M C → Result (Unit {0}) × Net M C
  set_peer_type t net = type_once net.peer_type t net

  abbrev pub end_socket : Net M C → Net M C
  end_socket net = record net { ended = true }

  -- `set socket` of `undefined`, by whether there is a socket
  abbrev pub end_if : Bool → Net M C → Net M C
  end_if true net = end_socket net
  end_if false net = net

  unfoldable pub drop_socket : Net M C → Net M C
  drop_socket net = record (end_if net.socket net) { socket = false }

  unfoldable pub emit_event : NetEvent → Net M C → Net M C
  emit_event e net = record net { events = net.events ++ e ∷ [] }

  -- `onOpen`
  abbrev pub open_as : Option PeerType → Bool → Net M C → Net M C
  open_as none false net = end_socket net
  open_as none true net = emit_event open_event net
  open_as (some t) server_side net = emit_event open_event net

  unfoldable pub on_open : Bool → Net M C → Net M C
  on_open server_side net = open_as net.peer_type server_side net

  -- `onClose`
  unfoldable pub on_close : Net M C → Net M C
  on_close net = emit_event close_event (drop_socket net)

  -- what follows a piece of data
  abbrev pub receive_then : Option (Net M C) → (Net M C → Option (Net M C)) → Option (Net M C)
  receive_then none rest = none
  receive_then (some net) rest = rest net

module _ {M C : Type 0} (k : RpcCodec M C) where
  -- `set socket` of a socket
  unfoldable pub set_socket : Net M C → Net M C
  set_socket net = record net {
    codec = some k.new_codec;
    socket = true;
    written = [];
    ended = false;
  }

  -- the callback of `write`, which is given the error if the socket refuses the bytes
  abbrev pub write_done : Option Error → Bytes → Net M C → Result (Unit {0}) × Net M C
  write_done (some e) buf net = (err e, net)
  write_done none buf net = (ok tt, record net { written = net.written ++ buf })

  abbrev pub send_if : Bool → Option Error → M → Net M C → Result (Unit {0}) × Net M C
  send_if false refusal rpc net = (err disconnected, net)
  send_if true refusal rpc net = write_done refusal (k.encode rpc) net

  unfoldable pub send : Option Error → M → Net M C → Result (Unit {0}) × Net M C
  send refusal rpc net = send_if (is_open net) refusal rpc net

  abbrev pub decode_next : Option M × C → (C → Option (List M × C)) → Option (List M × C)
  decode_next (none, c) rest = some ([], c)
  decode_next (some m, c) rest = map (λ r. (m ∷ r.0, r.1)) (rest c)

  -- the loop of `onData`: the payloads that are emitted and the codec afterwards
  unfoldable pub decode_all : ℕ → C → Option (List M × C)
  decode_all zero c = none
  decode_all (suc fuel) c = decode_next (k.decode c) (decode_all fuel)

  -- without a codec, `update` throws
  abbrev pub data_to : ℕ → Bytes → Option C → Net M C → Option (Net M C)
  data_to fuel bytes none net = some net
  data_to fuel bytes (some c) net =
      map (λ r. record net { codec = some r.1; messages = net.messages ++ r.0 })
        (decode_all fuel (k.update bytes c))

  unfoldable pub on_data : ℕ → Bytes → Net M C → Option (Net M C)
  on_data fuel bytes net = data_to fuel bytes net.codec net

  -- pieces of data, one after another
  unfoldable pub receive : ℕ → List Bytes → Net M C → Option (Net M C)
  receive fuel [] net = some net
  receive fuel (bytes ∷ chunks) net = receive_then (on_data fuel bytes net) (receive fuel chunks)

  -- what `socket.write` was given for messages sent one after another
  unfoldable pub send_all : List M → Net M C → Net M C
  send_all [] net = net
  send_all (m ∷ ms) net = send_all ms (send none m net).1
