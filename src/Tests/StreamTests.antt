-- ===== src/Tests/StreamTests.antt =====
-- Messages that arrive in pieces, with a codec that writes the length of a message before it.
use godcoin_js_legacy.Prelude.{
  ℕ, suc, ◌<◌, ◌≡◌, refl, ap, ◌∙◌, List, [], ◌∷◌, ◌++◌, Bool, true, false, Option, none, some,
  arith, Bytes, length, length-append, take, drop, take-append, drop-append, leb,
}
use mathlib.Core.Option.{map}
use godcoin_js_legacy.Net.Socket.{
  RpcCodec, Net, set_socket, send, send_all, decode_all, on_data, receive,
}
use godcoin_js_legacy.Net.Codec.{CodecLaws}
use godcoin_js_legacy.Net.Stream.{Arrived, receive-send_all}

abbrev split_if : Bool → ℕ → Bytes → Option Bytes × Bytes
split_if true len bytes = (some (take len bytes), drop len bytes)
split_if false len bytes = (none, len ∷ bytes)

abbrev split : Bytes → Option Bytes × Bytes
split [] = (none, [])
split (len ∷ bytes) = split_if (leb len (length bytes)) len bytes

abbrev codec : RpcCodec Bytes Bytes
codec = record {
  new_codec = [];
  encode = λ m. length m ∷ m;
  update = λ b held. held ++ b;
  decode = split;
}

split-whole :
    (m held rest : Bytes)
    → held ≡ length m ∷ (m ++ rest)
    → ((split held).0 ≡ some m) × ((split held).1 ≡ rest)
split-whole m held rest e =
    let fits : leb (length m) (length (m ++ rest)) ≡ true = ground (arith, length-append m rest) in
    let both : split held ≡ (some m, rest) =
      ap split e
      ∙ ap (λ b. split_if b (length m) (m ++ rest)) fits
      ∙ rw (take-append m rest, drop-append m rest) refl in
    (ap (λ x. x.0) both, ap (λ x. x.1) both)

split-part :
    (m held rest : Bytes)
    → length m ∷ m ≡ held ++ rest
    → 0 < length rest
    → ((split held).0 ≡ none) × ((split held).1 ≡ held)
split-part m [] rest e some_left = (refl, refl)
split-part m (len ∷ held) rest e some_left =
    let size : suc (length m) ≡ suc (length (held ++ rest)) = ap length e in
    let len_is : length m ≡ len = ap (λ (b : Bytes). elim b [ [] ↦ 0 | x ∷ xs ↦ x ]) e in
    let short : leb len (length held) ≡ false =
      ground (arith, size, len_is, length-append held rest) in
    let both : split (len ∷ held) ≡ (none, len ∷ held) = ap (λ b. split_if b len held) short in
    (ap (λ x. x.0) both, ap (λ x. x.1) both)

codec_laws : CodecLaws codec
codec_laws = record {
  pending = λ held. held;
  pending_new = refl;
  pending_update = λ b held. refl;
  encode_size = λ m. ground arith;
  decode_whole = split-whole;
  decode_part = split-part;
  decode_nothing = λ held e. (ap (λ b. (split b).0) e, ap (λ b. (split b).1) e);
}

abbrev fresh : Net Bytes Bytes
fresh = record {
  peer_type = none;
  socket = false;
  codec = none;
  written = [];
  ended = false;
  messages = [];
  events = [];
}

-- two messages whose bytes come in three pieces, the last byte later
abbrev sent : List Bytes
sent = (7 ∷ 8 ∷ []) ∷ (9 ∷ []) ∷ []

abbrev pieces : List Bytes
pieces = (2 ∷ []) ∷ (7 ∷ 8 ∷ []) ∷ (1 ∷ []) ∷ []

abbrev last_piece : Bytes
last_piece = 9 ∷ []

pieces_of : 2 ∷ 7 ∷ 8 ∷ 1 ∷ 9 ∷ [] ≡ (send_all codec sent (set_socket codec fresh)).written
unfolding send_all send set_socket
pieces_of = refl

receive-send_all_example :
    Arrived codec codec_laws sent
      (2 ∷ 7 ∷ 8 ∷ 1 ∷ [])
      []
      (receive codec 9 pieces (set_socket codec fresh))
receive-send_all_example =
    receive-send_all codec codec_laws 9 sent pieces last_piece fresh fresh pieces_of (omega arith)

first_message :
    map (λ (net : Net Bytes Bytes). net.messages) (receive codec 9 pieces (set_socket codec fresh))
    ≡ some ((7 ∷ 8 ∷ []) ∷ [])
unfolding receive on_data decode_all set_socket
first_message = refl
