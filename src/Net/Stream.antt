-- ===== src/Net/Stream.antt =====
-- What `onData` of src/lib/net/net.ts makes of a stream of bytes, however it is cut into pieces.
use godcoin_js_legacy.Prelude.{
  ℕ, ◌+◌, ◌<◌, ◌≡◌, refl, sym, ap, ◌∙◌, List, [], ◌∷◌, ◌++◌, Option, none, some, Bytes, true, arith,
  length, length-append,
}
use mathlib.Core.Option.{map}
use mathlib.Core.List.{append_assoc, append-nil, append_cancel_left}
use mathlib.Core.Path.{subst}
use godcoin_js_legacy.Net.Socket.{
  RpcCodec, Net, decode_all, data_to, on_data, receive_then, receive, send, send_if, send_all,
  set_socket,
}
use godcoin_js_legacy.Net.Codec.{CodecLaws, encode_all, IsPart, encode_all-append, concat}
use godcoin_js_legacy.Net.Decoding.{Decoded, decode_all-Decoded}

module _ {M C : Type 0} (k : RpcCodec M C) (laws : CodecLaws k) where
  -- What has arrived of `ms` once the bytes `got` have: the messages that are complete were emitted, in
  -- order, and the codec holds the part of the next one.
  pub record Arrived (ms : List M) (got : Bytes) (before : List M) (o : Option (Net M C))
      : Type 0 where
    pub net : Net M C
    pub done : List M
    pub later : List M
    pub held : Bytes
    pub result : o ≡ some net
    pub all : ms ≡ done ++ later
    pub complete : got ≡ encode_all k done ++ held
    pub part : IsPart k later held
    pub emitted : net.messages ≡ before ++ done

  -- a piece of data, then the others
  piece-Arrived :
      (fuel : ℕ) (b : Bytes) (todo : List M) (c : C) (net : Net M C) (got : Bytes)
      (rest : Net M C → Option (Net M C))
      → net.codec ≡ some c
      → (d : Decoded k laws todo (laws.pending (k.update b c)) (decode_all k fuel (k.update b c)))
      → Arrived d.later
          (laws.pending d.codec ++ got)
          (net.messages ++ d.done)
          (rest (record net { codec = some d.codec; messages = net.messages ++ d.done }))
      → Arrived todo
          (laws.pending c ++ (b ++ got))
          net.messages
          (receive_then (on_data k fuel b net) rest)
  unfolding on_data
  piece-Arrived fuel b todo c net got rest has d after = record {
    net = after.net;
    done = d.done ++ after.done;
    later = after.later;
    held = after.held;
    result =
        ap (λ (o : Option C). receive_then (data_to k fuel b o net) rest) has
        ∙ ap
            (λ (o : Option (List M × C)).
              receive_then
                (map (λ r. record net { codec = some r.1; messages = net.messages ++ r.0 }) o) rest)
            d.result
        ∙ after.result;
    all =
        d.all ∙ ap (λ t. d.done ++ t) after.all ∙ sym (append_assoc d.done after.done after.later);
    complete =
        sym (append_assoc (laws.pending c) b got)
        ∙ ap (λ t. t ++ got) (sym (laws.pending_update b c) ∙ d.held)
        ∙ append_assoc (encode_all k d.done) (laws.pending d.codec) got
        ∙ ap (λ t. encode_all k d.done ++ t) after.complete
        ∙ sym (append_assoc (encode_all k d.done) (encode_all k after.done) after.held)
        ∙ ap (λ t. t ++ after.held) (sym (encode_all-append k d.done after.done));
    part = after.part;
    emitted = after.emitted ∙ append_assoc net.messages d.done after.done;
  }

  receive-Arrived :
      (fuel : ℕ) (chunks : List Bytes) (rest : Bytes) (todo : List M) (c : C) (net : Net M C)
      → net.codec ≡ some c
      → laws.pending c ++ (concat chunks ++ rest) ≡ encode_all k todo
      → length (laws.pending c ++ concat chunks) < fuel
      → IsPart k todo (laws.pending c)
      → Arrived todo (laws.pending c ++ concat chunks) net.messages (receive k fuel chunks net)
  unfolding receive
  receive-Arrived fuel [] rest todo c net has e f part = record {
    net = net;
    done = [];
    later = todo;
    held = laws.pending c;
    result = refl;
    all = refl;
    complete = append-nil (laws.pending c);
    part = part;
    emitted = sym (append-nil net.messages);
  }
  receive-Arrived fuel (b ∷ chunks) rest todo c net has e f part =
      let c' = k.update b c in
      let more = concat chunks ++ rest in
      let fed = laws.pending_update b c in
      let here : laws.pending c' ++ more ≡ encode_all k todo =
        ap (λ t. t ++ more) fed
        ∙ append_assoc (laws.pending c) b more
        ∙ ap (λ t. laws.pending c ++ t) (sym (append_assoc b (concat chunks) rest))
        ∙ e in
      let room : length (laws.pending c') + length (concat chunks) < fuel = omega (
        arith,
        f,
        ap length fed,
        length-append (laws.pending c) b,
        length-append (laws.pending c) (b ++ concat chunks),
        length-append b (concat chunks),
      ) in
      let d = decode_all-Decoded k laws fuel todo c' more here (omega (arith, room)) in
      let ahead : laws.pending d.codec ++ more ≡ encode_all k d.later =
        append_cancel_left (encode_all k d.done) (laws.pending d.codec ++ more)
          (encode_all k d.later)
          (sym (append_assoc (encode_all k d.done) (laws.pending d.codec) more)
            ∙ ap (λ t. t ++ more) (sym d.held)
            ∙ here
            ∙ ap (encode_all k) d.all
            ∙ encode_all-append k d.done d.later) in
      piece-Arrived fuel b todo c net (concat chunks) (receive k fuel chunks) has d (
        receive-Arrived fuel chunks rest d.later d.codec
          (record net { codec = some d.codec; messages = net.messages ++ d.done }) refl ahead
          (omega (
            arith,
            room,
            ap length d.held,
            length-append (encode_all k d.done) (laws.pending d.codec),
            length-append (laws.pending d.codec) (concat chunks),
          ))
          d.part)

module _ {M C : Type 0} (k : RpcCodec M C) where
  nothing-IsPart : CodecLaws k → (ms : List M) → IsPart k ms []
  nothing-IsPart laws [] = refl
  nothing-IsPart laws (m ∷ ms) = laws.encode_size m

  send_all-written :
      (ms : List M) (net : Net M C)
      → net.socket ≡ true
      → (send_all k ms net).written ≡ net.written ++ encode_all k ms
  unfolding send_all send
  send_all-written [] net opened = sym (append-nil net.written)
  send_all-written (m ∷ ms) net opened =
      let once = ap (λ b. (send_if k b none m net).1) opened in
      ap (λ (x : Net M C). (send_all k ms x).written) once
      ∙ send_all-written ms (record net { written = net.written ++ k.encode m }) opened
      ∙ append_assoc net.written (k.encode m) (encode_all k ms)

  -- Whatever the pieces in which the bytes that one side sends reach the other: as far as they have come,
  -- the messages that are there in full are emitted, each once and in the order in which they were sent,
  -- and what the codec still holds is less than the next message; the loop ends.
  pub receive-send_all :
      (laws : CodecLaws k) (fuel : ℕ) (ms : List M) (chunks : List Bytes) (rest : Bytes)
      (sender receiver : Net M C)
      → concat chunks ++ rest ≡ (send_all k ms (set_socket k sender)).written
      → length (concat chunks) < fuel
      → Arrived k laws ms
          (concat chunks)
          receiver.messages
          (receive k fuel chunks (set_socket k receiver))
  unfolding set_socket
  receive-send_all laws fuel ms chunks rest sender receiver sent f =
      let e = sent ∙ send_all-written ms (set_socket k sender) refl in
      let none_held = laws.pending_new in
      subst
        (λ b.
          Arrived k laws ms (b ++ concat chunks) receiver.messages
            (receive k fuel chunks (set_socket k receiver)))
        none_held
        (receive-Arrived k laws fuel chunks rest ms k.new_codec (set_socket k receiver) refl
          (ap (λ b. b ++ (concat chunks ++ rest)) none_held ∙ e)
          (subst (λ b. length (b ++ concat chunks) < fuel) (sym none_held) f)
          (subst (IsPart k ms) (sym none_held) (nothing-IsPart laws ms)))
