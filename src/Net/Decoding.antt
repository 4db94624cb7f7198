-- ===== src/Net/Decoding.antt =====
-- The loop of `onData` in src/lib/net/net.ts on what the codec holds.
use godcoin_js_legacy.Prelude.{
  ℕ, zero, suc, ◌<◌, ◌≡◌, inl, inr, refl, sym, ap, ◌∙◌, List, [], ◌∷◌, ◌++◌, Option, none, some,
  Bytes, arith, length, length-append,
}
use mathlib.Core.Option.{map}
use mathlib.Core.List.{append_assoc, append-eq-nil_iff}
use mathlib.Core.Path.{subst}
use godcoin_js_legacy.Net.Socket.{RpcCodec, decode_next, decode_all}
use godcoin_js_legacy.Net.Codec.{Cut, append-Cut, CodecLaws, encode_all, IsPart}

module _ {M C : Type 0} (k : RpcCodec M C) (laws : CodecLaws k) where
  -- what the loop does to a codec that is given a part of `todo`
  pub record Decoded (todo : List M) (before : Bytes) (o : Option (List M × C)) : Type 0 where
    pub done : List M
    pub later : List M
    pub codec : C
    pub result : o ≡ some (done, codec)
    pub all : todo ≡ done ++ later
    pub held : before ≡ encode_all k done ++ laws.pending codec
    pub part : IsPart k later (laws.pending codec)

  no_message-Decoded :
      (todo : List M) (before : Bytes) (r : Option M × C) (rest : C → Option (List M × C))
      → r.0 ≡ none
      → laws.pending r.1 ≡ before
      → IsPart k todo before
      → Decoded todo before (decode_next k r rest)
  no_message-Decoded todo before (none, c) rest e same part = record {
    done = [];
    later = todo;
    codec = c;
    result = refl;
    all = refl;
    held = sym same;
    part = subst (IsPart k todo) (sym same) part;
  }
  no_message-Decoded todo before (some m, c) rest e same part = absurd (ground (arith, e))

  message-Decoded :
      (m : M) (ms : List M) (before after : Bytes) (r : Option M × C)
      (rest : C → Option (List M × C))
      → r.0 ≡ some m
      → before ≡ k.encode m ++ after
      → Decoded ms after (rest r.1)
      → Decoded (m ∷ ms) before (decode_next k r rest)
  message-Decoded m ms before after (none, c) rest e split d = absurd (ground (arith, e))
  message-Decoded m ms before after (some x, c) rest e split d = record {
    done = m ∷ d.done;
    later = d.later;
    codec = d.codec;
    result =
        ap (map (λ r. (x ∷ r.0, r.1))) d.result
        ∙ ap (λ o. some (elim o [ none ↦ m | some y ↦ y ] ∷ d.done, d.codec)) e;
    all = ap (λ t. m ∷ t) d.all;
    held = split ∙ ap (λ t. k.encode m ++ t) d.held ∙ sym (append_assoc (k.encode m) _ _);
    part = d.part;
  }

  -- the next message, with what the loop does after it
  next-Decoded :
      (fuel : ℕ) (m : M) (ms : List M) (c : C) (more : Bytes)
      → length (laws.pending c) < suc fuel
      → ((c' : C)
          → laws.pending c' ++ more ≡ encode_all k ms
          → length (laws.pending c') < fuel
          → Decoded ms (laws.pending c') (decode_all k fuel c'))
      → Cut (laws.pending c) more (k.encode m) (encode_all k ms)
      → Decoded (m ∷ ms) (laws.pending c) (decode_next k (k.decode c) (decode_all k fuel))
  next-Decoded fuel m ms c more f again (inl (mid, whole, later)) =
      let (out, left) = laws.decode_whole m c mid whole in
      let size = ap length whole ∙ length-append (k.encode m) mid in
      let short : length mid < fuel = omega (arith, f, size, laws.encode_size m) in
      message-Decoded m ms (laws.pending c) mid (k.decode c) (decode_all k fuel) out whole (
        subst (λ b. Decoded ms b (decode_all k fuel (k.decode c).1)) left
          (again (k.decode c).1 (ap (λ b. b ++ more) left ∙ sym later)
            (subst (λ b. length b < fuel) (sym left) short)))
  next-Decoded fuel m ms c more f again (inr (mid, some_left, whole, later)) =
      let (out, same) = laws.decode_part m c mid whole some_left in
      let size = ap length whole ∙ length-append (laws.pending c) mid in
      no_message-Decoded (m ∷ ms) (laws.pending c) (k.decode c) (decode_all k fuel) out same
        (omega (arith, size, some_left))

  pub decode_all-Decoded :
      (fuel : ℕ) (todo : List M) (c : C) (more : Bytes)
      → laws.pending c ++ more ≡ encode_all k todo
      → length (laws.pending c) < fuel
      → Decoded todo (laws.pending c) (decode_all k fuel c)
  unfolding decode_all
  decode_all-Decoded zero todo c more e f = absurd (omega arith)
  decode_all-Decoded (suc fuel) [] c more e f =
      let empty : laws.pending c ≡ [] = (append-eq-nil_iff.0 e).0 in
      let (out, same) = laws.decode_nothing c empty in
      no_message-Decoded [] (laws.pending c) (k.decode c) (decode_all k fuel) out (same ∙ sym empty)
        empty
  decode_all-Decoded (suc fuel) (m ∷ ms) c more e f =
      next-Decoded fuel m ms c more f (λ c' e' f'. decode_all-Decoded fuel ms c' more e' f')
        (append-Cut (laws.pending c) more (k.encode m) (encode_all k ms) e)
