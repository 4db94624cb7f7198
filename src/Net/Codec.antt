-- ===== src/Net/Codec.antt =====
-- What src/lib/net/net.ts relies on of the codec of godcoin-neon.
use godcoin_js_legacy.Prelude.{
  ◌<◌, ◌≡◌, ◌⊎◌, inl, inr, refl, sym, ap, ◌∙◌, List, [], ◌∷◌, ◌++◌, none, some, Bytes, arith,
  length,
}
use mathlib.Core.List.{append_assoc}
use godcoin_js_legacy.Net.Socket.{RpcCodec}

-- two ways to cut one list in two
abbrev pub Cut : {A : Type 0} → List A → List A → List A → List A → Type 0
Cut ls rs xs ys =
    ((mid : List _) × (ls ≡ xs ++ mid) × (ys ≡ mid ++ rs))
    ⊎ ((mid : List _) × (0 < length mid) × (xs ≡ ls ++ mid) × (rs ≡ mid ++ ys))

abbrev head_or : {A : Type 0} → A → List A → A
head_or a [] = a
head_or a (x ∷ xs) = x

abbrev tail_of : {A : Type 0} → List A → List A
tail_of [] = []
tail_of (x ∷ xs) = xs

Cut-cons :
    {A : Type 0} (a x : A) (ls rs xs ys : List A)
    → a ≡ x
    → Cut ls rs xs ys
    → Cut (a ∷ ls) rs (x ∷ xs) ys
Cut-cons a x ls rs xs ys e (inl (mid, e1, e2)) = inl (mid, cc (e, e1), e2)
Cut-cons a x ls rs xs ys e (inr (mid, l, e1, e2)) = inr (mid, l, cc (e, e1), e2)

pub append-Cut : {A : Type 0} (ls rs xs ys : List A) → ls ++ rs ≡ xs ++ ys → Cut ls rs xs ys
append-Cut ls rs [] ys e = inl (ls, refl, sym e)
append-Cut [] rs (x ∷ xs) ys e = inr (x ∷ xs, ground arith, refl, e)
append-Cut (a ∷ ls) rs (x ∷ xs) ys e =
    Cut-cons a x ls rs xs ys (ap (head_or a) e) (append-Cut ls rs xs ys (ap tail_of e))

-- What the source relies on of the codec. `pending` is what it holds of the bytes that it was given: a
-- message comes out of `decode` once all of its bytes are there, and no sooner.
pub record CodecLaws {M C : Type 0} (k : RpcCodec M C) : Type 0 where
  pub pending : C → Bytes
  pub pending_new : pending k.new_codec ≡ []
  pub pending_update : (b : Bytes) (c : C) → pending (k.update b c) ≡ pending c ++ b
  pub encode_size : (m : M) → 0 < length (k.encode m)
  pub decode_whole :
      (m : M) (c : C) (rest : Bytes)
      → pending c ≡ k.encode m ++ rest
      → ((k.decode c).0 ≡ some m) × (pending (k.decode c).1 ≡ rest)
  pub decode_part :
      (m : M) (c : C) (rest : Bytes)
      → k.encode m ≡ pending c ++ rest
      → 0 < length rest
      → ((k.decode c).0 ≡ none) × (pending (k.decode c).1 ≡ pending c)
  pub decode_nothing :
      (c : C) → pending c ≡ [] → ((k.decode c).0 ≡ none) × (pending (k.decode c).1 ≡ [])

module _ {M C : Type 0} (k : RpcCodec M C) where
  -- the bytes of messages that are sent one after another
  abbrev pub encode_all : List M → Bytes
  encode_all [] = []
  encode_all (m ∷ ms) = k.encode m ++ encode_all ms

  -- bytes that are not yet the whole of the next message
  abbrev pub IsPart : List M → Bytes → Type 0
  IsPart [] part = part ≡ []
  IsPart (m ∷ ms) part = length part < length (k.encode m)

  pub encode_all-append : (xs ys : List M) → encode_all (xs ++ ys) ≡ encode_all xs ++ encode_all ys
  encode_all-append [] ys = refl
  encode_all-append (x ∷ xs) ys =
      ap (λ t. k.encode x ++ t) (encode_all-append xs ys)
      ∙ sym (append_assoc (k.encode x) (encode_all xs) (encode_all ys))

abbrev pub concat : List Bytes → Bytes
concat [] = []
concat (b ∷ bs) = b ++ concat bs
