-- ===== src/Blockchain/Updates.antt =====
-- Steps of a block indexer that update the balance of one key, put together.
use godcoin_js_legacy.Prelude.{
  ◌≡◌, sym, ap, ◌∙◌, Bool, true, false, arith, Result, ok, bytes_equal, bytes_equal_iff, Bool-cases,
  inl, inr, ◌>>=◌, bytes_eq,
}
use mathlib.Core.Path.{subst}
use godcoin_js_legacy.Neon.{Neon, PublicKey}
use godcoin_js_legacy.Neon.Laws.{NeonLaws}
use godcoin_js_legacy.Packages.{Level, Packages}
use godcoin_js_legacy.Assets.{Balance}
use godcoin_js_legacy.Indexer.{Index}
use godcoin_js_legacy.Indexer.BlockIndexer.{Session}
use godcoin_js_legacy.Blockchain.Views.{view, Updates}

module _ {Db : Type 0} ⦃n : Neon⦄ ⦃p : Packages⦄ ⦃l : Level Db⦄ (nl : NeonLaws n)
    (cmcb : Index Db → PublicKey → Result Balance) where
  abbrev pub Same : Session Db → Session Db → Type 0
  Same s t = (j : PublicKey) → view cmcb j t ≡ view cmcb j s

  pub Updates-after :
      (key : PublicKey) (op : Balance → Result Balance) (r s t : Session Db)
      → Same r s
      → Updates cmcb key op s t
      → Updates cmcb key op r t
  Updates-after key op r s t same u = record {
    before = u.before;
    after = u.after;
    was = sym (same key) ∙ u.was;
    becomes = u.becomes;
    now = u.now;
    others = λ j differ. u.others j differ ∙ same j;
  }

  pub Updates-before :
      (key : PublicKey) (op : Balance → Result Balance) (s t u : Session Db)
      → Updates cmcb key op s t
      → Same t u
      → Updates cmcb key op s u
  Updates-before key op s t u up same = record {
    before = up.before;
    after = up.after;
    was = up.was;
    becomes = up.becomes;
    now = same key ∙ up.now;
    others = λ j differ. same j ∙ up.others j differ;
  }

  pub ok_injective : {a b : Balance} → ok a ≡ ok b → a ≡ b
  ok_injective e = ground (arith, e)

  pub Updates-chain :
      (key : PublicKey) (f g : Balance → Result Balance) (s t u : Session Db)
      → Updates cmcb key f s t
      → Updates cmcb key g t u
      → Updates cmcb key (λ b. f b >>= g) s u
  Updates-chain key f g s t u first second = record {
    before = first.before;
    after = second.after;
    was = first.was;
    becomes =
        ap (λ r. r >>= g) first.becomes
        ∙ ap g (ok_injective (sym first.now ∙ second.was))
        ∙ second.becomes;
    now = second.now;
    others = λ j differ. second.others j differ ∙ first.others j differ;
  }

  -- the operation on the balance of its key
  pub advance :
      (key : PublicKey) (op : Balance → Result Balance) (s t : Session Db) (b : Balance)
      → Updates cmcb key op s t
      → view cmcb key s ≡ ok b
      → op b ≡ view cmcb key t
  advance key op s t b u seen = ap op (ok_injective (sym seen ∙ u.was)) ∙ u.becomes ∙ sym u.now

  pub key_differs :
      (key a : PublicKey) → n.key_equals key a ≡ false → bytes_equal key.buffer a.buffer ≡ false
  key_differs key a h = elim (Bool-cases (bytes_equal key.buffer a.buffer)) [
    | inr differ ↦ differ
    | inl same ↦
        let one : key ≡ a = ap (λ b. record { buffer = b }) ((bytes_equal_iff _ _).0 same) in
        absurd (ground (arith, h, (nl.key_equals_iff key a).1 one))
  ]

  abbrev pub by_key : Bool → Result Balance → Result Balance → Result Balance
  by_key b x y = elim b [ true ↦ x | false ↦ y ]

  -- what an update is for any key
  pub at_key :
      (key : PublicKey) (op : Balance → Result Balance) (s t : Session Db)
      → Updates cmcb key op s t
      → (a : PublicKey) (b : Balance) → view cmcb a s ≡ ok b
      → by_key (n.key_equals key a) (op b) (ok b) ≡ view cmcb a t
  at_key key op s t u a b seen = elim (Bool-cases (n.key_equals key a)) [
    | inr differ ↦
        ap (λ c. by_key c (op b) (ok b)) differ ∙ sym (u.others a (key_differs key a differ) ∙ seen)
    | inl same ↦
        let one : key ≡ a = (nl.key_equals_iff key a).0 same in
        ap (λ c. by_key c (op b) (ok b)) same
        ∙ subst (λ k. op b ≡ view cmcb k t) one
            (advance key op s t b u (subst (λ k. view cmcb k s ≡ ok b) (sym one) seen))
  ]

  -- the two updates of a transfer, as the tests of `getBalance` on its two keys
  pub two_keys :
      (from to : PublicKey) (f g : Balance → Result Balance) (s u t : Session Db)
      → n.key_equals from to ≡ false
      → Updates cmcb from f s u
      → Updates cmcb to g u t
      → (a : PublicKey) (b : Balance) → view cmcb a s ≡ ok b
      → by_key (n.key_equals from a) (f b) (by_key (n.key_equals to a) (g b) (ok b)) ≡ view cmcb a t
  two_keys from to f g s u t between sent received a b seen =
      let other = by_key (n.key_equals to a) (g b) (ok b) in
      let first = at_key from f s u sent a b seen in
      elim (Bool-cases (n.key_equals from a)) [
        | inr differ ↦
            let still : view cmcb a u ≡ ok b = sym first ∙ ap (λ c. by_key c (f b) (ok b)) differ in
            ap (λ c. by_key c (f b) other) differ ∙ at_key to g u t received a b still
        | inl same ↦
            let one : from ≡ a = (nl.key_equals_iff from a).0 same in
            let away : n.key_equals to a ≡ false = elim (Bool-cases (n.key_equals to a)) [
              | inr differ ↦ differ
              | inl joined ↦ absurd (
                  ground (
                    arith,
                    between,
                    (nl.key_equals_iff from to).1 (one ∙ sym ((nl.key_equals_iff to a).0 joined)),
                  ))
            ] in
            ap (λ c. by_key c (f b) other) same
            ∙ sym (ap (λ c. by_key c (f b) (ok b)) same)
            ∙ first
            ∙ sym (received.others a (key_differs to a away))
      ]

  abbrev pub IsSeen : PublicKey → Session Db → Type 0
  IsSeen a s = (b : Balance) × (view cmcb a s ≡ ok b)

  pub Updates-IsSeen :
      (key : PublicKey) (op : Balance → Result Balance) (s t : Session Db)
      → Updates cmcb key op s t
      → (a : PublicKey) → IsSeen a s
      → IsSeen a t
  Updates-IsSeen key op s t u a (b, seen) = elim (Bool-cases (bytes_equal key.buffer a.buffer)) [
    | inr differ ↦ (b, u.others a differ ∙ seen)
    | inl same ↦
        let one : key ≡ a = ap (λ k. record { buffer = k }) ((bytes_equal_iff _ _).0 same) in
        (u.after, subst (λ k. view cmcb k t ≡ ok u.after) one u.now)
  ]
