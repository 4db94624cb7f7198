-- ===== src/Blockchain/Views.antt =====
-- The balance of a key as a block indexer sees it, and what each of its steps does to it.
use godcoin_js_legacy.Prelude.{
  ◌≡◌, refl, sym, ap, ◌∙◌, false, Option, none, some, arith, Result, ok, err, lookup, lookup-insert,
  bytes_eq, bytes_equal, bytes_equal_iff, Bool-cases, inl, inr, if_false, lookup-insert_self,
}
use mathlib.Core.Path.{subst}
use godcoin_js_legacy.Neon.{Neon, Asset, PublicKey}
use godcoin_js_legacy.Packages.{Level, Packages}
use godcoin_js_legacy.Assets.{Balance}
use godcoin_js_legacy.Indexer.{Index}
use godcoin_js_legacy.Indexer.BlockIndexer.{
  Session, put_bal, keep_bal, get_bal, apply_op, store_bal, update_bal, store_supply, update_supply,
}

module _ {Db : Type 0} ⦃n : Neon⦄ ⦃p : Packages⦄ ⦃l : Level Db⦄
    (cmcb : Index Db → PublicKey → Result Balance) where
  abbrev pub or_missed : Result Balance → Option Balance → Result Balance
  or_missed missed none = missed
  or_missed missed (some bal) = ok bal

  -- the balance in the map, or what `cmcb` finds
  abbrev pub view : PublicKey → Session Db → Result Balance
  view key s = or_missed (cmcb s.index key) (lookup key.buffer s.indexer.map)

  view-put_bal_self :
      (key : PublicKey) (bal : Balance) (s : Session Db) → view key (put_bal key bal s) ≡ ok bal
  view-put_bal_self key bal s =
      ap (or_missed (cmcb s.index key)) (lookup-insert_self key.buffer bal s.indexer.map)

  view-put_bal_apart :
      (key j : PublicKey) (bal : Balance) (s : Session Db)
      → bytes_equal key.buffer j.buffer ≡ false
      → view j (put_bal key bal s) ≡ view j s
  view-put_bal_apart key j bal s differ =
      ap (or_missed (cmcb s.index j))
        (lookup-insert key.buffer j.buffer bal s.indexer.map ∙ if_false _ _ differ)

  -- An entry that repeats what is seen changes no view.
  view-put_bal_same :
      (key : PublicKey) (bal : Balance) (s : Session Db)
      → view key s ≡ ok bal
      → (j : PublicKey) → view j (put_bal key bal s) ≡ view j s
  view-put_bal_same key bal s seen j = elim (Bool-cases (bytes_equal key.buffer j.buffer)) [
    | inr differ ↦ view-put_bal_apart key j bal s differ
    | inl same ↦
        let one : key ≡ j = ap (λ b. record { buffer = b }) ((bytes_equal_iff _ _).0 same) in
        subst (λ k. view k (put_bal key bal s) ≡ view k s) one
          (view-put_bal_self key bal s ∙ sym seen)
  ]

  view-keep_bal :
      (key : PublicKey) (s t : Session Db) (o : Option Balance) (missed : Result Balance)
      → lookup key.buffer s.indexer.map ≡ o
      → cmcb s.index key ≡ missed
      → keep_bal o missed key s ≡ (ok tt, t)
      → (j : PublicKey) → view j t ≡ view j s
  view-keep_bal key s t (some held) missed found asked h j = ap (λ x. view j x.1) (sym h)
  view-keep_bal key s t none (err e) found asked h j = absurd (ground (arith, h))
  view-keep_bal key s t none (ok bal) found asked h j =
      ap (λ x. view j x.1) (sym h)
      ∙ view-put_bal_same key bal s (ap (or_missed (cmcb s.index key)) found ∙ asked) j

  -- `getBal` changes no view.
  pub view-get_bal :
      (key : PublicKey) (s t : Session Db)
      → get_bal cmcb key s ≡ (ok tt, t)
      → (j : PublicKey) → view j t ≡ view j s
  unfolding get_bal
  view-get_bal key s t h = view-keep_bal key s t _ _ refl refl h

  -- the new balance of the key, and that the others stay
  pub record Updates (key : PublicKey) (op : Balance → Result Balance) (s t : Session Db)
      : Type 0 where
    pub before : Balance
    pub after : Balance
    pub was : view key s ≡ ok before
    pub becomes : op before ≡ ok after
    pub now : view key t ≡ ok after
    pub others : (j : PublicKey) → bytes_equal key.buffer j.buffer ≡ false → view j t ≡ view j s

  updated :
      (key : PublicKey) (op : Balance → Asset → Result Balance) (asset : Asset) (s t : Session Db)
      (o : Option Balance) (r : Result Balance)
      → lookup key.buffer s.indexer.map ≡ o
      → apply_op op o asset ≡ r
      → store_bal r key s ≡ (ok tt, t)
      → Updates key (λ bal. op bal asset) s t
  updated key op asset s t o (err e) found made h = absurd (ground (arith, h))
  updated key op asset s t none (ok bal) found made h = absurd (ground (arith, made))
  updated key op asset s t (some held) (ok bal) found made h = record {
    before = held;
    after = bal;
    was = ap (or_missed (cmcb s.index key)) found;
    becomes = made;
    now = ap (λ x. view key x.1) (sym h) ∙ view-put_bal_self key bal s;
    others = λ j differ. ap (λ x. view j x.1) (sym h) ∙ view-put_bal_apart key j bal s differ;
  }

  pub update_bal-Updates :
      (key : PublicKey) (op : Balance → Asset → Result Balance) (asset : Asset) (s t : Session Db)
      → update_bal key op asset s ≡ (ok tt, t)
      → Updates key (λ bal. op bal asset) s t
  unfolding update_bal
  update_bal-Updates key op asset s t h = updated key op asset s t _ _ refl refl h

  view-store_supply :
      (r : Result Balance) (s t : Session Db)
      → store_supply r s ≡ (ok tt, t)
      → (j : PublicKey) → view j t ≡ view j s
  view-store_supply (err e) s t h j = absurd (ground (arith, h))
  view-store_supply (ok supply') s t h j = ap (λ x. view j x.1) (sym h)

  pub view-update_supply :
      (op : Balance → Asset → Result Balance) (asset : Asset) (s t : Session Db)
      → update_supply op asset s ≡ (ok tt, t)
      → (j : PublicKey) → view j t ≡ view j s
  unfolding update_supply
  view-update_supply op asset s t h j = view-store_supply _ s t h j
