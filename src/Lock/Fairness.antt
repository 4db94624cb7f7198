-- ===== src/Lock/Fairness.antt =====
-- Histories of calls on a lock.
use godcoin_js_legacy.Prelude.{
  ℕ, suc, ◌+◌, ◌≡◌, refl, sym, ap, ◌∙◌, List, [], ◌∷◌, ◌++◌, Bool, true, false, Option, none, some,
  arith, length, length-append,
}
use mathlib.Core.Path.{subst}
use mathlib.Core.List.{append_assoc, append-nil}
use godcoin_js_legacy.Lock.{Lock, unlocked, lock, unlock}

abbrev pub granted : {W : Type 0} → Option W → List W
granted none = []
granted (some w) = w ∷ []

-- A history of calls on one lock: those who asked for it and those to whom it was given, in order,
-- and how often it was given back. Only the holder gives it back.
pub data History {W : Type 0} : Lock W → List W → List W → ℕ → Type 0 where
  start : History unlocked [] [] 0
  ask :
      {l : Lock W} {asked given : List W} {returned : ℕ} (w : W)
      → History l asked given returned
      → History (lock w l).1 (asked ++ w ∷ []) (given ++ granted (lock w l).0) returned
  return :
      {l : Lock W} {asked given : List W} {returned : ℕ}
      → l.locked ≡ true
      → History l asked given returned
      → History (unlock l).1 asked (given ++ granted (unlock l).0) (suc returned)

-- how many hold the lock
abbrev pub holders : Bool → ℕ
holders true = 1
holders false = 0

pub record IsFair {W : Type 0} (l : Lock W) (asked given : List W) (returned : ℕ) : Type 0 where
  pub in_order : given ++ l.handles ≡ asked
  pub exclusive : length given ≡ returned + holders l.locked
  pub idle : l.locked ≡ false → l.handles ≡ []

module _ {W : Type 0} where
  ask-IsFair :
      (b : Bool) (hs asked given : List W) (returned : ℕ) (w : W)
      → IsFair (record { locked = b; handles = hs }) asked given returned
      → IsFair
          (lock w (record { locked = b; handles = hs })).1
          (asked ++ w ∷ [])
          (given ++ granted (lock w (record { locked = b; handles = hs })).0)
          returned
  unfolding lock
  ask-IsFair true hs asked given returned w fair = record {
    in_order =
        rw (append-nil given)
          (sym (append_assoc given hs (w ∷ [])) ∙ ap (λ xs. xs ++ w ∷ []) fair.in_order);
    exclusive = rw (append-nil given) fair.exclusive;
    idle = λ h. absurd (ground (arith, h));
  }
  ask-IsFair false hs asked given returned w fair =
      let none_waits : hs ≡ [] = fair.idle refl in
      let all_given : given ≡ asked =
        sym (append-nil given) ∙ ap (λ xs. given ++ xs) (sym none_waits) ∙ fair.in_order in
      record {
        in_order = rw (none_waits, append-nil (given ++ w ∷ []), all_given);
        exclusive = omega (arith, length-append given (w ∷ []), fair.exclusive);
        idle = λ h. absurd (ground (arith, h));
      }

  return-IsFair :
      (hs asked given : List W) (returned : ℕ)
      → IsFair (record { locked = true; handles = hs }) asked given returned
      → IsFair
          (unlock (record { locked = true; handles = hs })).1
          asked
          (given ++ granted (unlock (record { locked = true; handles = hs })).0)
          (suc returned)
  unfolding unlock
  return-IsFair [] asked given returned fair = record {
    in_order = rw (append-nil given) fair.in_order;
    exclusive = rw (append-nil given) (omega (arith, fair.exclusive));
    idle = λ h. refl;
  }
  return-IsFair (w ∷ hs) asked given returned fair = record {
    in_order = append_assoc given (w ∷ []) hs ∙ fair.in_order;
    exclusive = omega (arith, length-append given (w ∷ []), fair.exclusive);
    idle = λ h. absurd (ground (arith, h));
  }

  return_held-IsFair :
      (l : Lock W) (asked given : List W) (returned : ℕ)
      → l.locked ≡ true
      → IsFair l asked given returned
      → IsFair (unlock l).1 asked (given ++ granted (unlock l).0) (suc returned)
  return_held-IsFair l asked given returned held fair =
      let same : l ≡ record { locked = true; handles = l.handles } =
        ap (λ (b : Bool). record { locked = b; handles = l.handles }) held in
      subst
        (λ m.
          IsFair m asked given returned
          → IsFair (unlock m).1 asked (given ++ granted (unlock m).0) (suc returned))
        (sym same) (return-IsFair l.handles asked given returned) fair

-- What has been given and what waits are together what was asked for, in order; the lock was given
-- once more than it was returned while it is locked, and as often otherwise; none waits for a free
-- lock.
pub History-IsFair :
    {W : Type 0} {l : Lock W} {asked given : List W} {returned : ℕ}
    → History l asked given returned
    → IsFair l asked given returned
History-IsFair start = record { in_order = refl; exclusive = refl; idle = λ h. refl }
History-IsFair (ask {l} {asked} {given} {returned} w past) =
    ask-IsFair l.locked l.handles asked given returned w (History-IsFair past)
History-IsFair (return {l} {asked} {given} {returned} held past) =
    return_held-IsFair l asked given returned held (History-IsFair past)
