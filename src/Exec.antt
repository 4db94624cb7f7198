-- ===== src/Exec.antt =====
-- An asynchronous method that runs alone (under a `Lock`): a step on the state with a value, or with
-- what was thrown. The state comes back after a throw too, since what was written stays written.
use godcoin_js_legacy.Prelude.{Error, Result, ok, err, ◌≡◌, refl, sym, ap, ◌∙◌, arith}

abbrev pub Exec {ℓ} : Type ℓ → Type ℓ → Type ℓ
Exec S A = S → Result A × S

module _ {ℓ} {S A : Type ℓ} where
  abbrev pub pure : A → Exec S A
  pure a s = (ok a, s)

  abbrev pub raise : Error → Exec S A
  raise e s = (err e, s)

  abbrev pub lift : Result A → Exec S A
  lift r s = (r, s)

  abbrev pub gets : (S → A) → Exec S A
  gets f s = (ok (f s), s)

  abbrev pub read : (S → Result A) → Exec S A
  read f s = (f s, s)

-- how a method goes on after a computed result
abbrev pub resume {ℓ} : {A B T : Type ℓ} → Result A → (A → T → Result B × T) → T → Result B × T
resume (ok a) f s = f a s
resume (err e) f s = (err e, s)

abbrev pub modify : {S : Type 0} → (S → S) → Exec S (Unit {0})
modify f s = (ok tt, f s)

infixl 5 ◌>>=◌ ◌>>◌
abbrev pub ◌>>=◌ : {S A B : Type 0} → Exec S A → (A → Exec S B) → Exec S B
◌>>=◌ m f s = let (r, s') = m s in resume r f s'

abbrev pub ◌>>◌ : {S B : Type 0} → Exec S (Unit {0}) → Exec S B → Exec S B
m >> k = m >>= λ _. k

resume-eq-ok :
    {S A B : Type 0} (r : Result A × S) (f : A → Exec S B) {b : B} {t : S}
    → resume r.0 f r.1 ≡ (ok b, t)
    → (a : A) × (u : S) × (r ≡ (ok a, u)) × (f a u ≡ (ok b, t))
resume-eq-ok (ok a, u) f h = (a, u, refl, h)
resume-eq-ok (err e, u) f h = absurd (ground (arith, h))

-- A chain of steps that gives a value has given one at each step.
pub >>=-eq-ok :
    {S A B : Type 0} (m : Exec S A) (f : A → Exec S B) (s : S) {b : B} {t : S}
    → (m >>= f) s ≡ (ok b, t)
    → (a : A) × (u : S) × (m s ≡ (ok a, u)) × (f a u ≡ (ok b, t))
>>=-eq-ok m f s h = resume-eq-ok (m s) f h

-- A step that leaves a part of the state as it is, whether it gives a value or throws.
pub record Keeps {S A B : Type 0} (part : S → B) (m : Exec S A) : Type 0 where
  pub kept : (s : S) → part (m s).1 ≡ part s

pub resume-Keeps :
    {S A B C : Type 0} (part : S → C) (r : Result A) (s : S) (f : A → Exec S B)
    → ((a : A) → Keeps part (f a))
    → part (resume r f s).1 ≡ part s
resume-Keeps part (ok a) s f keeps = (keeps a).kept s
resume-Keeps part (err e) s f keeps = refl

-- steps that leave the part as it is, one after another
pub >>=-Keeps :
    {S A B C : Type 0} {part : S → C} {m : Exec S A} {f : A → Exec S B}
    → Keeps part m
    → ((a : A) → Keeps part (f a))
    → Keeps part (m >>= f)
>>=-Keeps {part = part} {m} {f} first later = record {
  kept = λ s. resume-Keeps part (m s).0 (m s).1 f later ∙ first.kept s;
}

pub >>-Keeps :
    {S B C : Type 0} {part : S → C} {m : Exec S (Unit {0})} {k : Exec S B}
    → Keeps part m
    → Keeps part k
    → Keeps part (m >> k)
>>-Keeps {part = part} {m} {k} first later = >>=-Keeps first (λ done. later)

pub Keeps-lem :
    {S A B : Type 0} {part : S → B} (m : Exec S A) (s t : S) {r : Result A}
    → Keeps part m
    → m s ≡ (r, t)
    → part t ≡ part s
Keeps-lem {part = part} m s t keeps e = ap (λ x. part x.1) (sym e) ∙ keeps.kept s
