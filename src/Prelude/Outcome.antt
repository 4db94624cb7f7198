-- ===== src/Prelude/Outcome.antt =====
-- Fallible code without state: a value, or what was thrown.
use mathlib.Core.Path.{◌≡◌, refl}
use mathlib.Core.Bool.{Bool, true, false}
use mathlib.Core.Option.{Option, none, some}
use godcoin_js_legacy.Prelude.Errors.{Error}

pub data Result {ℓ} (A : Type ℓ) : Type ℓ where
  err : Error → Result A
  ok : A → Result A

infixl 5 ◌>>=◌ ◌>>◌
abbrev pub ◌>>=◌ {ℓ ℓ'} : {A : Type ℓ} {B : Type ℓ'} → Result A → (A → Result B) → Result B
err thrown >>= next = err thrown
ok a >>= next = next a

abbrev pub ◌>>◌ {ℓ} : {B : Type ℓ} → Result (Unit {0}) → Result B → Result B
checks >> next = checks >>= (λ done. next)

-- `assert(b, message)`
abbrev pub assert : Bool → Error → Result (Unit {0})
assert true e = ok tt
assert false e = err e

-- the value of something that may be `undefined`, where the code goes on to use it
abbrev pub defined {ℓ} : {A : Type ℓ} → Option A → Error → Result A
defined none e = err e
defined (some a) e = ok a

pub >>=-eq-ok {ℓ ℓ'} :
    {A : Type ℓ} {B : Type ℓ'} (first : Result A) (next : A → Result B) {last : B}
    → (first >>= next) ≡ ok last
    → (a : A) × (first ≡ ok a) × (next a ≡ ok last)
>>=-eq-ok (err thrown) next h = cc
>>=-eq-ok (ok a) next h = (a, refl, h)

pub assert-eq-ok : (b : Bool) (e : Error) {u : Unit {0}} → assert b e ≡ ok u → b ≡ true
assert-eq-ok true e h = refl
assert-eq-ok false e h = cc

pub defined-eq-ok {ℓ} :
    {A : Type ℓ} (o : Option A) (e : Error) {a : A} → defined o e ≡ ok a → o ≡ some a
defined-eq-ok none e h = cc
defined-eq-ok (some a) e h = cc
