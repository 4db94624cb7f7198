-- ===== src/Producer/Turns.antt =====
-- The turns of the minters.
use godcoin_js_legacy.Prelude.{
  ℕ, zero, suc, ◌+◌, ◌-◌, ◌%◌, ◌<◌, ◌≡◌, refl, List, [], ◌∷◌, Option, none, some, arith, length,
  get_elem?, ap, sym, ◌∙◌,
}
use native.Mathlib.Nat.{mod-lt, add-mod-mod, mod-add-mod, add-mod_right, mod-eq_of_lt}
use godcoin_js_legacy.Neon.{SignedBlock}
use godcoin_js_legacy.Indexer.{Bond}
use godcoin_js_legacy.Producer.Scheduler.{Entry, next_minter}

abbrev pub bond_of : Option Entry → Option Bond
bond_of none = none
bond_of (some e) = some e.bond

next_minter-index :
    (e : Entry) (es : List Entry) (head : SignedBlock) (skip : ℕ)
    → next_minter (e ∷ es) head skip
      ≡ bond_of (get_elem? (e ∷ es) ((head.height + skip) % length (e ∷ es)))
unfolding next_minter
next_minter-index e es head skip = refl

get_elem?-lt :
    {A : Type 0} (xs : List A) (i : ℕ) → i < length xs → (x : A) × (get_elem? xs i ≡ some x)
get_elem?-lt [] i h = absurd (omega arith)
get_elem?-lt (x ∷ xs) zero h = (x, refl)
get_elem?-lt (x ∷ xs) (suc i) h = get_elem?-lt xs i (omega arith)

-- the skip that reaches the place `i`
abbrev turn_of : ℕ → ℕ → ℕ → ℕ
turn_of height n i = (i + (n - height % n)) % n

turn_of_lem : (height n i : ℕ) → i < n → (height + turn_of height n i) % n ≡ i
turn_of_lem height n i h =
    let below : height % n < n = mod-lt height (omega (arith, h)) in
    let regroup : height % n + (i + (n - height % n)) ≡ i + n = omega (arith, below) in
    add-mod-mod height (i + (n - height % n)) n
    ∙ sym (mod-add-mod height n (i + (n - height % n)))
    ∙ ap (λ k. k % n) regroup
    ∙ add-mod_right i n
    ∙ mod-eq_of_lt h

-- With bonds registered there is always a next minter; a whole round of further misses comes back to
-- the same one; and every bond has its turn within one round of misses.
pub next_minter-IsFair :
    (e : Entry) (es : List Entry) (head : SignedBlock)
    → ((skip : ℕ) → (b : Bond) × (next_minter (e ∷ es) head skip ≡ some b))
      × ((skip : ℕ)
          → next_minter (e ∷ es) head (skip + length (e ∷ es)) ≡ next_minter (e ∷ es) head skip)
      × ((i : ℕ)
          → i < length (e ∷ es)
          → (skip : ℕ) × (skip < length (e ∷ es))
            × (next_minter (e ∷ es) head skip ≡ bond_of (get_elem? (e ∷ es) i)))
next_minter-IsFair e es head =
    let n = length (e ∷ es) in
    let some_at : (k : ℕ) → k % n < n = λ k. mod-lt k (omega arith) in
    (
      λ skip.
          let (x, found) =
            get_elem?-lt (e ∷ es) ((head.height + skip) % n) (some_at (head.height + skip)) in
          (x.bond, next_minter-index e es head skip ∙ ap bond_of found),
      λ skip.
          let regroup : head.height + (skip + n) ≡ head.height + skip + n = omega arith in
          let same : (head.height + (skip + n)) % n ≡ (head.height + skip) % n =
            ap (λ k. k % n) regroup ∙ add-mod_right (head.height + skip) n in
          next_minter-index e es head (skip + n)
          ∙ ap (λ k. bond_of (get_elem? (e ∷ es) k)) same
          ∙ sym (next_minter-index e es head skip),
      λ i h. (
        turn_of head.height n i,
        some_at (i + (n - head.height % n)),
        next_minter-index e es head (turn_of head.height n i)
            ∙ ap (λ k. bond_of (get_elem? (e ∷ es) k)) (turn_of_lem head.height n i h),
      ),
    )
