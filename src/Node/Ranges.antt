-- ===== src/Node/Ranges.antt =====
-- What a block range holds.
use godcoin_js_legacy.Prelude.{
  ℕ, zero, suc, ◌+◌, ◌-◌, ◌<◌, ◌≡◌, refl, ap, ◌∙◌, List, [], ◌∷◌, true, false, Option, none, some,
  arith, Result, ok, err, length, get_elem?, >>=-eq-ok,
}
use mathlib.Core.Path.{subst}
use godcoin_js_legacy.Neon.{SignedBlock}
use godcoin_js_legacy.Node.PeerPool.{BlockRange, add_front, range_step, range_from, get_block_range}

module _ (get_block : ℕ → Result (Option SignedBlock)) where
  -- the blocks are the peer's from `i` on; there are `count` of them, or the peer has none at the next
  -- height
  pub record IsRange (i count : ℕ) (range : BlockRange) : Type 0 where
    pub at_height :
        (k : ℕ) → k < length range.blocks → get_block (i + k) ≡ ok (get_elem? range.blocks k)
    pub inside : range.range_outside_height ≡ false → length range.blocks ≡ count
    pub outside :
        range.range_outside_height ≡ true
        → (length range.blocks < count) × (get_block (i + length range.blocks) ≡ ok none)

  at_front :
      (i : ℕ) (b : SignedBlock) (blocks : List SignedBlock) (k : ℕ)
      → get_block i ≡ ok (some b)
      → ((j : ℕ) → j < length blocks → get_block (i + 1 + j) ≡ ok (get_elem? blocks j))
      → k < length (b ∷ blocks)
      → get_block (i + k) ≡ ok (get_elem? (b ∷ blocks) k)
  at_front i b blocks zero got later h = ap get_block (omega arith) ∙ got
  at_front i b blocks (suc k) got later h = ap get_block (omega arith) ∙ later k (omega (arith, h))

  one_more :
      (i count : ℕ) (b : SignedBlock) (range : BlockRange)
      → get_block i ≡ ok (some b)
      → IsRange (i + 1) count range
      → IsRange i (suc count) (add_front b range)
  one_more i count b range got later = record {
    at_height = λ k h. at_front i b range.blocks k got later.at_height h;
    inside = λ h. ap suc (later.inside h);
    outside = λ h.
        let (few, ends) = later.outside h in
        (omega (arith, few), ap get_block (omega arith) ∙ ends);
  }

  none_left : (i : ℕ) → IsRange i 0 (record { range_outside_height = false; blocks = [] })
  none_left i = record {
    at_height = λ k h. absurd (omega (arith, h));
    inside = λ h. refl;
    outside = λ h. absurd (ground (arith, h));
  }

  none_there :
      (i count : ℕ)
      → get_block i ≡ ok none
      → IsRange i (suc count) (record { range_outside_height = true; blocks = [] })
  none_there i count got = record {
    at_height = λ k h. absurd (omega (arith, h));
    inside = λ h. absurd (ground (arith, h));
    outside = λ h. (omega arith, ap get_block (omega arith) ∙ got);
  }

  range_step-IsRange :
      (r : Result (Option SignedBlock)) (rest : Result BlockRange) (i count : ℕ)
      {range : BlockRange}
      → get_block i ≡ r
      → ((later : BlockRange) → rest ≡ ok later → IsRange (i + 1) count later)
      → range_step r rest ≡ ok range
      → IsRange i (suc count) range
  unfolding range_step
  range_step-IsRange (err e) rest i count got below h = absurd (ground (arith, h))
  range_step-IsRange (ok none) rest i count got below h =
      subst (IsRange i (suc count)) (ground (arith, h)) (none_there i count got)
  range_step-IsRange (ok (some b)) rest i count got below h =
      let (later, e, k) = >>=-eq-ok rest _ h in
      subst (IsRange i (suc count)) (ground (arith, k))
        (one_more i count b later got (below later e))

  range_from-IsRange :
      (count i : ℕ) (range : BlockRange)
      → range_from get_block count i ≡ ok range
      → IsRange i count range
  unfolding range_from
  range_from-IsRange zero i range h = subst (IsRange i 0) (ground (arith, h)) (none_left i)
  range_from-IsRange (suc count) i range h =
      range_step-IsRange (get_block i) (range_from get_block count (i + 1)) i count refl
        (λ later e. range_from-IsRange count (i + 1) later e) h

-- A block range that a peer gives from `min_height` to `max_height` holds the peer's blocks of
-- consecutive heights from `min_height`: all of them, or, when it says that the range is outside,
-- fewer, up to the first height at which the peer has none.
pub get_block_range-IsRange :
    (get_block : ℕ → Result (Option SignedBlock)) (min_height max_height : ℕ) {range : BlockRange}
    → get_block_range get_block min_height max_height ≡ ok range
    → IsRange get_block min_height (max_height + 1 - min_height) range
unfolding get_block_range
get_block_range-IsRange get_block min_height max_height h =
    range_from-IsRange get_block (max_height + 1 - min_height) min_height _ h
