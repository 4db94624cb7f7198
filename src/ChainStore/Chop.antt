-- ===== src/ChainStore/Chop.antt =====
-- `chop` on a log that holds the frames of some blocks.
use mathlib.Core.List.{append_assoc}
use godcoin_js_legacy.Prelude.{
  ℕ, zero, suc, ◌+◌, ◌<◌, ◌≡◌, refl, sym, ap, ◌∙◌, List, [], ◌∷◌, ◌++◌, true, false, none, some,
  arith, Bytes, Result, ok, err, chop_failed, length, eqb, ltb, if◌then◌else◌, if_true, take-append,
  Option, Option-cases, length-append, All, Bool-cases, inl, inr,
}
use godcoin_js_legacy.Neon.{Neon, SignedBlock}
use godcoin_js_legacy.Packages.{Packages, PackagesLaws}
use godcoin_js_legacy.ChainStore.{ChainStore, frame, chop_from, chop, truncate}
use godcoin_js_legacy.ChainStore.Frames.{IsStorable, length-frame, read_block-frame}
use godcoin_js_legacy.ChainStore.Log.{frames, frames-append, IsLog}

-- the blocks up to the first one of a height
abbrev prepend : SignedBlock → Option (List SignedBlock) → Option (List SignedBlock)
prepend b none = none
prepend b (some kept) = some (b ∷ kept)

abbrev pub up_to : ℕ → List SignedBlock → Option (List SignedBlock)
up_to height [] = none
up_to height (b ∷ bs) = if eqb b.height height then some (b ∷ []) else prepend b (up_to height bs)

up_to-prefix :
    (height : ℕ) (bs : List SignedBlock) {kept : List SignedBlock}
    → up_to height bs ≡ some kept
    → (rest : List SignedBlock) × (bs ≡ kept ++ rest)
up_to-prefix height [] e = cc
up_to-prefix height (b ∷ bs) {kept} e = elim (Bool-cases (eqb b.height height)) [
  | inl found ↦ let kept-eq : b ∷ [] ≡ kept = ground arith in (bs, rw (← kept-eq) refl)
  | inr other ↦ elim (Option-cases (up_to height bs)) [
    | inl missing ↦ absurd (ground arith)
    | inr (before, f) ↦
        let (rest, split) = up_to-prefix height bs f in
        let kept-eq : b ∷ before ≡ kept = ground (arith, f, other) in
        (rest, rw (← kept-eq) (ap (λ (t : List SignedBlock). b ∷ t) split))
  ]
]

module _ ⦃n : Neon⦄ ⦃p : Packages⦄ where
  abbrev cut_pos : ℕ → Option (List SignedBlock) → Result ℕ
  cut_pos base none = err chop_failed
  cut_pos base (some kept) = ok (base + length (frames kept))

  up_to-storable :
      (kept rest : List SignedBlock)
      → All (λ b. IsStorable b) (kept ++ rest)
      → All (λ b. IsStorable b) kept
  up_to-storable [] rest h = tt
  up_to-storable (b ∷ kept) rest h = (h.0, up_to-storable kept rest h.1)

  cut_pos-prepend :
      (b : SignedBlock) (base : ℕ) (o : Option (List SignedBlock))
      → cut_pos (base + (length (n.encode_with_tx b) + 8)) o ≡ cut_pos base (prepend b o)
  cut_pos-prepend b base none = refl
  cut_pos-prepend b base (some kept) =
      let enc = n.encode_with_tx b in
      let sizes : base + (length enc + 8) + length (frames kept)
          ≡ base + length (frame enc ++ frames kept) =
        omega (arith, length-append (frame enc) (frames kept), length-frame enc) in
      ap ok sizes

module _ ⦃n : Neon⦄ ⦃p : Packages⦄ (pl : PackagesLaws p) where
  chop_from-frames :
      (fuel height : ℕ) (bs : List SignedBlock) (pre file : Bytes) (tail_pos : ℕ)
      → file ≡ pre ++ frames bs
      → tail_pos ≡ length pre + length (frames bs)
      → All (λ b. IsStorable b) bs
      → length (frames bs) < fuel
      → chop_from fuel height (length pre) tail_pos file ≡ cut_pos (length pre) (up_to height bs)
  unfolding chop_from
  chop_from-frames zero height bs pre file tail_pos e t st f = absurd (omega arith)
  chop_from-frames (suc fuel) height [] pre file tail_pos e t st f =
      let done : ltb (length pre) tail_pos ≡ false = ground arith in rw (done, chop_from)
  chop_from-frames (suc fuel) height (b ∷ bs) pre file tail_pos e t (st, sts) f =
      let enc = n.encode_with_tx b in
      let pre' = pre ++ frame enc in
      let len : length pre' ≡ length pre + (length enc + 8) =
        omega (arith, length-append pre (frame enc), length-frame enc) in
      let parts = length-append (frame enc) (frames bs) in
      let more : ltb (length pre) tail_pos ≡ true = ground (arith, parts, length-frame enc) in
      let rest =
        chop_from-frames fuel height bs pre' file tail_pos
          (e ∙ sym (append_assoc pre (frame enc) (frames bs)))
          (omega (arith, parts, len, length-frame enc)) sts
          (omega (arith, parts, length-frame enc)) in
      let sizes : length pre + (length enc + 8) ≡ length pre + length (frame enc ++ []) =
        omega (arith, length-append (frame enc) [], length-frame enc) in
      rw (more, chop_from)
        (rw (read_block-frame pl pre (frames bs) b st e) (elim (Bool-cases (eqb b.height height)) [
          | inl found ↦ rw found (ap ok sizes)
          | inr other ↦ rw other (
              rw (← len) (
                rest
                ∙ ap (λ k. cut_pos k (up_to height bs)) len
                ∙ cut_pos-prepend b (length pre) (up_to height bs)))
        ]))

  -- If the log has a block of the height, `chop` leaves the blocks up to the first such block; if it
  -- has none, `chop` throws and changes nothing.
  pub chop-IsLog :
      (height : ℕ) {s : ChainStore} (bs : List SignedBlock)
      → s.initialized ≡ true
      → IsLog s bs
      → (up_to height bs ≡ none → chop height s ≡ (err chop_failed, s))
        × ((kept : List SignedBlock)
            → up_to height bs ≡ some kept
            → ((chop height s).0 ≡ ok tt) × IsLog (chop height s).1 kept)
  unfolding chop
  chop-IsLog height {s} bs ready g =
      let cut =
        chop_from-frames (s.block_tail_pos + 1) height bs [] s.file s.block_tail_pos g.file
          (omega (arith, g.tail)) g.storable (omega (arith, g.tail)) in
      (
        λ missing. if_true _ _ ready ∙ ap (truncate s) {y = err chop_failed} (cut ∙ rw missing),
        λ kept found.
            let base : 0 + length (frames kept) ≡ length (frames kept) = omega arith in
            let done : chop height s ≡ truncate s (ok (length (frames kept))) =
              if_true _ _ ready
              ∙ ap (truncate s) {y = ok (length (frames kept))}
                  (cut ∙ ap (cut_pos 0) found ∙ ap ok base) in
            let (rest, split) = up_to-prefix height bs found in
            let parts : s.file ≡ frames kept ++ frames rest =
              g.file ∙ ap (λ t. frames t) split ∙ frames-append kept rest in
            rw done (
              refl,
              record {
                file = rw parts (take-append (frames kept) (frames rest));
                tail = refl;
                storable = up_to-storable kept rest (rw split at g.storable);
              },
            ),
      )
