-- ===== src/ChainStore/Log.antt =====
-- The block log as a sequence of frames: what `write`, `readBlockLog` and `chop` do to it.
use mathlib.Core.List.{append_assoc, append-nil}
use godcoin_js_legacy.Prelude.{
  ℕ, zero, suc, ◌+◌, ◌<◌, ◌≡◌, refl, sym, ap, ◌∙◌, List, [], ◌∷◌, ◌++◌, true, false, none, arith,
  Bytes, ok, length, ltb, length-append, All, All-append,
}
use godcoin_js_legacy.Neon.{Neon, SignedBlock}
use godcoin_js_legacy.Packages.{Packages, PackagesLaws}
use godcoin_js_legacy.ChainStore.{
  ChainStore, frame, fs_write, append_block, genesis_first, write, read_block_log_from,
  read_block_log,
}
use godcoin_js_legacy.ChainStore.Frames.{IsStorable, length-frame, read_block-frame}

module _ ⦃n : Neon⦄ ⦃p : Packages⦄ where
  -- the frames of some blocks, one after another
  abbrev pub frames : List SignedBlock → Bytes
  frames [] = []
  frames (b ∷ bs) = frame (n.encode_with_tx b) ++ frames bs

  pub frames-append : (xs ys : List SignedBlock) → frames (xs ++ ys) ≡ frames xs ++ frames ys
  frames-append [] ys = refl
  frames-append (x ∷ xs) ys =
      ap (λ t. frame (n.encode_with_tx x) ++ t) (frames-append xs ys)
      ∙ sym (append_assoc (frame (n.encode_with_tx x)) (frames xs) (frames ys))

  -- The file holds exactly the frames of `bs`, and the tail position is its end.
  pub record IsLog (s : ChainStore) (bs : List SignedBlock) : Type 0 where
    pub file : s.file ≡ frames bs
    pub tail : s.block_tail_pos ≡ length (frames bs)
    pub storable : All (λ b. IsStorable b) bs

  -- what `readBlockLog` reports of blocks that begin at a position
  abbrev pub entries : ℕ → List SignedBlock → List (SignedBlock × ℕ × ℕ)
  entries pos [] = []
  entries pos (b ∷ bs) =
      let len = length (n.encode_with_tx b) + 8 in (b, pos, len) ∷ entries (pos + len) bs

  append_block-IsLog :
      (b : SignedBlock) {s : ChainStore} {bs : List SignedBlock}
      → IsStorable b
      → IsLog s bs
      → IsLog (append_block b s) (bs ++ b ∷ [])
  unfolding append_block fs_write
  append_block-IsLog b {s} {bs} st g =
      let enc = frame (n.encode_with_tx b) in
      let whole : frames (bs ++ b ∷ []) ≡ frames bs ++ enc =
        frames-append bs (b ∷ []) ∙ ap (λ t. frames bs ++ t) (append-nil enc) in
      record {
        file = rw (whole, g.file);
        tail = rw whole (
            omega
              (arith, g.tail, length-append (frames bs) enc, length-frame (n.encode_with_tx b)));
        storable = All-append (λ x. IsStorable x) bs (b ∷ []) g.storable (st, tt);
      }

  -- A block that `write` accepts becomes the last of the log, whose other blocks stay; the position
  -- that it returns is where the log ended before.
  pub write-IsLog :
      (b : SignedBlock) {s : ChainStore} {bs : List SignedBlock}
      → IsStorable b
      → IsLog s bs
      → genesis_first s b ≡ ok tt
      → ((write b s).0 ≡ ok (p.from_number (length (frames bs))))
        × IsLog (write b s).1 (bs ++ b ∷ [])
  unfolding write
  write-IsLog b {s} {bs} st g first =
      rw (first, write) (ap (λ t. ok (p.from_number t)) g.tail, append_block-IsLog b st g)

module _ ⦃n : Neon⦄ ⦃p : Packages⦄ (pl : PackagesLaws p) where
  read_block_log_from-frames :
      (fuel : ℕ) (bs : List SignedBlock) (pre file : Bytes) (tail_pos : ℕ)
      → file ≡ pre ++ frames bs
      → tail_pos ≡ length pre + length (frames bs)
      → All (λ b. IsStorable b) bs
      → length (frames bs) < fuel
      → read_block_log_from fuel (length pre) tail_pos file ≡ (entries (length pre) bs, none)
  unfolding read_block_log_from
  read_block_log_from-frames zero bs pre file tail_pos e t st f = absurd (omega arith)
  read_block_log_from-frames (suc fuel) [] pre file tail_pos e t st f =
      let done : ltb (length pre) tail_pos ≡ false = ground arith in rw (done, read_block_log_from)
  read_block_log_from-frames (suc fuel) (b ∷ bs) pre file tail_pos e t (st, sts) f =
      let enc = n.encode_with_tx b in
      let pre' = pre ++ frame enc in
      let len : length pre' ≡ length pre + (length enc + 8) =
        omega (arith, length-append pre (frame enc), length-frame enc) in
      let parts = length-append (frame enc) (frames bs) in
      let more : ltb (length pre) tail_pos ≡ true = ground (arith, parts, length-frame enc) in
      let rest =
        read_block_log_from-frames fuel bs pre' file tail_pos
          (e ∙ sym (append_assoc pre (frame enc) (frames bs)))
          (omega (arith, parts, len, length-frame enc)) sts
          (omega (arith, parts, length-frame enc)) in
      rw (more, read_block_log_from)
        (rw (read_block-frame pl pre (frames bs) b st e) (rw (← len, rest)))

  -- `readBlockLog` gives exactly the blocks that were written, in order and with the positions that
  -- `write` returned, and reports no error.
  pub read_block_log-IsLog :
      {s : ChainStore} (bs : List SignedBlock)
      → IsLog s bs
      → read_block_log s ≡ (entries 0 bs, none)
  unfolding read_block_log
  read_block_log-IsLog {s} bs g =
      read_block_log_from-frames (s.block_tail_pos + 1) bs [] s.file s.block_tail_pos g.file
        (omega (arith, g.tail)) g.storable (omega (arith, g.tail))
