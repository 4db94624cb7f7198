-- ===== src/ChainStore/Frames.antt =====
-- Reading one frame of the block log.
use mathlib.Core.List.{append_assoc}
use godcoin_js_legacy.Prelude.{
  ℕ, ◌+◌, ◌<◌, ◌^◌, ◌≡◌, ◌≢◌, refl, sym, ap, ◌∙◌, ◌++◌, some, arith, Bytes, ok, err,
  invalid_checksum, length, eqb_iff, take-append, drop-append, length-append,
}
use godcoin_js_legacy.Neon.{Neon, SignedBlock}
use godcoin_js_legacy.Packages.{Packages, PackagesLaws}
use godcoin_js_legacy.Buffers.{write_uint32_be}
use godcoin_js_legacy.Buffers.Words.{length-write_uint32_be, read_uint32_be-write_all}
use godcoin_js_legacy.ChainStore.{read_exact, fs_read, read_block, verify_block, frame}

-- A read inside the file gives the bytes that stand there.
pub read_exact-append :
    (pre x rest : Bytes) {file : Bytes} {len position : ℕ}
    → file ≡ pre ++ (x ++ rest)
    → len ≡ length x
    → position ≡ length pre
    → read_exact file len position ≡ ok x
unfolding read_exact fs_read
read_exact-append pre x rest e el ep = rw (
  e,
  el,
  ep,
  drop-append pre (x ++ rest),
  take-append x rest,
  (eqb_iff (length x) (length x)).1 refl,
)

-- A block that the log can hold: it is read back from its encoding, whose length fits in 32 bits.
pub record IsStorable ⦃n : Neon⦄ (b : SignedBlock) : Type 0 where
  pub decoded : n.decode_with_tx (n.encode_with_tx b) ≡ some b
  pub short : length (n.encode_with_tx b) < 2 ^ 32

module _ ⦃n : Neon⦄ ⦃p : Packages⦄ where
  pub length-frame : (enc : Bytes) → length (frame enc) ≡ length enc + 8
  unfolding frame
  length-frame enc = omega (
    arith,
    length-append (write_uint32_be (length enc)) (enc ++ write_uint32_be (p.crc32 enc)),
    length-append enc (write_uint32_be (p.crc32 enc)),
    length-write_uint32_be (length enc),
    length-write_uint32_be (p.crc32 enc),
  )

  -- a frame whose stored checksum may be wrong
  abbrev pub frame_with : Bytes → ℕ → Bytes
  frame_with enc checksum = write_uint32_be (length enc) ++ (enc ++ write_uint32_be checksum)

  -- The three reads of `readBlock`, whatever the stored checksum is.
  pub read_block-frame_with :
      (pre enc rest : Bytes) (checksum : ℕ) {file : Bytes}
      → file ≡ pre ++ (frame_with enc checksum ++ rest)
      → length enc < 2 ^ 32
      → checksum < 2 ^ 32
      → read_block file (length pre) ≡ verify_block enc checksum (length enc)
  unfolding read_block
  read_block-frame_with pre enc rest checksum {file} e small_len small_sum =
      let len4 = write_uint32_be (length enc) in
      let sum4 = write_uint32_be checksum in
      let at_len : file ≡ pre ++ (len4 ++ ((enc ++ sum4) ++ rest)) =
        e ∙ ap (λ t. pre ++ t) (append_assoc len4 (enc ++ sum4) rest) in
      let at_enc : file ≡ (pre ++ len4) ++ (enc ++ (sum4 ++ rest)) =
        at_len
        ∙ sym (append_assoc pre len4 ((enc ++ sum4) ++ rest))
        ∙ ap (λ t. (pre ++ len4) ++ t) (append_assoc enc sum4 rest) in
      let at_sum : file ≡ ((pre ++ len4) ++ enc) ++ (sum4 ++ rest) =
        at_enc ∙ sym (append_assoc (pre ++ len4) enc (sum4 ++ rest)) in
      rw (
        read_exact-append pre len4 ((enc ++ sum4) ++ rest) at_len (sym (length-write_uint32_be _))
            refl,
        read_uint32_be-write_all (length enc) small_len,
        read_exact-append (pre ++ len4) enc (sum4 ++ rest) {position = length pre + 4} at_enc refl
            (omega (arith, length-append pre len4, length-write_uint32_be (length enc))),
        read_exact-append ((pre ++ len4) ++ enc) sum4 rest {position = length pre + length enc + 4}
            at_sum (sym (length-write_uint32_be _))
            (omega (
              arith,
              length-append pre len4,
              length-append (pre ++ len4) enc,
              length-write_uint32_be (length enc),
            )),
        read_uint32_be-write_all checksum small_sum,
      )

  -- A frame that `write` appended is read back, wherever it stands in the file.
  pub read_block-frame :
      (pl : PackagesLaws p) (pre rest : Bytes) (b : SignedBlock) {file : Bytes}
      → IsStorable b
      → file ≡ pre ++ (frame (n.encode_with_tx b) ++ rest)
      → read_block file (length pre) ≡ ok (b, length (n.encode_with_tx b) + 8)
  unfolding frame verify_block
  read_block-frame pl pre rest b st e =
      let enc = n.encode_with_tx b in
      read_block-frame_with pre enc rest (p.crc32 enc) e st.short (pl.crc32-lt enc)
      ∙ rw ((eqb_iff (p.crc32 enc) (p.crc32 enc)).1 refl, st.decoded)

  -- A frame whose stored checksum is not that of its bytes is refused.
  pub read_block-corrupt :
      (pre enc rest : Bytes) (checksum : ℕ)
      → length enc < 2 ^ 32
      → checksum < 2 ^ 32
      → p.crc32 enc ≢ checksum
      → read_block (pre ++ (frame_with enc checksum ++ rest)) (length pre) ≡ err invalid_checksum
  unfolding verify_block
  read_block-corrupt pre enc rest checksum small_len small_sum differ =
      read_block-frame_with pre enc rest checksum refl small_len small_sum ∙ ground arith
