-- ===== src/Buffers/Words.antt =====
-- Reading back what was written.
use godcoin_js_legacy.Prelude.{
  ℕ, ◌+◌, ◌-◌, ◌*◌, ◌/◌, ◌%◌, ◌^◌, ◌<◌, ◌≡◌, refl, ap, ◌++◌, some, arith, Bytes, ℤ, pos, negsuc,
  ◌≤ℤ◌, length, drop, [],
}
use godcoin_js_legacy.Buffers.{
  write_uint32_be, read_uint32_be, to_word, of_word, write_int32_be, read_int32_be,
}

pub length-write_uint32_be : (n : ℕ) → length (write_uint32_be n) ≡ 4
unfolding write_uint32_be
length-write_uint32_be n = refl

-- Four bytes hold every number below 2 ^ 32.
pub read_uint32_be-write :
    (n : ℕ) (rest : Bytes) → n < 2 ^ 32 → read_uint32_be (write_uint32_be n ++ rest) ≡ some n
unfolding write_uint32_be read_uint32_be
read_uint32_be-write n rest h = ground arith

of_word-to_word :
    (i : ℤ) → negsuc (2 ^ 31 - 1) ≤ℤ i → i ≤ℤ pos (2 ^ 31 - 1) → of_word (to_word i) ≡ i
of_word-to_word (pos n) lo hi = ground arith
of_word-to_word (negsuc n) lo hi = ground arith

to_word-lt : (i : ℤ) → to_word i < 2 ^ 32
to_word-lt (pos n) = omega arith
to_word-lt (negsuc n) = omega arith

bytes-of_word :
    (w : ℕ)
    → w < 2 ^ 32
    → (w / 2 ^ 24) % 2 ^ 8 * 2 ^ 24
        + (w / 2 ^ 16) % 2 ^ 8 * 2 ^ 16
        + (w / 2 ^ 8) % 2 ^ 8 * 2 ^ 8
        + w % 2 ^ 8
      ≡ w
bytes-of_word w h = omega arith

-- Four bytes hold every 32-bit signed integer.
pub read_int32_be-write :
    (i : ℤ) (rest : Bytes)
    → negsuc (2 ^ 31 - 1) ≤ℤ i
    → i ≤ℤ pos (2 ^ 31 - 1)
    → read_int32_be (write_int32_be i ++ rest) ≡ some i
unfolding write_int32_be read_int32_be write_uint32_be
read_int32_be-write i rest lo hi =
    rw (bytes-of_word (to_word i) (to_word-lt i)) (ap some (of_word-to_word i lo hi))

-- The same with nothing behind the four bytes.
pub read_int32_be-write_all :
    (i : ℤ)
    → negsuc (2 ^ 31 - 1) ≤ℤ i
    → i ≤ℤ pos (2 ^ 31 - 1)
    → read_int32_be (write_int32_be i) ≡ some i
unfolding write_int32_be write_uint32_be
read_int32_be-write_all i lo hi =
    unfold write_int32_be write_uint32_be in read_int32_be-write i [] lo hi

pub drop-write_int32_be : (i : ℤ) (rest : Bytes) → drop 4 (write_int32_be i ++ rest) ≡ rest
unfolding write_int32_be write_uint32_be
drop-write_int32_be i rest = refl

pub read_uint32_be-write_all : (n : ℕ) → n < 2 ^ 32 → read_uint32_be (write_uint32_be n) ≡ some n
unfolding write_uint32_be
read_uint32_be-write_all n h = unfold write_uint32_be in read_uint32_be-write n [] h
