-- ===== src/Buffers.antt =====
-- Node's `Buffer`: the 32-bit integers that the code writes into buffers and reads from them.
pub mod Words
use godcoin_js_legacy.Prelude.{
  ℕ, ◌+◌, ◌-◌, ◌*◌, ◌/◌, ◌%◌, ◌^◌, List, [], ◌∷◌, Option, none, some, Bytes, ℤ, pos, negsuc, ltb,
  if◌then◌else◌,
}

-- `buf.writeUInt32BE(n, 0, true)` into a buffer of four bytes; with `noAssert` a larger `n` wraps.
unfoldable pub write_uint32_be : ℕ → Bytes
write_uint32_be n =
    (n / 2 ^ 24) % 2 ^ 8 ∷ (n / 2 ^ 16) % 2 ^ 8 ∷ (n / 2 ^ 8) % 2 ^ 8 ∷ n % 2 ^ 8 ∷ []

-- `buf.readUInt32BE(0, true)`; `none` where the buffer is shorter than four bytes.
unfoldable pub read_uint32_be : Bytes → Option ℕ
read_uint32_be (a ∷ b ∷ c ∷ d ∷ rest) = some (a * 2 ^ 24 + b * 2 ^ 16 + c * 2 ^ 8 + d)
read_uint32_be _ = none

-- The 32 bits of an integer in two's complement, and the integer that 32 bits stand for.
abbrev pub to_word : ℤ → ℕ
to_word (pos n) = n % 2 ^ 32
to_word (negsuc n) = 2 ^ 32 - 1 - n % 2 ^ 32

abbrev pub of_word : ℕ → ℤ
of_word w = if ltb w (2 ^ 31) then pos w else negsuc (2 ^ 32 - 1 - w)

-- `buf.writeInt32BE(i, 0, true)`
unfoldable pub write_int32_be : ℤ → Bytes
write_int32_be i = write_uint32_be (to_word i)

-- `buf.readInt32BE(0, true)`
unfoldable pub read_int32_be : Bytes → Option ℤ
read_int32_be (a ∷ b ∷ c ∷ d ∷ rest) = some (of_word (a * 2 ^ 24 + b * 2 ^ 16 + c * 2 ^ 8 + d))
read_int32_be _ = none
