-- ===== src/Packages.antt =====
-- What the program uses of the packages `level` (a key-value store: the parameters `Level`, over the
-- type `Db` of the states of a store) and `level-codec`, `long`, `sse4_crc32`, `libsodium-wrappers`,
-- and of Node's encoding of doubles (the parameters `Packages`); what it relies on is in `LevelLaws`
-- and `PackagesLaws`.
use godcoin_js_legacy.Prelude.{
  ℕ, ◌-◌, ◌^◌, ◌<◌, ◌≡◌, List, Option, none, some, Bytes, bytes_eq, ◌==◌, ℤ, pos, negsuc, ◌≤ℤ◌,
  if◌then◌else◌,
}

-- An unsigned `Long`: two signed words.
pub record Long : Type 0 where
  pub high : ℤ
  pub low : ℤ

pub record Level (Db : Type 0) : Type 0 where
  -- `db.get`, where a key that is not found is `none`; `db.put`, `db.del`
  pub get : Db → Bytes → Option Bytes
  pub put : Db → Bytes → Bytes → Db
  pub del : Db → Bytes → Db
  -- the entries that `createReadStream` gives for the keys that begin with a byte, in order of keys
  pub entries : Db → ℕ → List (Bytes × Bytes)

-- What is stored is read back, and nothing else changes.
pub record LevelLaws {Db : Type 0} (l : Level Db) : Type 0 where
  pub get-put :
      (d : Db) (k j v : Bytes) → l.get (l.put d k v) j ≡ (if k == j then some v else l.get d j)
  pub get-del : (d : Db) (k j : Bytes) → l.get (l.del d k) j ≡ (if k == j then none else l.get d j)

pub record Packages : Type 0 where
  -- `valueEncoding: 'json'` on an array of two strings
  pub write_json : Bytes × Bytes → Bytes
  pub read_json : Bytes → Option (Bytes × Bytes)
  -- `Long.fromNumber(n, true)` and `toNumber()`
  pub from_number : ℕ → Long
  pub to_number : Long → ℕ
  -- `crc32.calculate`
  pub crc32 : Bytes → ℕ
  -- `buf.writeDoubleBE(n, 0, true)` into eight bytes, and `buf.readDoubleBE(0)`
  pub write_double_be : ℕ → Bytes
  pub read_double_be : Bytes → ℕ
  -- `sodium.crypto_sign_PUBLICKEYBYTES`
  pub public_key_bytes : ℕ

-- JSON text is read back; numbers that a double holds exactly pass through a `Long`, whose words have
-- 32 bits, and through eight bytes; a checksum has 32 bits.
pub record PackagesLaws (p : Packages) : Type 0 where
  pub read_json-write : (t : Bytes × Bytes) → p.read_json (p.write_json t) ≡ some t
  pub to_number-from_number : (n : ℕ) → n < 2 ^ 53 → p.to_number (p.from_number n) ≡ n
  pub high_range :
      (n : ℕ)
      → (negsuc (2 ^ 31 - 1) ≤ℤ (p.from_number n).high)
        × ((p.from_number n).high ≤ℤ pos (2 ^ 31 - 1))
  pub low_range :
      (n : ℕ)
      → (negsuc (2 ^ 31 - 1) ≤ℤ (p.from_number n).low) × ((p.from_number n).low ≤ℤ pos (2 ^ 31 - 1))
  pub read_double_be-write : (n : ℕ) → n < 2 ^ 53 → p.read_double_be (p.write_double_be n) ≡ n
  pub crc32-lt : (b : Bytes) → p.crc32 b < 2 ^ 32
