-- ===== src/Indexer/Props.antt =====
-- The keys of the index, by their namespaces.
use godcoin_js_legacy.Prelude.{
  ℕ, ◌<◌, ◌-◌, ◌^◌, ◌≡◌, ap, ◌++◌, [], ◌∷◌, ◌&&◌, some, arith, Bytes, bytes_equal, bytes_equal_iff,
  eqb, eqb_iff, if◌then◌else◌, pos, negsuc, ◌≤ℤ◌, ok, length, take-append, drop-append, Bool-cases,
  inl, inr,
}
use godcoin_js_legacy.Neon.{Neon, Asset}
use godcoin_js_legacy.Neon.Laws.{NeonLaws}
use godcoin_js_legacy.Packages.{Level, LevelLaws, Packages, PackagesLaws, Long}
use godcoin_js_legacy.Buffers.{write_int32_be, read_int32_be}
use godcoin_js_legacy.Buffers.Words.{
  read_int32_be-write, read_int32_be-write_all, drop-write_int32_be,
}
use godcoin_js_legacy.Indexer.{
  Index, Bond, get_prop, set_prop, decode_bond, decode_assets, encode_assets, decode_pos,
  encode_pos,
}

module _ {Db : Type 0} ⦃n : Neon⦄ ⦃p : Packages⦄ ⦃l : Level Db⦄ (ll : LevelLaws l) where
  -- A write under one namespace and key is read back there, and nowhere else.
  pub get_prop-set_prop :
      (a b : ℕ) (k j v : Bytes) (i : Index Db)
      → get_prop (set_prop (a ∷ []) k v i) (b ∷ []) j
        ≡ (if eqb a b && bytes_equal k j then some v else get_prop i (b ∷ []) j)
  unfolding get_prop set_prop bytes_equal
  get_prop-set_prop a b k j v i = ll.get-put i.db (a ∷ k) (b ∷ j) v

height_injective :
    (h k : ℕ) → h < 2 ^ 31 → k < 2 ^ 31 → write_int32_be (pos h) ≡ write_int32_be (pos k) → h ≡ k
height_injective h k sh sk e = cc (
  ap read_int32_be e,
  read_int32_be-write_all (pos h) (omega arith) (omega arith),
  read_int32_be-write_all (pos k) (omega arith) (omega arith),
)

-- Two heights below 2 ^ 31 have one key exactly if they are one.
pub bytes_equal-height :
    (h k : ℕ)
    → h < 2 ^ 31
    → k < 2 ^ 31
    → bytes_equal (write_int32_be (pos h)) (write_int32_be (pos k)) ≡ eqb h k
bytes_equal-height h k sh sk = elim (Bool-cases (eqb h k)) [
  | inl same ↦
      rw same
        ((bytes_equal_iff _ _).1 (ap (λ (x : ℕ). write_int32_be (pos x)) ((eqb_iff h k).0 same)))
  | inr differ ↦ elim (Bool-cases (bytes_equal (write_int32_be (pos h)) (write_int32_be (pos k)))) [
    | inr apart ↦ rw differ apart
    | inl joined ↦ ground (arith, height_injective h k sh sk ((bytes_equal_iff _ _).0 joined))
  ]
]

module _ ⦃n : Neon⦄ ⦃p : Packages⦄ (nl : NeonLaws n) (pl : PackagesLaws p) where
  pub decode_assets-encode : (a : Asset × Asset) → decode_assets (encode_assets a) ≡ ok a
  unfolding decode_assets encode_assets
  decode_assets-encode (a, b) =
      rw (pl.read_json-write (n.print_asset a, n.print_asset b), nl.parse-print a, nl.parse-print b)

  pub decode_bond-encode :
      (b : Bond)
      → length (b.staker).buffer ≡ p.public_key_bytes
      → decode_bond b.minter ((b.staker).buffer ++ n.print_asset b.stake_amt) ≡ ok (some b)
  unfolding decode_bond
  decode_bond-encode b e = rw (← e, take-append, drop-append, nl.parse-print b.stake_amt)

-- the words of a `Long` have 32 bits
pub record FitsLong (w : Long) : Type 0 where
  pub high_lo : negsuc (2 ^ 31 - 1) ≤ℤ w.high
  pub high_hi : w.high ≤ℤ pos (2 ^ 31 - 1)
  pub low_lo : negsuc (2 ^ 31 - 1) ≤ℤ w.low
  pub low_hi : w.low ≤ℤ pos (2 ^ 31 - 1)

pub decode_pos-encode : (w : Long) → FitsLong w → decode_pos (encode_pos w) ≡ ok (some w)
unfolding decode_pos encode_pos
decode_pos-encode w f = rw (
  read_int32_be-write w.high (write_int32_be w.low) f.high_lo f.high_hi,
  drop-write_int32_be w.high (write_int32_be w.low),
  read_int32_be-write_all w.low f.low_lo f.low_hi,
)
