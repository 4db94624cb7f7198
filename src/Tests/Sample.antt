-- ===== src/Tests/Sample.antt =====
-- Concrete packages, for which the laws hold: amounts of one precision, keys that sign by their own
-- bytes, codecs by tables of the sample's values, and a database that is an association list.
use godcoin_js_legacy.Prelude.{
  ℕ, zero, suc, ◌+◌, ◌*◌, ◌/◌, ◌%◌, ◌^◌, ◌<◌, ◌≡◌, refl, ap, List, [], ◌∷◌, ◌++◌, Bool, true, false,
  Option, none, some, arith, Bytes, bytes_equal, bytes_equal_iff, bytes_eq, lookup, insert, erase,
  lookup-insert, lookup-erase, Dict, ℤ, pos, negsuc, ◌+ℤ◌, ◌-ℤ◌, leb_ℤ, leb_ℤ→≤ℤ, eqb, length, take,
  drop, take-append, drop-append, if◌then◌else◌, Bool-cases, inl, inr,
}
use godcoin_js_legacy.Buffers.{to_word, of_word}
use godcoin_js_legacy.Neon.{
  Asset, AssetSymbol, gold, silver, other, symbol_equal, PublicKey, Tx, SignedBlock, Neon, time_of,
}
use godcoin_js_legacy.Neon.Laws.{NeonLaws}
use godcoin_js_legacy.Packages.{Level, LevelLaws, Packages, PackagesLaws, Long}

abbrev pub Db : Type 0
Db = Dict Bytes Bytes

instance abbrev pub level : Level Db
level = record {
  get = λ d k. lookup k d;
  put = λ d k v. insert k v d;
  del = λ d k. erase k d;
  entries = λ d ns. [];
}

pub level_laws : LevelLaws level
level_laws = record {
  get-put = λ d k j v. lookup-insert k j v d;
  get-del = λ d k j. lookup-erase k j d;
}

abbrev read_pair : Bytes → Option (Bytes × Bytes)
read_pair [] = none
read_pair (len ∷ bytes) = some (take len bytes, drop len bytes)

abbrev long_of : ℕ → Long
long_of n = record { high = of_word ((n / 2 ^ 32) % 2 ^ 32); low = of_word (n % 2 ^ 32) }

abbrev number_of : Long → ℕ
number_of w = to_word w.high * 2 ^ 32 + to_word w.low

abbrev first_or_zero : Bytes → ℕ
first_or_zero [] = 0
first_or_zero (b ∷ bs) = b

instance abbrev pub packages : Packages
packages = record {
  write_json = λ t. length t.0 ∷ (t.0 ++ t.1);
  read_json = read_pair;
  from_number = long_of;
  to_number = number_of;
  crc32 = λ b. length b % 2 ^ 32;
  write_double_be = λ n. n ∷ [];
  read_double_be = first_or_zero;
  public_key_bytes = 1;
}

number_of-long_of : (n : ℕ) → n < 2 ^ 53 → number_of (long_of n) ≡ n
number_of-long_of n h = ground arith

read_pair-write : (a b : Bytes) → read_pair (length a ∷ (a ++ b)) ≡ some (a, b)
read_pair-write a b = rw (take-append a b, drop-append a b)

pub packages_laws : PackagesLaws packages
packages_laws = record {
  read_json-write = λ t. read_pair-write t.0 t.1;
  to_number-from_number = number_of-long_of;
  high_range = λ n. ground arith;
  low_range = λ n. ground arith;
  read_double_be-write = λ n h. refl;
  crc32-lt = λ b. omega arith;
}

abbrev combine : (ℤ → ℤ → ℤ) → Asset → Asset → Option Asset
combine op a b =
    if symbol_equal a.symbol b.symbol
    then some (record { amount = op a.amount b.amount; decimals = a.decimals; symbol = a.symbol })
    else none

abbrev compare_by : (ℤ → ℤ → Bool) → Asset → Asset → Option Bool
compare_by test a b = if symbol_equal a.symbol b.symbol then some (test a.amount b.amount) else none

abbrev equal_ℤ : ℤ → ℤ → Bool
equal_ℤ (pos a) (pos b) = eqb a b
equal_ℤ (negsuc a) (negsuc b) = eqb a b
equal_ℤ _ _ = false

abbrev symbol_bytes : AssetSymbol → Bytes
symbol_bytes gold = 0 ∷ []
symbol_bytes silver = 1 ∷ []
symbol_bytes (other id) = 2 ∷ id ∷ []

abbrev amount_bytes : ℤ → Bytes
amount_bytes (pos a) = 0 ∷ a ∷ []
amount_bytes (negsuc a) = 1 ∷ a ∷ []

abbrev asset_bytes : Asset → Bytes
asset_bytes a = amount_bytes a.amount ++ (a.decimals ∷ symbol_bytes a.symbol)

abbrev symbol_from : Bytes → AssetSymbol
symbol_from (zero ∷ rest) = gold
symbol_from (suc zero ∷ rest) = silver
symbol_from (suc (suc k) ∷ id ∷ rest) = other id
symbol_from _ = gold

abbrev amount_from : ℕ → ℕ → ℤ
amount_from zero a = pos a
amount_from (suc k) a = negsuc a

abbrev asset_from : Bytes → Option Asset
asset_from (sign ∷ a ∷ decimals ∷ rest) =
    some (record { amount = amount_from sign a; decimals = decimals; symbol = symbol_from rest })
asset_from _ = none

asset_from-bytes : (a : Asset) → asset_from (asset_bytes a) ≡ some a
asset_from-bytes a = ground arith

abbrev pub coin : ℕ → AssetSymbol → Asset
coin a s = record { amount = pos a; decimals = 8; symbol = s }

abbrev find_tx : Bytes → List (Bytes × Tx) → Option Tx
find_tx buf [] = none
find_tx buf ((k, tx) ∷ txs) = if bytes_equal k buf then some tx else find_tx buf txs

abbrev find_block : Bytes → List SignedBlock → Option SignedBlock
find_block (h ∷ rest) (b ∷ bs) = if eqb h b.height then some b else find_block (h ∷ rest) bs
find_block _ _ = none

-- godcoin-neon for some transactions, by their time, and some blocks, by their height
abbrev pub neon_for : List (Bytes × Tx) → List SignedBlock → Neon
neon_for txs blocks = record {
  max_precision = 8;
  empty_gold = coin 0 gold;
  empty_silver = coin 0 silver;
  symbol_id = λ s. elim s [ gold ↦ 0 | silver ↦ 1 | other id ↦ id ];
  add = combine ◌+ℤ◌;
  sub = combine ◌-ℤ◌;
  mul = λ a b prec. some a;
  pow = λ a k prec. a;
  geq = compare_by (λ a b. leb_ℤ b a);
  eq = compare_by equal_ℤ;
  print_asset = asset_bytes;
  parse_asset = asset_from;
  key_equals = λ a b. bytes_equal a.buffer b.buffer;
  verify = λ key signature message. bytes_equal signature key.buffer;
  encode = λ tx. time_of tx ∷ [];
  encode_with_sigs = λ tx. time_of tx ∷ [];
  decode_with_sigs = λ buf. find_tx buf txs;
  calc_hash = λ b. b.height ∷ [];
  verify_merkle_root = λ b. true;
  encode_header = λ b. b.height ∷ [];
  encode_with_tx = λ b. b.height ∷ [];
  decode_with_tx = λ buf. find_block buf blocks;
}

symbol_equal→≡ : (a b : AssetSymbol) → symbol_equal a b ≡ true → a ≡ b
symbol_equal→≡ a b h = ground arith

symbol_equal_refl : (a : AssetSymbol) → symbol_equal a a ≡ true
symbol_equal_refl a = ground arith

equal_ℤ→≡ : (a b : ℤ) → equal_ℤ a b ≡ true → a ≡ b
equal_ℤ→≡ a b h = ground arith

combine_lem :
    (op : ℤ → ℤ → ℤ) (a b : Asset)
    → a.symbol ≡ b.symbol
    → (c : Asset) × (combine op a b ≡ some c)
      × (c.symbol ≡ a.symbol)
      × (c.amount ≡ op a.amount b.amount)
combine_lem op a b e = (
  record { amount = op a.amount b.amount; decimals = a.decimals; symbol = a.symbol },
  rw (← e, symbol_equal_refl a.symbol),
  refl,
  refl,
)

combine_same :
    (op : ℤ → ℤ → ℤ) (a b : Asset) {c : Asset} → combine op a b ≡ some c → a.symbol ≡ b.symbol
combine_same op a b h = elim (Bool-cases (symbol_equal a.symbol b.symbol)) [
  | inl same ↦ symbol_equal→≡ a.symbol b.symbol same
  | inr differ ↦ absurd (ground (arith, differ))
]

compare_by_lem :
    (test : ℤ → ℤ → Bool) (a b : Asset)
    → compare_by test a b ≡ some true
    → (a.symbol ≡ b.symbol) × (test a.amount b.amount ≡ true)
compare_by_lem test a b h = elim (Bool-cases (symbol_equal a.symbol b.symbol)) [
  | inl same ↦ (symbol_equal→≡ a.symbol b.symbol same, ground (arith, same))
  | inr differ ↦ absurd (ground (arith, differ))
]

module _ (txs : List (Bytes × Tx)) (blocks : List SignedBlock) where
  pub neon_laws : NeonLaws (neon_for txs blocks)
  neon_laws = record {
    value = λ a. a.amount;
    value_nonneg = λ a. (λ h. h, λ h. h);
    empty_gold_lem = (refl, refl);
    empty_silver_lem = (refl, refl);
    add_lem = combine_lem ◌+ℤ◌;
    sub_lem = combine_lem ◌-ℤ◌;
    sub_same = λ a b h. combine_same ◌-ℤ◌ a b h;
    geq_lem = λ a b h.
        let (same, le) = compare_by_lem (λ x y. leb_ℤ y x) a b h in
        (same, leb_ℤ→≤ℤ b.amount a.amount le);
    eq_lem = λ a b h.
        let (same, eq) = compare_by_lem equal_ℤ a b h in (same, equal_ℤ→≡ a.amount b.amount eq);
    parse-print = asset_from-bytes;
    key_equals_iff = λ a b. (
      λ h. ap (λ x. record { buffer = x }) ((bytes_equal_iff a.buffer b.buffer).0 h),
      λ h. (bytes_equal_iff a.buffer b.buffer).1 (ap (λ (k : PublicKey). k.buffer) h),
    );
  }
