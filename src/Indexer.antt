-- ===== src/Indexer.antt =====
-- src/lib/indexer/index.ts: the index database. Every key begins with the byte of its namespace. A method
-- that writes returns the new state; a timer is the transaction that it deletes and when it is due.
pub mod Props
pub mod Frames
pub mod Maps
pub mod Writes
pub mod Refinement
pub mod Batched
pub mod Batch
pub mod BlockIndexer
pub mod Logged
use godcoin_js_legacy.Prelude.{
  ℕ, List, [], ◌∷◌, ◌++◌, map, Bool, true, false, Option, none, some, Bytes, ℤ, pos, Result, ok,
  type_error, defined, ◌>>=◌, take, drop, leb, if◌then◌else◌,
}
use godcoin_js_legacy.Neon.{Neon, Asset, PublicKey}
use godcoin_js_legacy.Packages.{Level, Packages, Long}
use godcoin_js_legacy.Buffers.{write_int32_be, read_int32_be}

pub record Bond : Type 0 where
  pub minter : PublicKey
  pub staker : PublicKey
  pub stake_amt : Asset

-- The constants of `IndexProp`, the two names by their bytes.
abbrev pub namespace_main : Bytes
namespace_main = 0 ∷ []

abbrev pub namespace_block : Bytes
namespace_block = 1 ∷ []

abbrev pub namespace_tx : Bytes
namespace_tx = 2 ∷ []

abbrev pub namespace_bal : Bytes
namespace_bal = 3 ∷ []

abbrev pub namespace_bond : Bytes
namespace_bond = 4 ∷ []

-- CURRENT_BLOCK_HEIGHT
abbrev pub key_current_block_height : Bytes
key_current_block_height =
    67 ∷ 85 ∷ 82 ∷ 82 ∷ 69 ∷ 78 ∷ 84 ∷ 95 ∷ 66 ∷ 76 ∷ 79 ∷ 67 ∷ 75 ∷ 95 ∷ 72 ∷ 69 ∷ 73 ∷ 71 ∷ 72
    ∷ 84 ∷ []

-- TOKEN_SUPPLY
abbrev pub key_token_supply : Bytes
key_token_supply = 84 ∷ 79 ∷ 75 ∷ 69 ∷ 78 ∷ 95 ∷ 83 ∷ 85 ∷ 80 ∷ 80 ∷ 76 ∷ 89 ∷ []

pub record Index (Db : Type 0) : Type 0 where
  pub db : Db
  pub timers : List (Bytes × ℕ)

-- `new Long(low, high, true)` of the two words of the stored value
unfoldable pub decode_pos : Bytes → Result (Option Long)
decode_pos value = do
  high_word ← defined (read_int32_be value) type_error
  low_word ← defined (read_int32_be (drop 4 value)) type_error
  ok (some (record { high = high_word; low = low_word }))

unfoldable pub encode_pos : Long → Bytes
encode_pos byte_pos = write_int32_be byte_pos.high ++ write_int32_be byte_pos.low

-- `if (!buf) return;` before a value is decoded
abbrev pub or_undefined :
    {A : Type 0} → (Bytes → Result (Option A)) → Option Bytes → Result (Option A)
or_undefined decode none = ok none
or_undefined decode (some buf) = decode buf

abbrev pub is_defined : Option Bytes → Bool
is_defined none = false
is_defined (some _) = true

abbrev pub decode_height : Bytes → Result (Option ℤ)
decode_height buf = do h ← defined (read_int32_be buf) type_error; ok (some h)

-- How values are written in the database.
module _ ⦃n : Neon⦄ ⦃p : Packages⦄ where
  unfoldable pub decode_bond : PublicKey → Bytes → Result (Option Bond)
  decode_bond minter bond_buf = do
    amt ← defined (n.parse_asset (drop p.public_key_bytes bond_buf)) type_error
    ok (
        some (record {
          minter = minter;
          staker = record { buffer = take p.public_key_bytes bond_buf };
          stake_amt = amt;
        }))

  -- two assets as the array of their strings
  unfoldable pub decode_assets : Bytes → Result (Asset × Asset)
  decode_assets value = do
    texts ← defined (p.read_json value) type_error
    gold_asset ← defined (n.parse_asset texts.0) type_error
    silver_asset ← defined (n.parse_asset texts.1) type_error
    ok (gold_asset, silver_asset)

  abbrev pub decode_balance : Bytes → Result (Option (Asset × Asset))
  decode_balance value = do assets ← decode_assets value; ok (some assets)

  abbrev pub decode_supply : Option Bytes → Result (Asset × Asset)
  decode_supply none = ok (n.empty_gold, n.empty_silver)
  decode_supply (some value) = decode_assets value

  unfoldable pub encode_assets : Asset × Asset → Bytes
  encode_assets a = p.write_json (n.print_asset a.0, n.print_asset a.1)

module _ {Db : Type 0} ⦃n : Neon⦄ ⦃p : Packages⦄ ⦃l : Level Db⦄ where
  unfoldable pub get_prop : Index Db → Bytes → Bytes → Option Bytes
  get_prop i ns prop = l.get i.db (ns ++ prop)

  unfoldable pub set_prop : Bytes → Bytes → Bytes → Index Db → Index Db
  set_prop ns prop value i = record i { db = l.put i.db (ns ++ prop) value }

  unfoldable pub del_prop : Bytes → Bytes → Index Db → Index Db
  del_prop ns prop i = record i { db = l.del i.db (ns ++ prop) }

  unfoldable pub expire_tx_timeout : Bytes → ℕ → Index Db → Index Db
  expire_tx_timeout tx expiry i = record i { timers = i.timers ++ (tx, expiry) ∷ [] }

  -- the body of the timer, for the timers that are due at `now`
  unfoldable pub fire_timers : ℕ → List (Bytes × ℕ) → Index Db → Index Db
  fire_timers now [] i = record i { timers = [] }
  fire_timers now ((tx, expiry) ∷ rest) i =
      let i' = fire_timers now rest i in
      if leb expiry now
      then del_prop namespace_tx tx i'
      else record i' { timers = (tx, expiry) ∷ i'.timers }

  -- `init`: a timer for every transaction that the database still holds
  unfoldable pub init : Index Db → Index Db
  init i = record i {
    timers = i.timers ++ map (λ e. (drop 1 e.0, p.read_double_be e.1)) (l.entries i.db 2);
  }

  unfoldable pub has_tx : Index Db → Bytes → Bool
  has_tx i tx_buf = is_defined (get_prop i namespace_tx tx_buf)

  unfoldable pub add_tx : Bytes → ℕ → Index Db → Index Db
  add_tx tx expiry i =
      expire_tx_timeout tx expiry (set_prop namespace_tx tx (p.write_double_be expiry) i)

  unfoldable pub get_bond : Index Db → PublicKey → Result (Option Bond)
  get_bond i minter = or_undefined (decode_bond minter) (get_prop i namespace_bond minter.buffer)

  unfoldable pub set_bond : Bond → Index Db → Index Db
  set_bond bond i =
      set_prop namespace_bond bond.minter.buffer
        (bond.staker.buffer ++ n.print_asset bond.stake_amt) i

  unfoldable pub get_balance : Index Db → PublicKey → Result (Option (Asset × Asset))
  get_balance i key = or_undefined decode_balance (get_prop i namespace_bal key.buffer)

  unfoldable pub get_block_pos : Index Db → ℕ → Result (Option Long)
  get_block_pos i height =
      or_undefined decode_pos (get_prop i namespace_block (write_int32_be (pos height)))

  unfoldable pub set_block_pos : ℕ → Long → Index Db → Index Db
  set_block_pos height byte_pos i =
      set_prop namespace_block (write_int32_be (pos height)) (encode_pos byte_pos) i

  unfoldable pub get_chain_height : Index Db → Result (Option ℤ)
  get_chain_height i =
      or_undefined decode_height (get_prop i namespace_main key_current_block_height)

  unfoldable pub set_chain_height : ℕ → Index Db → Index Db
  set_chain_height height i =
      set_prop namespace_main key_current_block_height (write_int32_be (pos height)) i

  unfoldable pub get_token_supply : Index Db → Result (Asset × Asset)
  get_token_supply i = decode_supply (get_prop i namespace_main key_token_supply)

  unfoldable pub set_token_supply : Asset × Asset → Index Db → Index Db
  set_token_supply supply i = set_prop namespace_main key_token_supply (encode_assets supply) i
