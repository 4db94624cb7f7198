-- ===== src/Indexer/Maps.antt =====
-- The abstract view of the index, six maps of which a write changes one, and the writes of the code.
use godcoin_js_legacy.Prelude.{
  ℕ, ◌<◌, ◌^◌, ◌≡◌, List, [], ◌∷◌, Bool, true, Option, some, Bytes, bytes_equal, eqb, if◌then◌else◌,
  ℤ, pos, ok, length,
}
use godcoin_js_legacy.Neon.{Neon, Asset, PublicKey}
use godcoin_js_legacy.Packages.{Level, Packages, Long}
use godcoin_js_legacy.Indexer.{
  Index, Bond, set_prop, has_tx, add_tx, get_bond, set_bond, get_balance, get_block_pos,
  set_block_pos, get_chain_height, set_chain_height, get_token_supply, set_token_supply,
  encode_assets, namespace_bal,
}
use godcoin_js_legacy.Indexer.Props.{FitsLong}

-- What the index stands for.
pub record Maps : Type 0 where
  pub seen : Bytes → Bool
  pub bonds : PublicKey → Option Bond
  pub balances : PublicKey → Option (Asset × Asset)
  pub positions : ℕ → Option Long
  pub height : Option ℤ
  pub supply : Asset × Asset

-- The writes of the code; `put_balance` is one entry of `BatchIndex.flushBalances`.
pub data Write : Type 0 where
  put_tx : Bytes → ℕ → Write
  put_bond : Bond → Write
  put_balance : PublicKey → Asset × Asset → Write
  put_pos : ℕ → Long → Write
  put_height : ℕ → Write
  put_supply : Asset × Asset → Write

-- what the formats hold: a key of the fixed length, 31 bits of a height
abbrev pub Fits : ⦃p : Packages⦄ → Write → Type 0
Fits (put_tx tx expiry) = Unit
Fits ⦃p⦄ (put_bond b) = length (b.staker).buffer ≡ p.public_key_bytes
Fits (put_balance k a) = Unit
Fits (put_pos h w) = (h < 2 ^ 31) × FitsLong w
Fits (put_height h) = h < 2 ^ 31
Fits (put_supply a) = Unit

abbrev pub same_key : PublicKey → PublicKey → Bool
same_key a b = bytes_equal a.buffer b.buffer

-- The specification: one map changes at one key.
abbrev pub step : Write → Maps → Maps
step (put_tx tx expiry) m = record m { seen = λ t. if bytes_equal tx t then true else m.seen t }
step (put_bond b) m = record m { bonds = λ k. if same_key b.minter k then some b else m.bonds k }
step (put_balance key a) m = record m {
  balances = λ k. if same_key key k then some a else m.balances k;
}
step (put_pos h w) m = record m { positions = λ k. if eqb h k then some w else m.positions k }
step (put_height h) m = record m { height = some (pos h) }
step (put_supply a) m = record m { supply = a }

module _ {Db : Type 0} ⦃n : Neon⦄ ⦃p : Packages⦄ ⦃l : Level Db⦄ where
  -- The code's writes.
  unfoldable pub run_write : Write → Index Db → Index Db
  run_write (put_tx tx expiry) i = add_tx tx expiry i
  run_write (put_bond b) i = set_bond b i
  run_write (put_balance key a) i = set_prop namespace_bal key.buffer (encode_assets a) i
  run_write (put_pos h w) i = set_block_pos h w i
  run_write (put_height h) i = set_chain_height h i
  run_write (put_supply a) i = set_token_supply a i

  unfoldable pub run_writes : List Write → Index Db → Index Db
  run_writes [] i = i
  run_writes (w ∷ ws) i = run_writes ws (run_write w i)

  -- The code's reads of the index answer as the maps do.
  pub record Refines (i : Index Db) (m : Maps) : Type 0 where
    pub seen : (t : Bytes) → has_tx i t ≡ m.seen t
    pub bonds : (k : PublicKey) → get_bond i k ≡ ok (m.bonds k)
    pub balances : (k : PublicKey) → get_balance i k ≡ ok (m.balances k)
    pub positions : (h : ℕ) → h < 2 ^ 31 → get_block_pos i h ≡ ok (m.positions h)
    pub height : get_chain_height i ≡ ok m.height
    pub supply : get_token_supply i ≡ ok m.supply

abbrev pub steps : List Write → Maps → Maps
steps [] m = m
steps (w ∷ ws) m = steps ws (step w m)
