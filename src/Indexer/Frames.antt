-- ===== src/Indexer/Frames.antt =====
-- What a write under one namespace leaves alone, and what it changes.
use godcoin_js_legacy.Prelude.{
  ◌&&◌, ℕ, ◌≡◌, refl, ap, [], ◌∷◌, true, false, some, Bytes, bytes_equal, eqb, eqb_iff, pos,
}
use godcoin_js_legacy.Neon.{Neon, PublicKey}
use godcoin_js_legacy.Packages.{Level, LevelLaws, Packages}
use godcoin_js_legacy.Buffers.{write_int32_be}
use godcoin_js_legacy.Indexer.{
  Index, get_prop, set_prop, has_tx, get_bond, get_balance, get_block_pos, get_chain_height,
  get_token_supply, decode_bond, decode_pos, decode_balance, decode_supply, decode_height,
  or_undefined, is_defined, key_current_block_height, key_token_supply,
}
use godcoin_js_legacy.Indexer.Props.{get_prop-set_prop}

module _ {Db : Type 0} ⦃n : Neon⦄ ⦃p : Packages⦄ ⦃l : Level Db⦄ (ll : LevelLaws l) where
  module _ (a : ℕ) (k v : Bytes) (i : Index Db) where
    pub has_tx-set_prop_ne :
        (t : Bytes) → eqb a 2 ≡ false → has_tx (set_prop (a ∷ []) k v i) t ≡ has_tx i t
    unfolding has_tx
    has_tx-set_prop_ne t h = ap is_defined (rw (get_prop-set_prop ll a 2 k t v i, h))

    pub get_bond-set_prop_ne :
        (m : PublicKey) → eqb a 4 ≡ false → get_bond (set_prop (a ∷ []) k v i) m ≡ get_bond i m
    unfolding get_bond
    get_bond-set_prop_ne m h =
        ap (or_undefined (decode_bond m)) (rw (get_prop-set_prop ll a 4 k m.buffer v i, h))

    pub get_balance-set_prop_ne :
        (m : PublicKey)
        → eqb a 3 ≡ false
        → get_balance (set_prop (a ∷ []) k v i) m ≡ get_balance i m
    unfolding get_balance
    get_balance-set_prop_ne m h =
        ap (or_undefined decode_balance) (rw (get_prop-set_prop ll a 3 k m.buffer v i, h))

    pub get_block_pos-set_prop_ne :
        (m : ℕ) → eqb a 1 ≡ false → get_block_pos (set_prop (a ∷ []) k v i) m ≡ get_block_pos i m
    unfolding get_block_pos
    get_block_pos-set_prop_ne m h =
        ap (or_undefined decode_pos)
          (rw (get_prop-set_prop ll a 1 k (write_int32_be (pos m)) v i, h))

    pub get_chain_height-set_prop_ne :
        (eqb a 0 && bytes_equal k key_current_block_height) ≡ false
        → get_chain_height (set_prop (a ∷ []) k v i) ≡ get_chain_height i
    unfolding get_chain_height
    get_chain_height-set_prop_ne h =
        ap (or_undefined decode_height)
          (rw (get_prop-set_prop ll a 0 k key_current_block_height v i, h))

    pub get_token_supply-set_prop_ne :
        (eqb a 0 && bytes_equal k key_token_supply) ≡ false
        → get_token_supply (set_prop (a ∷ []) k v i) ≡ get_token_supply i
    unfolding get_token_supply
    get_token_supply-set_prop_ne h =
        ap decode_supply (rw (get_prop-set_prop ll a 0 k key_token_supply v i, h))

  -- what a key holds after a write to its namespace, by whether the keys are one
  module _ (a : ℕ) (k v : Bytes) (i : Index Db) (j : Bytes) where
    pub get_prop-set_prop_same :
        bytes_equal k j ≡ true → get_prop (set_prop (a ∷ []) k v i) (a ∷ []) j ≡ some v
    get_prop-set_prop_same e = rw (get_prop-set_prop ll a a k j v i, (eqb_iff a a).1 refl, e)

    pub get_prop-set_prop_apart :
        bytes_equal k j ≡ false
        → get_prop (set_prop (a ∷ []) k v i) (a ∷ []) j ≡ get_prop i (a ∷ []) j
    get_prop-set_prop_apart e = rw (get_prop-set_prop ll a a k j v i, (eqb_iff a a).1 refl, e)
