-- ===== src/Indexer/Writes.antt =====
-- Each write of the index against its map.
use godcoin_js_legacy.Prelude.{
  ◌∙◌, ℕ, ◌<◌, ◌^◌, ◌≡◌, refl, ap, ◌++◌, List, [], ◌∷◌, true, some, arith, Bytes, bytes_equal,
  bytes_equal_iff, eqb, if◌then◌else◌, pos, ok, length, Bool-cases, inl, inr,
}
use godcoin_js_legacy.Neon.{Neon, Asset, PublicKey}
use godcoin_js_legacy.Neon.Laws.{NeonLaws}
use godcoin_js_legacy.Packages.{Level, LevelLaws, Packages, PackagesLaws, Long}
use godcoin_js_legacy.Buffers.{write_int32_be}
use godcoin_js_legacy.Buffers.Words.{read_int32_be-write_all}
use godcoin_js_legacy.Indexer.{
  Index, Bond, get_prop, set_prop, has_tx, add_tx, get_bond, set_bond, get_balance, get_block_pos,
  set_block_pos, get_chain_height, set_chain_height, get_token_supply, set_token_supply,
  encode_assets, encode_pos, decode_bond, decode_pos, decode_balance, decode_supply, decode_height,
  or_undefined, is_defined, key_current_block_height, key_token_supply, expire_tx_timeout,
  namespace_bal,
}
use godcoin_js_legacy.Indexer.Props.{
  bytes_equal-height, decode_assets-encode, decode_bond-encode, decode_pos-encode, FitsLong,
}
use godcoin_js_legacy.Indexer.Frames.{
  has_tx-set_prop_ne, get_bond-set_prop_ne, get_balance-set_prop_ne, get_block_pos-set_prop_ne,
  get_chain_height-set_prop_ne, get_token_supply-set_prop_ne, get_prop-set_prop_same,
  get_prop-set_prop_apart,
}
use godcoin_js_legacy.Indexer.Maps.{
  Maps, put_tx, put_bond, put_balance, put_pos, put_height, put_supply, same_key, step, Refines,
}

module _ {Db : Type 0} ⦃n : Neon⦄ ⦃p : Packages⦄ ⦃l : Level Db⦄ (nl : NeonLaws n)
    (pl : PackagesLaws p) (ll : LevelLaws l) where
  Refines-timers :
      {i : Index Db} {m : Maps} (t : List (Bytes × ℕ))
      → Refines i m
      → Refines (record i { timers = t }) m
  unfolding get_prop has_tx get_bond get_balance get_block_pos get_chain_height get_token_supply
  Refines-timers t r = record {
    seen = r.seen;
    bonds = r.bonds;
    balances = r.balances;
    positions = r.positions;
    height = r.height;
    supply = r.supply;
  }

  pub put_tx-Refines :
      (tx : Bytes) (expiry : ℕ) {i : Index Db} {m : Maps}
      → Refines i m
      → Refines (add_tx tx expiry i) (step (put_tx tx expiry) m)
  unfolding add_tx expire_tx_timeout
  put_tx-Refines tx expiry {i} {m} r =
      let v = p.write_double_be expiry in
      Refines-timers _ (record {
        seen = seen-self;
        bonds = λ k. get_bond-set_prop_ne ll 2 tx v i k refl ∙ r.bonds k;
        balances = λ k. get_balance-set_prop_ne ll 2 tx v i k refl ∙ r.balances k;
        positions = λ h f. get_block_pos-set_prop_ne ll 2 tx v i h refl ∙ r.positions h f;
        height = get_chain_height-set_prop_ne ll 2 tx v i refl ∙ r.height;
        supply = get_token_supply-set_prop_ne ll 2 tx v i refl ∙ r.supply;
      })
    where
      seen-self :
          (t : Bytes)
          → has_tx (set_prop (2 ∷ []) tx (p.write_double_be expiry) i) t
            ≡ (if bytes_equal tx t then true else m.seen t)
      seen-self t = elim (Bool-cases (bytes_equal tx t)) [
        | inl e ↦ rw e (unfold has_tx in ap is_defined (get_prop-set_prop_same ll 2 tx _ i t e))
        | inr e ↦ rw e (
            rw (← r.seen t)
              (unfold has_tx in ap is_defined (get_prop-set_prop_apart ll 2 tx _ i t e)))
      ]

  pub put_bond-Refines :
      (b : Bond)
      → length (b.staker).buffer ≡ p.public_key_bytes
      → {i : Index Db} {m : Maps} → Refines i m
      → Refines (set_bond b i) (step (put_bond b) m)
  unfolding set_bond
  put_bond-Refines b fits {i} {m} r = record {
    seen = λ t. has_tx-set_prop_ne ll 4 k v i t refl ∙ r.seen t;
    bonds = bonds-self;
    balances = λ j. get_balance-set_prop_ne ll 4 k v i j refl ∙ r.balances j;
    positions = λ h f. get_block_pos-set_prop_ne ll 4 k v i h refl ∙ r.positions h f;
    height = get_chain_height-set_prop_ne ll 4 k v i refl ∙ r.height;
    supply = get_token_supply-set_prop_ne ll 4 k v i refl ∙ r.supply;
  }
    where
      k : Bytes
      k = (b.minter).buffer

      v : Bytes
      v = (b.staker).buffer ++ n.print_asset b.stake_amt

      read_bond :
          (j : PublicKey)
          → get_bond (set_prop (4 ∷ []) k v i) j
            ≡ or_undefined (decode_bond j) (get_prop (set_prop (4 ∷ []) k v i) (4 ∷ []) j.buffer)
      read_bond j = unfold get_bond in refl

      bonds-self :
          (j : PublicKey)
          → get_bond (set_prop (4 ∷ []) k v i) j
            ≡ ok (if same_key b.minter j then some b else m.bonds j)
      bonds-self j = elim (Bool-cases (bytes_equal k j.buffer)) [
        | inl e ↦
            let same : b.minter ≡ j =
              ap (λ x. record { buffer = x }) ((bytes_equal_iff k j.buffer).0 e) in
            read_bond j
            ∙ ap (or_undefined (decode_bond j)) (get_prop-set_prop_same ll 4 k v i j.buffer e)
            ∙ rw (← same) (rw ((bytes_equal_iff k k).1 refl) (decode_bond-encode nl pl b fits))
        | inr e ↦ rw e (
            rw (← r.bonds j) (
              unfold get_bond in
              ap (or_undefined (decode_bond j)) (get_prop-set_prop_apart ll 4 k v i j.buffer e)))
      ]

  pub put_balance-Refines :
      (key : PublicKey) (a : Asset × Asset) {i : Index Db} {m : Maps}
      → Refines i m
      → Refines (set_prop namespace_bal key.buffer (encode_assets a) i) (step (put_balance key a) m)
  put_balance-Refines key a {i} {m} r = record {
    seen = λ t. has_tx-set_prop_ne ll 3 k v i t refl ∙ r.seen t;
    bonds = λ j. get_bond-set_prop_ne ll 3 k v i j refl ∙ r.bonds j;
    balances = balances-self;
    positions = λ h f. get_block_pos-set_prop_ne ll 3 k v i h refl ∙ r.positions h f;
    height = get_chain_height-set_prop_ne ll 3 k v i refl ∙ r.height;
    supply = get_token_supply-set_prop_ne ll 3 k v i refl ∙ r.supply;
  }
    where
      k : Bytes
      k = key.buffer

      v : Bytes
      v = encode_assets a

      found : decode_balance v ≡ ok (some a)
      found = rw (decode_assets-encode nl pl a)

      read_balance :
          (j : PublicKey)
          → get_balance (set_prop (3 ∷ []) k v i) j
            ≡ or_undefined decode_balance (get_prop (set_prop (3 ∷ []) k v i) (3 ∷ []) j.buffer)
      read_balance j = unfold get_balance in refl

      balances-self :
          (j : PublicKey)
          → get_balance (set_prop (3 ∷ []) k v i) j
            ≡ ok (if same_key key j then some a else m.balances j)
      balances-self j = elim (Bool-cases (bytes_equal k j.buffer)) [
        | inl e ↦ rw e (
            read_balance j
            ∙ ap (or_undefined decode_balance) (get_prop-set_prop_same ll 3 k v i j.buffer e)
            ∙ found)
        | inr e ↦ rw e (
            rw (← r.balances j) (
              unfold get_balance in
              ap (or_undefined decode_balance) (get_prop-set_prop_apart ll 3 k v i j.buffer e)))
      ]

  pub put_pos-Refines :
      (h : ℕ) (w : Long)
      → h < 2 ^ 31
      → FitsLong w
      → {i : Index Db} {m : Maps} → Refines i m
      → Refines (set_block_pos h w i) (step (put_pos h w) m)
  unfolding set_block_pos
  put_pos-Refines height' w small fits {i} {m} r = record {
    seen = λ t. has_tx-set_prop_ne ll 1 k v i t refl ∙ r.seen t;
    bonds = λ j. get_bond-set_prop_ne ll 1 k v i j refl ∙ r.bonds j;
    balances = λ j. get_balance-set_prop_ne ll 1 k v i j refl ∙ r.balances j;
    positions = positions-self;
    height = get_chain_height-set_prop_ne ll 1 k v i refl ∙ r.height;
    supply = get_token_supply-set_prop_ne ll 1 k v i refl ∙ r.supply;
  }
    where
      k : Bytes
      k = write_int32_be (pos height')

      v : Bytes
      v = encode_pos w

      read_pos :
          (j : ℕ)
          → get_block_pos (set_prop (1 ∷ []) k v i) j
            ≡ or_undefined decode_pos
                (get_prop (set_prop (1 ∷ []) k v i) (1 ∷ []) (write_int32_be (pos j)))
      read_pos j = unfold get_block_pos in refl

      positions-self :
          (j : ℕ)
          → j < 2 ^ 31
          → get_block_pos (set_prop (1 ∷ []) k v i) j
            ≡ ok (if eqb height' j then some w else m.positions j)
      positions-self j f =
          let keys = bytes_equal-height height' j small f in
          elim (Bool-cases (eqb height' j)) [
            | inl e ↦ rw e (
                read_pos j
                ∙ ap (or_undefined decode_pos)
                    (get_prop-set_prop_same ll 1 k v i (write_int32_be (pos j)) (keys ∙ e))
                ∙ decode_pos-encode w fits)
            | inr e ↦ rw e (
                rw (← r.positions j f) (
                  unfold get_block_pos in
                  ap (or_undefined decode_pos)
                    (get_prop-set_prop_apart ll 1 k v i (write_int32_be (pos j)) (keys ∙ e))))
          ]

  pub put_height-Refines :
      (h : ℕ)
      → h < 2 ^ 31
      → {i : Index Db} {m : Maps} → Refines i m
      → Refines (set_chain_height h i) (step (put_height h) m)
  unfolding set_chain_height
  put_height-Refines new small {i} {m} r = record {
    seen = λ t. has_tx-set_prop_ne ll 0 k v i t refl ∙ r.seen t;
    bonds = λ j. get_bond-set_prop_ne ll 0 k v i j refl ∙ r.bonds j;
    balances = λ j. get_balance-set_prop_ne ll 0 k v i j refl ∙ r.balances j;
    positions = λ h f. get_block_pos-set_prop_ne ll 0 k v i h refl ∙ r.positions h f;
    height = height-self;
    supply = get_token_supply-set_prop_ne ll 0 k v i (unfold bytes_equal in refl) ∙ r.supply;
  }
    where
      k : Bytes
      k = key_current_block_height

      v : Bytes
      v = write_int32_be (pos new)

      height-self : get_chain_height (set_prop (0 ∷ []) k v i) ≡ ok (some (pos new))
      height-self =
          unfold get_chain_height in
          ap (or_undefined decode_height)
            (get_prop-set_prop_same ll 0 k v i k ((bytes_equal_iff k k).1 refl))
          ∙ rw (read_int32_be-write_all (pos new) (omega arith) (omega arith))

  pub put_supply-Refines :
      (a : Asset × Asset) {i : Index Db} {m : Maps}
      → Refines i m
      → Refines (set_token_supply a i) (step (put_supply a) m)
  unfolding set_token_supply
  put_supply-Refines a {i} {m} r = record {
    seen = λ t. has_tx-set_prop_ne ll 0 k v i t refl ∙ r.seen t;
    bonds = λ j. get_bond-set_prop_ne ll 0 k v i j refl ∙ r.bonds j;
    balances = λ j. get_balance-set_prop_ne ll 0 k v i j refl ∙ r.balances j;
    positions = λ h f. get_block_pos-set_prop_ne ll 0 k v i h refl ∙ r.positions h f;
    height = get_chain_height-set_prop_ne ll 0 k v i (unfold bytes_equal in refl) ∙ r.height;
    supply = supply-self;
  }
    where
      k : Bytes
      k = key_token_supply

      v : Bytes
      v = encode_assets a

      supply-self : get_token_supply (set_prop (0 ∷ []) k v i) ≡ ok a
      supply-self =
          unfold get_token_supply in
          ap decode_supply (get_prop-set_prop_same ll 0 k v i k ((bytes_equal_iff k k).1 refl))
          ∙ decode_assets-encode nl pl a
