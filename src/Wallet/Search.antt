-- ===== src/Wallet/Search.antt =====
-- `findTx` of src/cli/wallet/util.ts. Its loop reads the clock and asks for a block in each round; the
-- readings and the answers are arguments, by round, and the rounds are the fuel.
use godcoin_js_legacy.Prelude.{
  ℕ, zero, suc, ◌+◌, ◌≤◌, ◌<◌, ◌≡◌, ◌≢◌, refl, ap, ◌∙◌, List, [], ◌∷◌, Bool, true, false, Option,
  none, some, Bytes, Error, Result, ok, err, arith, ltb, ltb→lt, ◌==◌, bytes_eq, bytes_equal,
  bytes_equal_iff, get_elem?, Bool-cases, inl, inr,
}
use mathlib.Core.Path.{subst}
use godcoin_js_legacy.Neon.{Neon, Tx, SignedBlock, time_of}
use godcoin_js_legacy.Assets.{tx_expiry_time}

pub record TxRef : Type 0 where
  pub ref_block : ℕ
  pub ref_tx_pos : ℕ

-- how the search ends; `undefined` is `expired`
pub data SearchEnd : Type 0 where
  found : TxRef → SearchEnd
  expired out_of_rounds : SearchEnd
  threw : Error → SearchEnd

module _ ⦃n : Neon⦄ where
  -- the place of the first transaction with these bytes, from the place `i`
  unfoldable pub find_in : Bytes → ℕ → List Tx → Option ℕ
  find_in buf i [] = none
  find_in buf i (tx ∷ txs) =
      let rest = find_in buf (i + 1) txs in
      elim (buf == n.encode_with_sigs tx) [ true ↦ some i | false ↦ rest ]

  -- by the place in the block, with what the next round gives
  abbrev pub at_place : Option ℕ → ℕ → SearchEnd → SearchEnd
  at_place (some i) height next = found (record { ref_block = height; ref_tx_pos = i })
  at_place none height next = next

  -- by the answer for the height, with what a further round gives at this height and at the former one
  abbrev pub in_block : Result (Option SignedBlock) → Bytes → ℕ → SearchEnd → SearchEnd → SearchEnd
  in_block (err e) buf height next again = threw e
  in_block (ok none) buf height next again = again
  in_block (ok (some block)) buf height next again =
      at_place (find_in buf 0 block.transactions) height next

  abbrev pub while_before : Bool → SearchEnd → SearchEnd
  while_before true body = body
  while_before false body = expired

  module _ (clock : ℕ → ℕ) (get_block : ℕ → ℕ → Result (Option SignedBlock)) where
    -- from the round `k`
    unfoldable pub search : ℕ → ℕ → ℕ → Bytes → ℕ → SearchEnd
    search zero k exp buf height = out_of_rounds
    search (suc rounds) k exp buf height =
        let next = search rounds (k + 1) exp buf (height + 1) in
        let again = search rounds (k + 1) exp buf height in
        while_before (ltb (clock k) exp)
          (in_block (get_block k (height + 1)) buf (height + 1) next again)

    unfoldable pub find_tx : ℕ → ℕ → Tx → SearchEnd
    find_tx rounds height tx =
        search rounds 0 (time_of tx + tx_expiry_time) (n.encode_with_sigs tx) height

    -- a transaction with these bytes, in a block that was given in time
    pub record IsFound (exp : ℕ) (buf : Bytes) (height : ℕ) (ref : TxRef) : Type 0 where
      pub round : ℕ
      pub block : SignedBlock
      pub tx : Tx
      pub above : height < ref.ref_block
      pub in_time : clock round < exp
      pub given : get_block round ref.ref_block ≡ ok (some block)
      pub at_place : get_elem? block.transactions ref.ref_tx_pos ≡ some tx
      pub same_bytes : buf ≡ n.encode_with_sigs tx

  same_place : (i j : ℕ) → i ≡ 0 + j → i ≡ j
  same_place i j e = omega (arith, e)

  find_in_lem :
      (buf : Bytes) (i : ℕ) (txs : List Tx) {j : ℕ}
      → find_in buf i txs ≡ some j
      → (k : ℕ) × (tx : Tx) × (j ≡ i + k)
        × (get_elem? txs k ≡ some tx)
        × (buf ≡ n.encode_with_sigs tx)
  unfolding find_in
  find_in_lem buf i [] h = absurd (ground (arith, h))
  find_in_lem buf i (tx ∷ txs) {j} h = elim (Bool-cases (bytes_equal buf (n.encode_with_sigs tx))) [
    | inl e ↦ (0, tx, ground (arith, h, e), refl, (bytes_equal_iff buf (n.encode_with_sigs tx)).0 e)
    | inr e ↦
        let (k, t, at, got, same) = find_in_lem buf (i + 1) txs {j = j} (ground (arith, h, e)) in
        (suc k, t, omega (arith, at), got, same)
  ]

  while_before-found :
      (b : Bool) (body : SearchEnd) (ref : TxRef)
      → while_before b body ≡ found ref
      → (b ≡ true) × (body ≡ found ref)
  while_before-found true body ref h = (refl, h)
  while_before-found false body ref h = absurd (ground (arith, h))

  while_before-ends :
      (b : Bool) (body : SearchEnd)
      → (b ≡ true → body ≢ out_of_rounds)
      → while_before b body ≢ out_of_rounds
  while_before-ends true body ends h = ends refl h
  while_before-ends false body ends h = absurd (ground (arith, h))

  at_place-ends :
      (o : Option ℕ) (height : ℕ) (next : SearchEnd)
      → next ≢ out_of_rounds
      → at_place o height next ≢ out_of_rounds
  at_place-ends none height next ends h = ends h
  at_place-ends (some i) height next ends h = absurd (ground (arith, h))

  in_block-ends :
      (r : Result (Option SignedBlock)) (buf : Bytes) (height : ℕ) (next again : SearchEnd)
      → next ≢ out_of_rounds
      → again ≢ out_of_rounds
      → in_block r buf height next again ≢ out_of_rounds
  in_block-ends (err e) buf height next again ends ends' h = absurd (ground (arith, h))
  in_block-ends (ok none) buf height next again ends ends' h = ends' h
  in_block-ends (ok (some block)) buf height next again ends ends' h =
      at_place-ends (find_in buf 0 block.transactions) height next ends h

  module _ (clock : ℕ → ℕ) (get_block : ℕ → ℕ → Result (Option SignedBlock)) where
    higher :
        (exp : ℕ) (buf : Bytes) (height : ℕ) (ref : TxRef)
        → IsFound clock get_block exp buf (height + 1) ref
        → IsFound clock get_block exp buf height ref
    higher exp buf height ref f = record {
      round = f.round;
      block = f.block;
      tx = f.tx;
      above = omega (arith, f.above);
      in_time = f.in_time;
      given = f.given;
      at_place = f.at_place;
      same_bytes = f.same_bytes;
    }

    at_place-IsFound :
        (o : Option ℕ) (k exp : ℕ) (buf : Bytes) (height : ℕ) (block : SignedBlock)
        (next : SearchEnd) (ref : TxRef)
        → find_in buf 0 block.transactions ≡ o
        → clock k < exp
        → get_block k (height + 1) ≡ ok (some block)
        → (next ≡ found ref → IsFound clock get_block exp buf height ref)
        → at_place o (height + 1) next ≡ found ref
        → IsFound clock get_block exp buf height ref
    at_place-IsFound none k exp buf height block next ref e early given later h = later h
    at_place-IsFound (some i) k exp buf height block next ref e early given later h =
        let (j, tx, at, got, same) = find_in_lem buf 0 block.transactions e in
        subst (IsFound clock get_block exp buf height) (ground (arith, h)) (record {
          round = k;
          block = block;
          tx = tx;
          above = omega arith;
          in_time = early;
          given = given;
          at_place = ap (get_elem? block.transactions) (same_place i j at) ∙ got;
          same_bytes = same;
        })

    in_block-IsFound :
        (r : Result (Option SignedBlock)) (k exp : ℕ) (buf : Bytes) (height : ℕ)
        (next again : SearchEnd) (ref : TxRef)
        → clock k < exp
        → get_block k (height + 1) ≡ r
        → (next ≡ found ref → IsFound clock get_block exp buf height ref)
        → (again ≡ found ref → IsFound clock get_block exp buf height ref)
        → in_block r buf (height + 1) next again ≡ found ref
        → IsFound clock get_block exp buf height ref
    in_block-IsFound (err e) k exp buf height next again ref early given later same h =
        absurd (ground (arith, h))
    in_block-IsFound (ok none) k exp buf height next again ref early given later same h = same h
    in_block-IsFound (ok (some block)) k exp buf height next again ref early given later same h =
        at_place-IsFound (find_in buf 0 block.transactions) k exp buf height block next ref refl
          early given later h

    search-IsFound :
        (rounds k exp : ℕ) (buf : Bytes) (height : ℕ) (ref : TxRef)
        → search clock get_block rounds k exp buf height ≡ found ref
        → IsFound clock get_block exp buf height ref
    unfolding search
    search-IsFound zero k exp buf height ref h = absurd (ground (arith, h))
    search-IsFound (suc rounds) k exp buf height ref h =
        let (early, body) = while_before-found (ltb (clock k) exp) _ ref h in
        in_block-IsFound (get_block k (height + 1)) k exp buf height _ _ ref
          (ltb→lt (clock k) exp early) refl
          (λ x.
            higher exp buf height ref (search-IsFound rounds (k + 1) exp buf (height + 1) ref x))
          (search-IsFound rounds (k + 1) exp buf height ref) body

    -- A reference that findTx finds is above the height at which it began, and is the place of a
    -- transaction with the same bytes in the block that was given for that height before the
    -- transaction expired.
    pub find_tx-IsFound :
        (rounds height : ℕ) (tx : Tx) (ref : TxRef)
        → find_tx clock get_block rounds height tx ≡ found ref
        → IsFound clock get_block (time_of tx + tx_expiry_time) (n.encode_with_sigs tx) height ref
    unfolding find_tx
    find_tx-IsFound rounds height tx ref h =
        search-IsFound rounds 0 (time_of tx + tx_expiry_time) (n.encode_with_sigs tx) height ref h

    search-ends :
        (rounds k exp : ℕ) (buf : Bytes) (height : ℕ)
        → ((i : ℕ) → clock i < clock (i + 1))
        → exp ≤ clock k + rounds
        → search clock get_block (suc rounds) k exp buf height ≢ out_of_rounds
    unfolding search
    search-ends zero k exp buf height runs enough =
        while_before-ends (ltb (clock k) exp) _
          (λ e h. absurd (omega (arith, ltb→lt (clock k) exp e, enough)))
    search-ends (suc rounds) k exp buf height runs enough =
        while_before-ends (ltb (clock k) exp) _ (λ e.
          in_block-ends (get_block k (height + 1)) buf (height + 1) _ _
            (search-ends rounds (k + 1) exp buf (height + 1) runs (omega (arith, runs k, enough)))
            (search-ends rounds (k + 1) exp buf height runs (omega (arith, runs k, enough))))

    -- While the clock moves on from round to round, the search ends in as many rounds as there are
    -- milliseconds until the transaction expires, and one more.
    pub find_tx-ends :
        (rounds height : ℕ) (tx : Tx)
        → ((i : ℕ) → clock i < clock (i + 1))
        → time_of tx + tx_expiry_time ≤ clock 0 + rounds
        → find_tx clock get_block (suc rounds) height tx ≢ out_of_rounds
    unfolding find_tx
    find_tx-ends rounds height tx runs enough =
        search-ends rounds 0 (time_of tx + tx_expiry_time) (n.encode_with_sigs tx) height runs
          enough
