-- ===== src/Blockchain/Funds.antt =====
-- What an accepted transaction's sender can pay.
use godcoin_js_legacy.Prelude.{
  ◌≡◌, refl, List, [], ◌∷◌, true, Option, none, some, arith, ℤ, pos, ◌+ℤ◌, ◌-ℤ◌, ◌≤ℤ◌, leb_ℤ→≤ℤ,
  int_laws, Result, ok, err, assert, defined, ap, ◌∙◌, >>=-eq-ok, assert-eq-ok, defined-eq-ok,
}
use godcoin_js_legacy.Neon.{Neon, Asset, AssetSymbol, gold, silver, other, TransferTx, BondTx}
use godcoin_js_legacy.Neon.Laws.{NeonLaws}
use godcoin_js_legacy.Assets.{Balance, bond_fee_amount}
use godcoin_js_legacy.Blockchain.Transactions.{
  check_geq, check_remaining, check_transfer_funds, check_bond_funds, pick,
}

-- the slot of a symbol
abbrev pub slot : AssetSymbol → Balance → Option Asset
slot gold b = b.0
slot silver b = b.1
slot (other id) b = none

module _ ⦃n : Neon⦄ (nl : NeonLaws n) where
  -- what some assets are worth together
  abbrev pub worth : List Asset → ℤ
  worth [] = pos 0
  worth (x ∷ xs) = nl.value x +ℤ worth xs

  -- A chain of `sub` whose rest passes the test starts from enough.
  check_remaining-covers :
      (xs : List Asset) (o : Option Asset)
      → check_remaining o xs ≡ ok tt
      → (b : Asset) × (o ≡ some b) × (worth xs ≤ℤ nl.value b)
  unfolding check_remaining
  check_remaining-covers [] none h = absurd (ground arith)
  check_remaining-covers [] (some b) h =
      (b, refl, (nl.value_nonneg b).0 (leb_ℤ→≤ℤ (pos 0) b.amount (assert-eq-ok _ _ h)))
  check_remaining-covers (x ∷ xs) none h = absurd (ground arith)
  check_remaining-covers (x ∷ xs) (some b) h =
      let (r, e, le) = check_remaining-covers xs (n.sub b x) h in
      let (r', e', s', v) = nl.sub_lem b x (nl.sub_same b x e) in
      let same : r ≡ r' = ground (arith, e, e') in
      let le' : worth xs ≤ℤ (nl.value b -ℤ nl.value x) = rw (ap nl.value same ∙ v) at le in
      (b, refl, omega (int_laws, le'))

  check_geq-covers :
      (a : Asset) (o : Option Asset)
      → check_geq a o ≡ ok tt
      → (f : Asset) × (o ≡ some f) × (nl.value f ≤ℤ nl.value a)
  unfolding check_geq
  check_geq-covers a none h = absurd (ground arith)
  check_geq-covers a (some f) h =
      let (covered, e, k) = >>=-eq-ok (defined (n.geq a f) _) (λ covered. assert covered _) h in
      let e' = defined-eq-ok (n.geq a f) _ e in
      let t = assert-eq-ok covered _ k in (f, refl, (nl.geq_lem a f (e' ∙ ap some t)).1)

  -- what the two reads of the chain gave, and what follows
  pub record IsFunded (bal fee : Result Balance) (tx : TransferTx) : Type 0 where
    pub balances : Balance
    pub fees : Balance
    pub held : Asset
    pub minimum : Asset
    pub bal_ok : bal ≡ ok balances
    pub fee_ok : fee ≡ ok fees
    pub held_slot : slot (tx.amount).symbol balances ≡ some held
    pub minimum_slot : slot (tx.amount).symbol fees ≡ some minimum
    pub pays_fee : nl.value minimum ≤ℤ nl.value tx.fee
    pub covers : nl.value tx.amount +ℤ nl.value tx.fee ≤ℤ nl.value held

  pick-eq-ok :
      (s : AssetSymbol) (bal fee : Result Balance) {slots : Option Asset × Option Asset}
      {b f : Asset}
      → pick s bal fee ≡ ok slots
      → slots.0 ≡ some b
      → slots.1 ≡ some f
      → (bs : Balance) × (fs : Balance) × (bal ≡ ok bs)
        × (fee ≡ ok fs)
        × (slot s bs ≡ some b)
        × (slot s fs ≡ some f)
  pick-eq-ok gold (ok bs) (ok fs) h hb hf = (bs, fs, refl, refl, ground arith, ground arith)
  pick-eq-ok silver (ok bs) (ok fs) h hb hf = (bs, fs, refl, refl, ground arith, ground arith)
  pick-eq-ok gold (ok bs) (err e) h hb hf = absurd (ground arith)
  pick-eq-ok gold (err e) fee h hb hf = absurd (ground arith)
  pick-eq-ok silver (ok bs) (err e) h hb hf = absurd (ground arith)
  pick-eq-ok silver (err e) fee h hb hf = absurd (ground arith)
  pick-eq-ok (other id) bal fee h hb hf = absurd (ground arith)

  -- An accepted transfer pays at least the total fee of its sender, and the sender's balance covers
  -- the amount and the fee.
  pub check_transfer_funds-IsFunded :
      (bal fee : Result Balance) (tx : TransferTx)
      → check_transfer_funds bal fee tx ≡ ok tt
      → IsFunded bal fee tx
  unfolding check_transfer_funds
  check_transfer_funds-IsFunded bal fee tx h =
      let (slots, picked, k) = >>=-eq-ok (pick (tx.amount).symbol bal fee) _ h in
      let (b, has_b, k') = >>=-eq-ok (defined slots.0 _) _ k in
      let (u, paid, rest) = >>=-eq-ok (check_geq tx.fee slots.1) _ k' in
      let (f, has_f, le) = check_geq-covers tx.fee slots.1 paid in
      let (b', same, covers) = check_remaining-covers (tx.amount ∷ tx.fee ∷ []) (some b) rest in
      let (bs, fs, eb, ef, sb, sf) =
        pick-eq-ok (tx.amount).symbol bal fee picked (defined-eq-ok slots.0 _ has_b) has_f in
      let same' : b' ≡ b = ground arith in
      let covers' : worth (tx.amount ∷ tx.fee ∷ []) ≤ℤ nl.value b = rw same' at covers in
      record {
        balances = bs;
        fees = fs;
        held = b;
        minimum = f;
        bal_ok = eb;
        fee_ok = ef;
        held_slot = sb;
        minimum_slot = sf;
        pays_fee = le;
        covers = omega (int_laws, covers');
      }

  -- what two balances that pass the test give
  check_bond_funds-covers :
      (bs fs : Balance) (tx : BondTx)
      → check_bond_funds (ok bs) (ok fs) tx ≡ ok tt
      → (held : Asset) × (minimum : Asset) × (bs.0 ≡ some held)
        × (fs.0 ≡ some minimum)
        × (nl.value minimum ≤ℤ nl.value tx.fee)
        × (nl.value minimum +ℤ nl.value tx.bond_fee +ℤ nl.value tx.stake_amt ≤ℤ nl.value held)
  unfolding check_bond_funds
  check_bond_funds-covers bs fs tx h =
      let (u, paid, k) = >>=-eq-ok (check_geq tx.fee fs.0) _ h in
      let (exact, e, k') = >>=-eq-ok (defined (n.eq tx.bond_fee bond_fee_amount) _) _ k in
      let (u', right, k'') = >>=-eq-ok (assert exact _) _ k' in
      let (f, has_f, rest) = >>=-eq-ok (defined fs.0 _) _ k'' in
      let (f', has_f', le) = check_geq-covers tx.fee fs.0 paid in
      let (held, has_held, covers) =
        check_remaining-covers (f ∷ tx.bond_fee ∷ tx.stake_amt ∷ []) bs.0 rest in
      let has_f'' = defined-eq-ok fs.0 _ has_f in
      let same : f ≡ f' = ground arith in
      let covers' : worth (f' ∷ tx.bond_fee ∷ tx.stake_amt ∷ []) ≤ℤ nl.value held =
        rw same at covers in
      (held, f', has_held, has_f', le, omega (int_laws, covers'))

  -- what the two reads of the chain for a bond gave, and what follows
  pub record IsStaked (bal fee : Result Balance) (tx : BondTx) : Type 0 where
    pub balances : Balance
    pub fees : Balance
    pub held : Asset
    pub minimum : Asset
    pub bal_ok : bal ≡ ok balances
    pub fee_ok : fee ≡ ok fees
    pub held_gold : balances.0 ≡ some held
    pub minimum_gold : fees.0 ≡ some minimum
    pub pays_fee : nl.value minimum ≤ℤ nl.value tx.fee
    pub covers : nl.value minimum +ℤ nl.value tx.bond_fee +ℤ nl.value tx.stake_amt ≤ℤ nl.value held

  pub check_bond_funds-IsStaked :
      (bal fee : Result Balance) (tx : BondTx)
      → check_bond_funds bal fee tx ≡ ok tt
      → IsStaked bal fee tx
  unfolding check_bond_funds
  check_bond_funds-IsStaked (err e) fee tx h = absurd (ground (arith, h))
  check_bond_funds-IsStaked (ok bs) (err e) tx h = absurd (ground (arith, h))
  check_bond_funds-IsStaked (ok bs) (ok fs) tx h =
      let (held, minimum, has_held, has_minimum, le, covers) = check_bond_funds-covers bs fs tx h in
      record {
        balances = bs;
        fees = fs;
        held = held;
        minimum = minimum;
        bal_ok = refl;
        fee_ok = refl;
        held_gold = has_held;
        minimum_gold = has_minimum;
        pays_fee = le;
        covers = covers;
      }

-- What a bond pays in fees is not taken from the balance that the test looks at: an accepted bond is
-- accepted with any other fee that is not below the minimum, whatever the staker holds.
pub check_bond_funds-any_fee :
    ⦃n : Neon⦄
    → (bs fs : Balance) (tx : BondTx) (fee' minimum : Asset)
    → check_bond_funds (ok bs) (ok fs) tx ≡ ok tt
    → fs.0 ≡ some minimum
    → n.geq fee' minimum ≡ some true
    → check_bond_funds (ok bs) (ok fs) (record tx { fee = fee' }) ≡ ok tt
unfolding check_bond_funds
check_bond_funds-any_fee bs fs tx fee' minimum h e covered =
    let (u, paid, k) = >>=-eq-ok (check_geq tx.fee fs.0) _ h in
    let pays : check_geq fee' fs.0 ≡ ok tt = unfold check_geq in rw (e, covered) in rw pays k
