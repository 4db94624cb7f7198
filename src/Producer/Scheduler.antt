-- ===== src/Producer/Scheduler.antt =====
-- src/lib/producer/scheduler.ts. `includes` compares objects, so a bond comes with its identity.
use godcoin_js_legacy.Prelude.{
  ℕ, ◌+◌, ◌%◌, List, [], ◌∷◌, ◌++◌, Bool, true, false, Option, none, some, Bytes, eqb, ltb, ◌||◌,
  length, get_elem?, if◌then◌else◌, take, drop,
}
use godcoin_js_legacy.Neon.{Neon, PublicKey, SignedBlock}
use godcoin_js_legacy.Packages.{Level, Packages}
use godcoin_js_legacy.Indexer.{Bond, Index}

pub record Entry : Type 0 where
  pub identity : ℕ
  pub bond : Bond

unfoldable pub includes : ℕ → List Entry → Bool
includes identity [] = false
includes identity (e ∷ bonds) = eqb e.identity identity || includes identity bonds

-- `a.compare(b) <= 0` on two buffers
unfoldable pub is_sorted_pair : Bytes → Bytes → Bool
is_sorted_pair [] b = true
is_sorted_pair (x ∷ a) [] = false
is_sorted_pair (x ∷ a) (y ∷ b) =
    let rest = is_sorted_pair a b in if ltb x y then true else if eqb x y then rest else false

abbrev pub minter_of : Entry → Bytes
minter_of e = ((e.bond).minter).buffer

-- `sort` puts an entry after those that compare as equal.
unfoldable pub insert_sorted : Entry → List Entry → List Entry
insert_sorted e [] = e ∷ []
insert_sorted e (f ∷ bonds) =
    let rest = insert_sorted e bonds in
    if is_sorted_pair (minter_of f) (minter_of e) then f ∷ rest else e ∷ f ∷ bonds

unfoldable pub sort_from : List Entry → List Entry → List Entry
sort_from sorted [] = sorted
sort_from sorted (e ∷ bonds) = sort_from (insert_sorted e sorted) bonds

unfoldable pub sort : List Entry → List Entry
sort bonds = sort_from [] bonds

unfoldable pub add_bond : Entry → List Entry → List Entry
add_bond e bonds = if includes e.identity bonds then bonds else sort (bonds ++ e ∷ [])

unfoldable pub remove_bond : ⦃n : Neon⦄ → PublicKey → List Entry → List Entry
remove_bond minter [] = []
remove_bond ⦃n⦄ minter (e ∷ bonds) =
    let rest = remove_bond minter bonds in
    if n.key_equals (e.bond).minter minter then bonds else e ∷ rest

-- The index of no bonds is `NaN`, and what is read there `undefined`.
unfoldable pub next_minter : List Entry → SignedBlock → ℕ → Option Bond
next_minter [] head skip = none
next_minter (e ∷ bonds) head skip =
    elim (get_elem? (e ∷ bonds) ((head.height + skip) % length (e ∷ bonds))) [
      | none ↦ none
      | some found ↦ some found.bond
    ]

module _ ⦃n : Neon⦄ ⦃p : Packages⦄ where
  -- the bond of one record of the database; none where the code throws and logs it
  unfoldable pub parse_bond : Bytes × Bytes → Option Bond
  parse_bond (k, value) = elim (n.parse_asset (drop p.public_key_bytes value)) [
    | none ↦ none
    | some amt ↦ some (record {
      minter = record { buffer = drop 1 k };
      staker = record { buffer = take p.public_key_bytes value };
      stake_amt = amt;
    })
  ]

  -- the 'data' events of `init`; every object is a new one
  unfoldable pub register : ℕ → List (Bytes × Bytes) → List Entry → List Entry
  register identity [] bonds = bonds
  register identity (record_read ∷ rest) bonds = elim (parse_bond record_read) [
    | none ↦ register (identity + 1) rest bonds
    | some b ↦
        register (identity + 1) rest (add_bond (record { identity = identity; bond = b }) bonds)
  ]

unfoldable pub init :
    {Db : Type 0} ⦃n : Neon⦄ ⦃p : Packages⦄ ⦃l : Level Db⦄ → Index Db → ℕ → List Entry → List Entry
init ⦃n⦄ ⦃p⦄ ⦃l⦄ i identity bonds = register identity (l.entries i.db 4) bonds
