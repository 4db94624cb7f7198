-- ===== src/Blockchain/Agreement.antt =====
-- What a block indexer does to balances, against the loop of `getBalance` over transactions.
use godcoin_js_legacy.Prelude.{
  ◌≡◌, refl, sym, ap, ◌∙◌, List, [], ◌∷◌, false, arith, Result, ok, bytes_equal, Bool-cases, inl,
  inr, All, ◌>>=◌, >>=-eq-ok, lookup, bytes_eq,
}
use mathlib.Core.Path.{subst}
use godcoin_js_legacy.Exec
use godcoin_js_legacy.Neon.{
  Neon, Asset, PublicKey, Tx, transfer, bond, reward, unknown, TransferTx, TxBase, BondTx, RewardTx,
}
use godcoin_js_legacy.Neon.Laws.{NeonLaws}
use godcoin_js_legacy.Packages.{Level, LevelLaws, Packages}
use godcoin_js_legacy.Assets.{Balance, add_bal_agnostic, sub_bal_agnostic}
use godcoin_js_legacy.Indexer.{Index, Bond, set_bond}
use godcoin_js_legacy.Indexer.BlockIndexer.{
  Session, new_indexer, get_bal, update_bal, update_supply, index_rewards, index_tx,
  index_transactions,
}
use godcoin_js_legacy.ChainStore.{ChainStore}
use godcoin_js_legacy.Blockchain.Balances.{
  add_rewards, apply_tx, apply_txs, get_balance, cache_miss, or_empty,
}
use godcoin_js_legacy.Indexer
use godcoin_js_legacy.Indexer.Frames.{get_balance-set_prop_ne}
use godcoin_js_legacy.Blockchain.Views.{
  or_missed, view, Updates, view-get_bal, update_bal-Updates, view-update_supply,
}
use godcoin_js_legacy.Blockchain.Updates.{
  Updates-after, Updates-before, Updates-chain, advance, key_differs, at_key, two_keys,
  Updates-IsSeen, Same, IsSeen, by_key,
}

-- no transfer goes to its own sender
abbrev pub IsBetween : ⦃n : Neon⦄ → Tx → Type 0
IsBetween ⦃n⦄ (transfer tx) = n.key_equals tx.from tx.to ≡ false
IsBetween tx = Unit

module _ {Db : Type 0} ⦃n : Neon⦄ ⦃p : Packages⦄ ⦃l : Level Db⦄ (nl : NeonLaws n)
    (cmcb : Index Db → PublicKey → Result Balance)
    (stable : (b : Bond) (i : Index Db) (key : PublicKey)
      → cmcb (set_bond b i) key ≡ cmcb i key) where
  transfer-Updates :
      (tx : TransferTx) (s t : Session Db)
      → index_tx cmcb (transfer tx) s ≡ (ok tt, t)
      → (u : Session Db) × Updates cmcb tx.from
          (λ b. sub_bal_agnostic b tx.amount >>= λ b'. sub_bal_agnostic b' tx.fee)
          s
          u
        × Updates cmcb tx.to (λ b. add_bal_agnostic b tx.amount) u t
  unfolding index_tx
  transfer-Updates tx s t h =
      let (v, s1, e1, k1) = Exec.>>=-eq-ok (get_bal cmcb tx.from) _ s h in
      let (v', s2, e2, k2) = Exec.>>=-eq-ok (get_bal cmcb tx.to) _ s1 k1 in
      let (v3, s3, e3, k3) =
        Exec.>>=-eq-ok (update_bal tx.from sub_bal_agnostic tx.amount) _ s2 k2 in
      let (v4, s4, e4, k4) = Exec.>>=-eq-ok (update_bal tx.from sub_bal_agnostic tx.fee) _ s3 k3 in
      let same : Same nl cmcb s s2 =
        λ j. view-get_bal cmcb tx.to s1 s2 e2 j ∙ view-get_bal cmcb tx.from s s1 e1 j in
      (
        s4,
        Updates-after nl cmcb tx.from _ s s2 s4 same (
            Updates-chain nl cmcb tx.from _ _ s2 s3 s4
              (update_bal-Updates cmcb tx.from sub_bal_agnostic tx.amount s2 s3 e3)
              (update_bal-Updates cmcb tx.from sub_bal_agnostic tx.fee s3 s4 e4)),
        update_bal-Updates cmcb tx.to add_bal_agnostic tx.amount s4 t k4,
      )

  view-set_bond :
      (b : Bond) (s : Session Db) → Same nl cmcb s (record s { index = set_bond b s.index })
  view-set_bond b s j =
      ap (λ m. or_missed cmcb m (lookup j.buffer s.indexer.map)) (stable b s.index j)

  view-bond :
      (b : Bond) (s t : Session Db) → record s { index = set_bond b s.index } ≡ t → Same nl cmcb s t
  view-bond b s t written j = ap (view cmcb j) (sym written) ∙ view-set_bond b s j

  bond-Updates :
      (tx : BondTx) (s t : Session Db)
      → index_tx cmcb (bond tx) s ≡ (ok tt, t)
      → Updates cmcb tx.staker
          (λ b. sub_bal_agnostic b tx.fee >>= λ b'.
            sub_bal_agnostic b' tx.bond_fee >>= λ b''. sub_bal_agnostic b'' tx.stake_amt)
          s
          t
  unfolding index_tx
  bond-Updates tx s t h =
      let (v, s1, e1, k1) = Exec.>>=-eq-ok (get_bal cmcb tx.staker) _ s h in
      let (v', s2, e2, k2) =
        Exec.>>=-eq-ok (update_bal tx.staker sub_bal_agnostic tx.fee) _ s1 k1 in
      let (v3, s3, e3, k3) =
        Exec.>>=-eq-ok (update_bal tx.staker sub_bal_agnostic tx.bond_fee) _ s2 k2 in
      let (v4, s4, e4, k4) =
        Exec.>>=-eq-ok (update_bal tx.staker sub_bal_agnostic tx.stake_amt) _ s3 k3 in
      let (v5, s5, e5, k5) = Exec.>>=-eq-ok (update_supply sub_bal_agnostic tx.bond_fee) _ s4 k4 in
      let same : Same nl cmcb s4 t = λ j.
        view-bond _ s5 t (ap (λ x. x.1) k5) j
        ∙ view-update_supply cmcb sub_bal_agnostic tx.bond_fee s4 s5 e5 j in
      Updates-before nl cmcb tx.staker _ s s4 t
        (Updates-after nl cmcb tx.staker _ s s1 s4 (view-get_bal cmcb tx.staker s s1 e1) (
          Updates-chain nl cmcb tx.staker _ _ s1 s2 s4
            (update_bal-Updates cmcb tx.staker sub_bal_agnostic tx.fee s1 s2 e2)
            (Updates-chain nl cmcb tx.staker _ _ s2 s3 s4
              (update_bal-Updates cmcb tx.staker sub_bal_agnostic tx.bond_fee s2 s3 e3)
              (update_bal-Updates cmcb tx.staker sub_bal_agnostic tx.stake_amt s3 s4 e4))))
        same

  index_rewards-apart :
      (to : PublicKey) (rewards : List Asset) (s t : Session Db)
      → index_rewards to rewards s ≡ (ok tt, t)
      → (j : PublicKey) → bytes_equal to.buffer j.buffer ≡ false
      → view cmcb j t ≡ view cmcb j s
  unfolding index_rewards
  index_rewards-apart to [] s t h j differ = ap (λ x. view cmcb j x.1) (sym h)
  index_rewards-apart to (r ∷ rewards) s t h j differ =
      let (v, s1, e1, k1) = Exec.>>=-eq-ok (update_bal to add_bal_agnostic r) _ s h in
      let (v', s2, e2, k2) = Exec.>>=-eq-ok (update_supply add_bal_agnostic r) _ s1 k1 in
      index_rewards-apart to rewards s2 t k2 j differ
      ∙ view-update_supply cmcb add_bal_agnostic r s1 s2 e2 j
      ∙ (update_bal-Updates cmcb to add_bal_agnostic r s s1 e1).others j differ

  index_rewards-view :
      (to : PublicKey) (rewards : List Asset) (s t : Session Db) (b : Balance)
      → index_rewards to rewards s ≡ (ok tt, t)
      → view cmcb to s ≡ ok b
      → add_rewards b rewards ≡ view cmcb to t
  unfolding index_rewards add_rewards
  index_rewards-view to [] s t b h seen = sym seen ∙ ap (λ x. view cmcb to x.1) h
  index_rewards-view to (r ∷ rewards) s t b h seen =
      let (v, s1, e1, k1) = Exec.>>=-eq-ok (update_bal to add_bal_agnostic r) _ s h in
      let (v', s2, e2, k2) = Exec.>>=-eq-ok (update_supply add_bal_agnostic r) _ s1 k1 in
      let up = update_bal-Updates cmcb to add_bal_agnostic r s s1 e1 in
      let same = view-update_supply cmcb add_bal_agnostic r s1 s2 e2 in
      ap (λ x. x >>= λ b'. add_rewards b' rewards) (advance nl cmcb to _ s s1 b up seen ∙ up.now)
      ∙ index_rewards-view to rewards s2 t up.after k2 (same to ∙ up.now)

  index_rewards-at_key :
      (to a : PublicKey) (rewards : List Asset) (s t : Session Db) (b : Balance)
      → index_rewards to rewards s ≡ (ok tt, t)
      → view cmcb a s ≡ ok b
      → by_key nl cmcb (n.key_equals to a) (add_rewards b rewards) (ok b) ≡ view cmcb a t
  index_rewards-at_key to a rewards s t b h seen = elim (Bool-cases (n.key_equals to a)) [
    | inr differ ↦
        ap (λ c. by_key nl cmcb c (add_rewards b rewards) (ok b)) differ
        ∙ sym (index_rewards-apart to rewards s t h a (key_differs nl cmcb to a differ) ∙ seen)
    | inl same ↦
        let one : to ≡ a = (nl.key_equals_iff to a).0 same in
        ap (λ c. by_key nl cmcb c (add_rewards b rewards) (ok b)) same
        ∙ subst (λ k. add_rewards b rewards ≡ view cmcb k t) one
            (index_rewards-view to rewards s t b h
              (subst (λ k. view cmcb k s ≡ ok b) (sym one) seen))
  ]

  reward_opened :
      (tx : RewardTx) (s t : Session Db)
      → index_tx cmcb (reward tx) s ≡ (ok tt, t)
      → (u : Session Db) × Same nl cmcb s u × (index_rewards tx.to tx.rewards u ≡ (ok tt, t))
  unfolding index_tx
  reward_opened tx s t h =
      let (v, s1, e1, k1) = Exec.>>=-eq-ok (get_bal cmcb tx.to) _ s h in
      (s1, view-get_bal cmcb tx.to s s1 e1, k1)

  unknown_kept :
      (tx : TxBase) (s t : Session Db) → index_tx cmcb (unknown tx) s ≡ (ok tt, t) → s ≡ t
  unfolding index_tx
  unknown_kept tx s t h = ap (λ x. x.1) h

  index_tx-view :
      (tx : Tx) (s t : Session Db)
      → IsBetween tx
      → index_tx cmcb tx s ≡ (ok tt, t)
      → (a : PublicKey) (b : Balance) → view cmcb a s ≡ ok b
      → apply_tx a b tx ≡ view cmcb a t
  unfolding apply_tx
  index_tx-view (transfer tx) s t between h a b seen =
      let (u, sent, received) = transfer-Updates tx s t h in
      two_keys nl cmcb tx.from tx.to _ _ s u t between sent received a b seen
  index_tx-view (bond tx) s t between h a b seen =
      at_key nl cmcb tx.staker _ s t (bond-Updates tx s t h) a b seen
  index_tx-view (reward tx) s t between h a b seen =
      let (s1, same, k) = reward_opened tx s t h in
      index_rewards-at_key tx.to a tx.rewards s1 t b k (same a ∙ seen)
  index_tx-view (unknown tx) s t between h a b seen =
      sym seen ∙ ap (view cmcb a) (unknown_kept tx s t h)

  index_rewards-IsSeen :
      (to : PublicKey) (rewards : List Asset) (s t : Session Db)
      → index_rewards to rewards s ≡ (ok tt, t)
      → (a : PublicKey) → IsSeen nl cmcb a s
      → IsSeen nl cmcb a t
  unfolding index_rewards
  index_rewards-IsSeen to [] s t h a (b, seen) = (b, ap (λ x. view cmcb a x.1) (sym h) ∙ seen)
  index_rewards-IsSeen to (r ∷ rewards) s t h a is_seen =
      let (v, s1, e1, k1) = Exec.>>=-eq-ok (update_bal to add_bal_agnostic r) _ s h in
      let (v', s2, e2, k2) = Exec.>>=-eq-ok (update_supply add_bal_agnostic r) _ s1 k1 in
      let up = update_bal-Updates cmcb to add_bal_agnostic r s s1 e1 in
      let (b, seen) = Updates-IsSeen nl cmcb to _ s s1 up a is_seen in
      index_rewards-IsSeen to rewards s2 t k2 a
        (b, view-update_supply cmcb add_bal_agnostic r s1 s2 e2 a ∙ seen)

  index_tx-IsSeen :
      (tx : Tx) (s t : Session Db)
      → index_tx cmcb tx s ≡ (ok tt, t)
      → (a : PublicKey) → IsSeen nl cmcb a s
      → IsSeen nl cmcb a t
  index_tx-IsSeen (transfer tx) s t h a is_seen =
      let (u, sent, received) = transfer-Updates tx s t h in
      Updates-IsSeen nl cmcb tx.to _ u t received a
        (Updates-IsSeen nl cmcb tx.from _ s u sent a is_seen)
  index_tx-IsSeen (bond tx) s t h a is_seen =
      Updates-IsSeen nl cmcb tx.staker _ s t (bond-Updates tx s t h) a is_seen
  index_tx-IsSeen (reward tx) s t h a (b, seen) =
      let (s1, same, k) = reward_opened tx s t h in
      index_rewards-IsSeen tx.to tx.rewards s1 t k a (b, same a ∙ seen)
  index_tx-IsSeen (unknown tx) s t h a (b, seen) =
      (b, ap (view cmcb a) (sym (unknown_kept tx s t h)) ∙ seen)

  index_transactions-view :
      (txs : List Tx) (s t : Session Db)
      → All IsBetween txs
      → index_transactions cmcb txs s ≡ (ok tt, t)
      → (a : PublicKey) (b : Balance) → view cmcb a s ≡ ok b
      → apply_txs a b txs ≡ view cmcb a t
  unfolding index_transactions apply_txs
  index_transactions-view [] s t between h a b seen = sym seen ∙ ap (λ x. view cmcb a x.1) h
  index_transactions-view (tx ∷ txs) s t between h a b seen =
      let (v, s1, e1, k1) = Exec.>>=-eq-ok (index_tx cmcb tx) _ s h in
      let (b1, seen1) = index_tx-IsSeen tx s s1 e1 a (b, seen) in
      ap (λ r. r >>= λ b'. apply_txs a b' txs) (index_tx-view tx s s1 between.0 e1 a b seen ∙ seen1)
      ∙ index_transactions-view txs s1 t between.1 k1 a b1 seen1

abbrev pub start_at : {Db : Type 0} ⦃n : Neon⦄ → Index Db → ChainStore → Session Db
start_at i store = record { indexer = new_indexer; index = i; store = store }

-- A bond is no balance.
cache_miss-set_bond :
    {Db : Type 0} ⦃n : Neon⦄ ⦃p : Packages⦄ ⦃l : Level Db⦄ (ll : LevelLaws l) (b : Bond)
    (i : Index Db) (key : PublicKey)
    → cache_miss (set_bond b i) key ≡ cache_miss i key
unfolding cache_miss get_balance set_bond
cache_miss-set_bond ll b i key =
    ap (λ r. r >>= λ found. apply_txs key (or_empty found) [])
      (get_balance-set_prop_ne ll 4 _ _ i key refl)

view_start :
    {Db : Type 0} ⦃n : Neon⦄ ⦃p : Packages⦄ ⦃l : Level Db⦄ (i : Index Db) (store : ChainStore)
    (a : PublicKey)
    → view cache_miss a (start_at i store) ≡ get_balance i a []
unfolding cache_miss lookup
view_start i store a = refl

-- A new block indexer that has gone through transactions, none of them to its own sender, holds for
-- every key the balance that `getBalance` gives for the index as it was with these transactions as the
-- additional ones; what it does not hold is what `getBalance` still reads from the index.
pub get_balance-index_transactions :
    {Db : Type 0} ⦃n : Neon⦄ ⦃p : Packages⦄ ⦃l : Level Db⦄ (nl : NeonLaws n) (ll : LevelLaws l)
    → (txs : List Tx) (i : Index Db) (store : ChainStore) → All IsBetween txs
    → (index_transactions cache_miss txs (start_at i store)).0 ≡ ok tt
    → (a : PublicKey) (b : Balance) → get_balance i a [] ≡ ok b
    → get_balance i a txs
      ≡ view cache_miss a (index_transactions cache_miss txs (start_at i store)).1
unfolding get_balance apply_txs
get_balance-index_transactions nl ll txs i store between h a b held =
    let (found, e, k) = >>=-eq-ok (Indexer.get_balance i a) _ held in
    let same : or_empty found ≡ b = ground (arith, k) in
    let opened : get_balance i a txs ≡ apply_txs a b txs =
      ap (λ r. r >>= λ x. apply_txs a (or_empty x) txs) e ∙ ap (λ x. apply_txs a x txs) same in
    opened
    ∙ index_transactions-view nl cache_miss (cache_miss-set_bond ll) txs (start_at i store) _
        between (ap (λ r. (r, (index_transactions cache_miss txs (start_at i store)).1)) h) a b
        (view_start i store a ∙ held)
