-- ===== src/Indexer/BlockIndexer.antt =====
-- src/lib/indexer/block_indexer.ts: what a block changes in the balances, the supply, the bonds and the
-- log. Methods are actions on the indexer with the index and the log that it shares with the chain.
use godcoin_js_legacy.Prelude.{
  ℕ, List, [], ◌∷◌, Option, none, some, Result, ok, err, defined, type_error, lookup, insert, ltb,
  if◌then◌else◌, bytes_eq,
}
use godcoin_js_legacy.Prelude
use godcoin_js_legacy.Neon.{
  Neon, Asset, PublicKey, Tx, transfer, bond, reward, unknown, SignedBlock,
}
use godcoin_js_legacy.Packages.{Level, Packages, Long}
use godcoin_js_legacy.Assets.{Balance, add_bal_agnostic, sub_bal_agnostic}
use godcoin_js_legacy.Exec.{Exec, pure, modify, resume, ◌>>=◌, ◌>>◌}
use godcoin_js_legacy.Indexer.{
  Index, set_bond, get_token_supply, set_token_supply, set_chain_height,
}
use godcoin_js_legacy.Indexer.Batch
use godcoin_js_legacy.Indexer.Batch.{AssetMap, BatchIndex}
use godcoin_js_legacy.ChainStore
use godcoin_js_legacy.ChainStore.{ChainStore}

pub record BlockIndexer : Type 0 where
  pub batch : BatchIndex
  pub height : ℕ
  pub map : AssetMap
  pub supply : Balance

-- the indexer, and what it shares with the chain
pub record Session (Db : Type 0) : Type 0 where
  pub indexer : BlockIndexer
  pub index : Index Db
  pub store : ChainStore

abbrev pub empty_balance : ⦃n : Neon⦄ → Balance
empty_balance ⦃n⦄ = (some n.empty_gold, some n.empty_silver)

-- `new BlockIndexer(…)`
abbrev pub new_indexer : ⦃n : Neon⦄ → BlockIndexer
new_indexer ⦃n⦄ = record {
  batch = record { ops = []; map = none };
  height = 0;
  map = [];
  supply = empty_balance;
}

-- `total.add(delta)`; what has no text to be written throws
unfoldable pub add_slot : ⦃n : Neon⦄ → Asset → Option Asset → Result Asset
add_slot ⦃n⦄ total none = err type_error
add_slot ⦃n⦄ total (some delta) = defined (n.add total delta) type_error

unfoldable pub add_totals : ⦃n : Neon⦄ → Balance → Result (Asset × Asset) → Result (Asset × Asset)
add_totals delta total = Prelude.◌>>=◌ total λ t.
    Prelude.◌>>=◌ (add_slot t.0 delta.0) λ g. Prelude.◌>>=◌ (add_slot t.1 delta.1) λ v. ok (g, v)

abbrev pub apply_op : (Balance → Asset → Result Balance) → Option Balance → Asset → Result Balance
apply_op op none asset = err type_error
apply_op op (some bal) asset = op bal asset

module _ {Db : Type 0} ⦃n : Neon⦄ ⦃p : Packages⦄ ⦃l : Level Db⦄ where
  abbrev pub put_bal : PublicKey → Balance → Session Db → Session Db
  put_bal key bal s = record s {
    indexer = record (s.indexer) { map = insert key.buffer bal s.indexer.map };
  }

  -- what `getBal` does, by what the map holds and by what `cmcb` gives
  abbrev pub keep_bal : Option Balance → Result Balance → PublicKey → Exec (Session Db) (Unit {0})
  keep_bal (some held) missed key s = (ok tt, s)
  keep_bal none (err e) key s = (err e, s)
  keep_bal none (ok bal) key s = (ok tt, put_bal key bal s)

  -- `getBal`: it makes sure that the map holds the balance, by `cmcb` if it does not. The array that
  -- the code gets is the one in the map, so an update of it is an update of the map.
  unfoldable pub get_bal :
      (Index Db → PublicKey → Result Balance) → PublicKey → Exec (Session Db) (Unit {0})
  get_bal cmcb key s = keep_bal (lookup key.buffer s.indexer.map) (cmcb s.index key) key s

  abbrev pub store_bal : Result Balance → PublicKey → Exec (Session Db) (Unit {0})
  store_bal (err e) key s = (err e, s)
  store_bal (ok bal) key s = (ok tt, put_bal key bal s)

  -- an update of the array that `getBal` gave
  unfoldable pub update_bal :
      PublicKey → (Balance → Asset → Result Balance) → Asset → Exec (Session Db) (Unit {0})
  update_bal key op asset s = store_bal (apply_op op (lookup key.buffer s.indexer.map) asset) key s

  abbrev pub store_supply : Result Balance → Exec (Session Db) (Unit {0})
  store_supply (err e) s = (err e, s)
  store_supply (ok supply') s =
      (ok tt, record s { indexer = record (s.indexer) { supply = supply' } })

  unfoldable pub update_supply :
      (Balance → Asset → Result Balance) → Asset → Exec (Session Db) (Unit {0})
  update_supply op asset s = store_supply (op s.indexer.supply asset) s

  unfoldable pub index_rewards : PublicKey → List Asset → Exec (Session Db) (Unit {0})
  index_rewards to [] = pure tt
  index_rewards to (r ∷ rewards) = do
    update_bal to add_bal_agnostic r
    update_supply add_bal_agnostic r
    index_rewards to rewards

  unfoldable pub index_tx :
      (Index Db → PublicKey → Result Balance) → Tx → Exec (Session Db) (Unit {0})
  index_tx cmcb (transfer tx) = do
    get_bal cmcb tx.from
    get_bal cmcb tx.to
    update_bal tx.from sub_bal_agnostic tx.amount
    update_bal tx.from sub_bal_agnostic tx.fee
    update_bal tx.to add_bal_agnostic tx.amount
  index_tx cmcb (bond tx) = do
    get_bal cmcb tx.staker
    update_bal tx.staker sub_bal_agnostic tx.fee
    update_bal tx.staker sub_bal_agnostic tx.bond_fee
    update_bal tx.staker sub_bal_agnostic tx.stake_amt
    update_supply sub_bal_agnostic tx.bond_fee
    modify (λ s. record s {
      index =
          set_bond (record { minter = tx.minter; staker = tx.staker; stake_amt = tx.stake_amt })
            s.index;
    })
  index_tx cmcb (reward tx) = do get_bal cmcb tx.to; index_rewards tx.to tx.rewards
  index_tx cmcb (unknown tx) = pure tt

  unfoldable pub index_transactions :
      (Index Db → PublicKey → Result Balance) → List Tx → Exec (Session Db) (Unit {0})
  index_transactions cmcb [] = pure tt
  index_transactions cmcb (tx ∷ txs) = do index_tx cmcb tx; index_transactions cmcb txs

  -- the position of the block: written to the log unless it is there already
  unfoldable pub locate : SignedBlock → Option ℕ → Exec (Session Db) Long
  locate block none s = let w = ChainStore.write block s.store in (w.0, record s { store = w.1 })
  locate block (some byte_pos) s = (ok (p.from_number byte_pos), s)

  unfoldable pub set_pos : ℕ → Long → Exec (Session Db) (Unit {0})
  set_pos height byte_pos s =
      let (r, b, i) = Batch.set_block_pos height byte_pos s.indexer.batch s.index in
      (r, record s { indexer = record (s.indexer) { batch = b }; index = i })

  abbrev pub raise_height : ℕ → Session Db → Session Db
  raise_height h s = record s {
    indexer = record (s.indexer) {
      height = if ltb s.indexer.height h then h else s.indexer.height;
    };
  }

  -- `index`
  unfoldable pub index_block :
      (Index Db → PublicKey → Result Balance)
      → SignedBlock
      → Option ℕ
      → Exec (Session Db) (Unit {0})
  index_block cmcb block byte_pos = do
    index_transactions cmcb block.transactions
    modify (raise_height block.height)
    set_pos block.height (← locate block byte_pos)

  unfoldable pub flush_batch : Exec (Session Db) (Unit {0})
  flush_batch s =
      let (r, b, i) = Batch.set_balances s.indexer.map s.indexer.batch s.index in
      let s' = record s { indexer = record (s.indexer) { batch = b }; index = i } in
      resume r
        (λ _ s''.
          let (r', b', i') = Batch.flush s''.indexer.batch s''.index in
          (r', record s'' { indexer = record (s''.indexer) { batch = b' }; index = i' }))
        s'

  -- the end of `flush`
  abbrev pub store_totals : Result (Asset × Asset) → Exec (Session Db) (Unit {0})
  store_totals (err e) s = (err e, s)
  store_totals (ok totals) s = (
    ok tt,
    record s {
      index = set_token_supply totals s.index;
      indexer = record (s.indexer) { supply = empty_balance; map = [] };
    },
  )

  unfoldable pub write_totals : Exec (Session Db) (Unit {0})
  write_totals s =
      let s' = record s { index = set_chain_height s.indexer.height s.index } in
      store_totals (add_totals s.indexer.supply (get_token_supply s'.index)) s'

  -- `flush`
  unfoldable pub flush : Exec (Session Db) (Unit {0})
  flush = do flush_batch; write_totals
