-- ===== src/Node/Synchronizer.antt =====
-- src/lib/node/synchronizer.ts. The methods run alone, under the synchronizer's lock; `running` may change
-- while `synchronizeChain` waits for a peer, so what it reads there is part of the script of a run.
use godcoin_js_legacy.Prelude.{
  ℕ, zero, suc, ◌+◌, List, [], ◌∷◌, Bool, true, false, not, ◌&&◌, Option, none, some, Bytes, Error,
  Result, ok, err, ltb, end_of_clients, startup_failed,
}
use godcoin_js_legacy.Neon.{Neon, SignedBlock, Tx}
use godcoin_js_legacy.Packages.{Level, Packages}
use godcoin_js_legacy.Exec.{Exec, pure, raise, ◌>>=◌, ◌>>◌}
use godcoin_js_legacy.Indexer.BlockIndexer.{new_indexer, index_block, flush}
use godcoin_js_legacy.Blockchain.Chain.{Chain, head, skip_block_bond_signer, skip_tx}
use godcoin_js_legacy.Blockchain.Balances.{cache_miss}
use godcoin_js_legacy.Blockchain.Blocks.{Clock, validate_block, reload}
use godcoin_js_legacy.Blockchain.Start.{Reindex, in_batch, on_chain}
use godcoin_js_legacy.Producer.TxPool.{pool_has_tx, push}
use godcoin_js_legacy.Producer.Minting.{Producer, on_block}
use godcoin_js_legacy.Node.PeerPool.{BlockRange}

-- One round of the loop: what `this.running` is when the round starts, what the peers answer to the
-- request for a range, and what `this.running` is before each block of it.
pub record Round : Type 0 where
  pub running : Bool
  pub answer : ℕ → ℕ → Result BlockRange
  pub still : ℕ → Bool

abbrev pub skip_flags : ℕ
skip_flags = skip_block_bond_signer + skip_tx

-- `height ? height + 1 : 0`, where a height of 0 counts as none
unfoldable pub min_height : Option ℕ → ℕ
min_height none = 0
min_height (some zero) = 0
min_height (some (suc h)) = suc h + 1

-- `height ? height + 100 : min + 100`
unfoldable pub max_height : Option ℕ → ℕ
max_height none = 100
max_height (some zero) = 100
max_height (some (suc h)) = suc h + 100

-- what a caught error does to the loop
abbrev pub is_end_of_clients : Error → Bool
is_end_of_clients end_of_clients = true
is_end_of_clients _ = false

-- `this.blockchain.head ? this.blockchain.head.height : undefined`
abbrev pub height_of : Option SignedBlock → Option ℕ
height_of none = none
height_of (some b) = some b.height

-- `catch` logs what was thrown and returns false.
abbrev pub or_false : Result Bool → Bool
or_false (ok b) = b
or_false (err e) = false

module _ {Db : Type 0} ⦃n : Neon⦄ ⦃p : Packages⦄ ⦃l : Level Db⦄ where
  -- by the head
  abbrev pub validate_after :
      Option SignedBlock → Clock → SignedBlock → Exec (Reindex Db) (Unit {0})
  validate_after none clock block w = (ok tt, w)
  validate_after (some prev) clock block w =
      on_chain (validate_block clock block (some prev) skip_flags) w

  unfoldable pub validate_next : Clock → SignedBlock → Exec (Reindex Db) (Unit {0})
  validate_next clock block w = validate_after (head w.chain) clock block w

  abbrev pub run_while : Bool → Exec (Reindex Db) (Unit {0}) → Exec (Reindex Db) (Unit {0})
  run_while true body w = body w
  run_while false body w = (ok tt, w)

  -- the loop over the blocks of a range, from the place `k`
  unfoldable pub index_range :
      (ℕ → Bool) → Clock → ℕ → List SignedBlock → Exec (Reindex Db) (Unit {0})
  index_range still clock k [] w = (ok tt, w)
  index_range still clock k (block ∷ blocks) w =
      let rest = index_range still clock (k + 1) blocks in
      run_while (still k)
        (do validate_next clock block; in_batch (index_block cache_miss block none); rest) w

  abbrev pub flush_and_throw : Bool → Error → Exec (Reindex Db) Bool → Exec (Reindex Db) Bool
  flush_and_throw true e next w = next w
  flush_and_throw false e next w = (do in_batch flush; raise e) w

  -- the handler of an error in a round, with the rounds that follow
  unfoldable pub on_failure : Error → Exec (Reindex Db) Bool → Exec (Reindex Db) Bool
  on_failure e next w = flush_and_throw (is_end_of_clients e) e next w

  -- what follows the blocks of a range
  abbrev pub after_range :
      Result (Unit {0}) → Bool → Exec (Reindex Db) Bool → Exec (Reindex Db) Bool
  after_range (err e) outside next w = on_failure e next w
  after_range (ok done) true next w = (ok true, w)
  after_range (ok done) false next w = next w

  -- a round, by whether it runs and by the answer; `retry` are the rounds after an error of the
  -- request, `next` those after a range
  abbrev pub run_round :
      Bool
      → Result BlockRange
      → (ℕ → Bool)
      → Clock
      → Exec (Reindex Db) Bool
      → Exec (Reindex Db) Bool
      → Exec (Reindex Db) Bool
  run_round false answer still clock retry next w = (ok true, w)
  run_round true (err e) still clock retry next w = on_failure e retry w
  run_round true (ok range) still clock retry next w =
      let r = index_range still clock 0 range.blocks w in
      after_range r.0 range.range_outside_height next r.1

  -- the loop; false when the script ends before the loop does
  unfoldable pub sync_rounds : Clock → Option ℕ → List Round → Exec (Reindex Db) Bool
  sync_rounds clock height [] w = (ok false, w)
  sync_rounds clock height (round ∷ rounds) w =
      run_round round.running (round.answer (min_height height) (max_height height)) round.still
        clock (sync_rounds clock height rounds)
        (sync_rounds clock (some (max_height height)) rounds) w

  -- the `try` of `synchronizeChain` after its test of `running`
  unfoldable pub sync_all : Clock → List Round → Exec (Reindex Db) Bool
  sync_all clock rounds w =
      (do
        ended ← sync_rounds clock (height_of (head w.chain)) rounds
        in_batch flush
        on_chain reload
        pure ended)
        w

  unfoldable pub synchronize_chain : Bool → Clock → List Round → Chain Db → Bool × Chain Db
  synchronize_chain false clock rounds c = (false, c)
  synchronize_chain true clock rounds c =
      let r =
        sync_all clock rounds
          (record { chain = c; batch = new_indexer; last = none; cut = false }) in
      (or_false r.0, r.1.chain)

pub record Synchronizer (Db : Type 0) : Type 0 where
  pub is_complete : Bool
  pub running : Bool
  pub producer : Producer Db

module _ {Db : Type 0} ⦃n : Neon⦄ ⦃p : Packages⦄ ⦃l : Level Db⦄ where
  unfoldable pub sync_state : Clock → List Round → Synchronizer Db → Bool × Synchronizer Db
  sync_state clock rounds s =
      let (done, c) = synchronize_chain s.running clock rounds s.producer.chain in
      (done, record s { producer = record (s.producer) { chain = c } })

  unfoldable pub start : ℕ → Clock → List Round → Exec (Synchronizer Db) (Unit {0})
  start peers clock rounds s = elim s.running [
    | true ↦ (ok tt, s)
    | false ↦ elim peers [
      | zero ↦ (ok tt, record s { running = true })
      | suc _ ↦
          let (done, s') = sync_state clock rounds (record s { running = true }) in
          elim done [
            | false ↦ (err startup_failed, record s' { running = false })
            | true ↦ (ok tt, record s' { is_complete = true })
          ]
    ]
  ]

  abbrev pub resume_unless : Bool → Clock → List Round → Synchronizer Db → Synchronizer Db
  resume_unless true clock rounds s = s
  resume_unless false clock rounds s = (sync_state clock rounds (record s { running = true })).1

  unfoldable pub resume : Clock → List Round → Synchronizer Db → Synchronizer Db
  resume clock rounds s = resume_unless s.running clock rounds s

  -- `pause` under the lock, and `stop` without it
  unfoldable pub pause : Synchronizer Db → Synchronizer Db
  pause s = record s { running = false }

  -- `block.height > this.blockchain.head.height && this.producer.running`; a head that is `undefined`
  -- throws, which is logged
  unfoldable pub is_wanted : SignedBlock → Synchronizer Db → Bool
  is_wanted block s = elim (head s.producer.chain) [
    | none ↦ false
    | some prev ↦ ltb prev.height block.height && s.producer.running
  ]

  unfoldable pub handle_block : Clock → ℕ → SignedBlock → Synchronizer Db → Synchronizer Db
  handle_block clock now block s = elim (s.running && is_wanted block s) [
    | false ↦ s
    | true ↦ record s { producer = (on_block clock now block s.producer).1 }
  ]

  -- `hex` is the text of the transaction's bytes
  unfoldable pub handle_tx : (Bytes → Bytes) → ℕ → ℕ → ℕ → Tx → Synchronizer Db → Synchronizer Db
  handle_tx hex now now' now'' tx s =
      let buf = n.encode_with_sigs tx in
      let prod = s.producer in
      elim (s.running && not (pool_has_tx prod.chain prod.pool buf (hex buf))) [
        | false ↦ s
        | true ↦
            let (r, pool) = push prod.chain now now' now'' buf (hex buf) prod.pool in
            record s { producer = record prod { pool = pool } }
      ]
