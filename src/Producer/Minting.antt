-- ===== src/Producer/Minting.antt =====
-- src/lib/producer/producer.ts and src/lib/producer/local_minter.ts. The methods run alone, under the
-- producer's lock. The one timer is data: what it will run, and after how many milliseconds.
use godcoin_js_legacy.Prelude.{
  ℕ, zero, suc, ◌+◌, ◌-◌, List, [], ◌∷◌, ◌++◌, Bool, true, false, Option, none, some, Bytes, pos,
  ◌-ℤ◌, ltb_ℤ, leb, eqb, not, ◌&&◌, Result, ok, err, if◌then◌else◌, defined, type_error,
  genesis_exists, not_a_minter, producer_stopped,
}
use godcoin_js_legacy.Neon.{
  Neon, Asset, gold, silver, PublicKey, SigPair, Tx, reward, bond, SignedBlock,
}
use godcoin_js_legacy.Packages.{Level, Packages}
use godcoin_js_legacy.Assets.{block_prod_time}
use godcoin_js_legacy.Exec.{Exec, lift, gets, read, modify, ◌>>=◌, ◌>>◌}
use godcoin_js_legacy.Indexer.{get_bond}
use godcoin_js_legacy.Blockchain.Chain.{Chain, head, get_block, get_head! }
use godcoin_js_legacy.Blockchain.Blocks.{Clock, add_block}
use godcoin_js_legacy.Producer.TxPool.{TxPool, pop_all}
use godcoin_js_legacy.Producer.Scheduler.{Entry, next_minter}
use godcoin_js_legacy.Producer.Scheduler

pub data Timer : Type 0 where
  -- `tryProducingBlock` after this time
  attempt_after : ℕ → Timer
  -- whether this minter's block of this height was missed
  watch : PublicKey → ℕ → Timer

-- `sign` of a block with the keys of the minter is godcoin-neon's.
pub record Minter : Type 0 where
  pub key : PublicKey
  pub sign : SignedBlock → SigPair

pub record Producer (Db : Type 0) : Type 0 where
  pub running : Bool
  pub initd : Bool
  pub timer : Option Timer
  pub missed : ℕ
  pub bonds : List Entry
  pub pool : TxPool
  pub minter : Option Minter
  pub chain : Chain Db

abbrev pub reward_gold : Asset
reward_gold = record { amount = pos 1; decimals = 0; symbol = gold }

abbrev pub reward_silver : Asset
reward_silver = record { amount = pos 100; decimals = 0; symbol = silver }

-- `Math.min(Math.max(next - Date.now(), 0), BLOCK_PROD_TIME)`, or the whole time
unfoldable pub schedule_of : ℕ → SignedBlock → Bool → ℕ
schedule_of now head force = elim force [
  | true ↦ block_prod_time
  | false ↦
      let lower_bound = head.timestamp + block_prod_time - now in
      if leb lower_bound block_prod_time then lower_bound else block_prod_time
]

-- `Buffer.alloc`
abbrev pub zeros : ℕ → Bytes
zeros zero = []
zeros (suc k) = 0 ∷ zeros k

-- the block that `produceBlock` signs
unfoldable pub next_block :
    ⦃n : Neon⦄ → Minter → ℕ → SignedBlock → PublicKey → List Tx → SignedBlock
next_block ⦃n⦄ minter now head staker txs =
    let payout = reward (record {
      timestamp = 0;
      to = staker;
      fee = n.empty_gold;
      rewards = reward_gold ∷ reward_silver ∷ [];
      signature_pairs = [];
    }) in
    let unsigned : SignedBlock = record {
      height = head.height + 1;
      previous_hash = n.calc_hash head;
      timestamp = now;
      merkle_root = [];
      transactions = txs ++ payout ∷ [];
      sig_pair = record { key = minter.key; signature = [] };
    } in
    record unsigned { sig_pair = minter.sign unsigned }

-- the node's own minter, if it is the one whose turn it is
unfoldable pub own_turn : ⦃n : Neon⦄ → Option Minter → Result PublicKey → Option Minter
own_turn none minter = none
own_turn (some own) (err e) = none
own_turn ⦃n⦄ (some own) (ok minter) = if n.key_equals minter own.key then some own else none

-- the two transactions and the block of `createGenesisBlock`, for a fresh key of the staker
unfoldable pub genesis : ⦃n : Neon⦄ → Minter → ℕ → PublicKey → SignedBlock
genesis ⦃n⦄ minter now staker =
    let one_gold : Asset = record { amount = pos 1; decimals = 0; symbol = gold } in
    let no_gold : Asset = record { amount = pos 0; decimals = 0; symbol = gold } in
    let grant = reward (record {
      timestamp = now;
      to = staker;
      fee = n.empty_gold;
      rewards = one_gold ∷ [];
      signature_pairs = [];
    }) in
    let stake = bond (record {
      timestamp = now;
      fee = n.empty_gold;
      minter = minter.key;
      staker = staker;
      stake_amt = one_gold;
      bond_fee = no_gold;
      signature_pairs = [];
    }) in
    let unsigned : SignedBlock = record {
      height = 0;
      previous_hash = zeros 32;
      timestamp = now;
      merkle_root = [];
      transactions = grant ∷ stake ∷ [];
      sig_pair = record { key = minter.key; signature = [] };
    } in
    record unsigned { sig_pair = minter.sign unsigned }

module _ {Db : Type 0} ⦃n : Neon⦄ ⦃p : Packages⦄ ⦃l : Level Db⦄ where
  -- an action on the chain
  abbrev pub on_chain : {A : Type 0} → Exec (Chain Db) A → Exec (Producer Db) A
  on_chain m s = let (r, c) = m s.chain in (r, record s { chain = c })

  -- the minter whose turn it is; that of no bond is read on `undefined`
  unfoldable pub turn : Producer Db → Result PublicKey
  turn s = elim (head s.chain) [
    | none ↦ err type_error
    | some prev ↦ elim (next_minter s.bonds prev s.missed) [
      | none ↦ err type_error
      | some b ↦ ok b.minter
    ]
  ]

  -- `startTimer`, by whether the producer runs and by the head
  abbrev pub plan : Bool → Option SignedBlock → ℕ → Bool → Exec (Producer Db) (Unit {0})
  plan false prev now force s = (err producer_stopped, s)
  plan true none now force s = (err type_error, record s { timer = none })
  plan true (some b) now force s =
      (ok tt, record s { timer = some (attempt_after (schedule_of now b force)) })

  unfoldable pub start_timer : ℕ → Bool → Exec (Producer Db) (Unit {0})
  start_timer now force s = plan s.running (head s.chain) now force s

  abbrev pub start_unless : Bool → ℕ → Bool → Exec (Producer Db) (Unit {0})
  start_unless true now force s = (ok tt, s)
  start_unless false now force s =
      let bonds = if s.initd then s.bonds else Scheduler.init s.chain.index 0 s.bonds in
      start_timer now force (record s { running = true; initd = true; bonds = bonds })

  unfoldable pub start : ℕ → Bool → Exec (Producer Db) (Unit {0})
  start now force s = start_unless s.running now force s

  unfoldable pub stop : Producer Db → Producer Db
  stop s = record s { running = false; timer = none }

  unfoldable pub post_production : Producer Db → Producer Db
  post_production s = record s { pool = (pop_all s.pool).1; missed = 0 }

  -- `LocalMinter.produceBlock`
  unfoldable pub produce_block : Clock → ℕ → Minter → Exec (Producer Db) (Unit {0})
  produce_block clock now minter = do
    prev ← read (λ s. get_head! s.chain)
    found ← read (λ s. get_bond s.chain.index minter.key)
    b ← lift (defined found not_a_minter)
    txs ← gets (λ s. (pop_all s.pool).0)
    modify (λ s. record s { pool = (pop_all s.pool).1 })
    on_chain (add_block clock (next_block minter now prev b.staker txs) 0)

  unfoldable pub create_genesis_block : Clock → ℕ → PublicKey → Minter → Exec (Chain Db) (Unit {0})
  create_genesis_block clock now staker minter c = elim (get_block c 0) [
    | err e ↦ (err e, c)
    | ok (some _) ↦ (err genesis_exists, c)
    | ok none ↦ add_block clock (genesis minter now staker) 0 c
  ]

  -- the tests of `onBlock`
  unfoldable pub is_acceptable : SignedBlock → Producer Db → Result Bool
  is_acceptable block s = elim (turn s) [
    | err e ↦ err e
    | ok minter ↦ elim (get_head! s.chain) [
      | err e ↦ err e
      | ok prev ↦ ok (
          n.key_equals minter (block.sig_pair).key
          && not (ltb_ℤ (pos block.timestamp -ℤ pos prev.timestamp) (pos block_prod_time)))
    ]
  ]

  -- what `onBlock` does with a block that passed
  unfoldable pub take_block : Clock → ℕ → SignedBlock → Exec (Producer Db) (Unit {0})
  take_block clock now block = do
    modify (λ s. record s { timer = none })
    on_chain (add_block clock block 0)
    modify post_production
    start_timer now false

  -- `catch` logs what was thrown and returns false.
  abbrev pub answer : Result (Unit {0}) × Producer Db → Bool × Producer Db
  answer (ok _, s) = (true, s)
  answer (err _, s) = (false, s)

  -- `onBlock`, by whether the producer runs, by its tests, and with what taking the block gives
  abbrev pub settle : Bool → Result Bool → Bool × Producer Db → Producer Db → Bool × Producer Db
  settle false test taken s = (false, s)
  settle true (err e) taken s = (false, s)
  settle true (ok false) taken s = (false, s)
  settle true (ok true) taken s = taken

  unfoldable pub on_block : Clock → ℕ → SignedBlock → Producer Db → Bool × Producer Db
  on_block clock now block s =
      settle s.running (is_acceptable block s) (answer (take_block clock now block s)) s

  -- the `try` of `tryProducingBlock` for the node's own minter
  unfoldable pub produce : Clock → ℕ → ℕ → Minter → Exec (Producer Db) (Unit {0})
  produce clock now now' minter = do
    produce_block clock now minter
    modify post_production
    start_timer now' false

  -- `startMissedBlockTimer`, where `bond` is `undefined` if no bond is there
  abbrev pub watch_turn : Result PublicKey → ℕ → Exec (Producer Db) (Unit {0})
  watch_turn (err e) height s = (err e, s)
  watch_turn (ok minter) height s = (ok tt, record s { timer = some (watch minter height) })

  -- `catch (e) { … }`
  abbrev pub or_watch :
      Result (Unit {0}) × Producer Db → Result PublicKey → ℕ → Result (Unit {0}) × Producer Db
  or_watch (ok _, s) minter height = (ok tt, s)
  or_watch (err _, s) minter height = watch_turn minter height s

  unfoldable pub try_producing : Clock → ℕ → ℕ → Exec (Producer Db) (Unit {0})
  try_producing clock now now' s = elim (head s.chain) [
    | none ↦ (err type_error, s)
    | some prev ↦ elim (own_turn s.minter (turn s)) [
      | none ↦ watch_turn (turn s) (prev.height + 1) s
      | some own ↦ or_watch (produce clock now now' own s) (turn s) (prev.height + 1)
    ]
  ]

  -- what the timer of `startMissedBlockTimer` runs
  unfoldable pub on_missed : Clock → ℕ → ℕ → ℕ → Exec (Producer Db) (Unit {0})
  on_missed clock now now' height s = elim (head s.chain) [
    | none ↦ (err type_error, s)
    | some prev ↦ elim (eqb prev.height height) [
      | true ↦ (ok tt, s)
      | false ↦ try_producing clock now now' (record s { missed = s.missed + 1 })
    ]
  ]
