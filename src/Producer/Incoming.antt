-- ===== src/Producer/Incoming.antt =====
-- What `onBlock` does with a block that a peer has sent.
use godcoin_js_legacy.Prelude.{
  ℕ, ◌≤◌, ◌≡◌, refl, ap, ◌∙◌, [], Bool, true, false, not, ◌&&◌, Option, none, some, arith, pos,
  ◌-ℤ◌, ◌+◌, ltb_ℤ, Error, Result, ok, err,
}
use godcoin_js_legacy.Neon.{Neon, PublicKey, SignedBlock}
use godcoin_js_legacy.Packages.{Level, Packages}
use godcoin_js_legacy.Assets.{block_prod_time}
use godcoin_js_legacy.Blockchain.Chain.{Chain, head, get_head! }
use godcoin_js_legacy.Blockchain.Blocks.{Clock, add_block}
use godcoin_js_legacy.Producer.TxPool.{pop_all}
use godcoin_js_legacy.Producer.Minting.{
  Producer, attempt_after, schedule_of, turn, start_timer, post_production, plan, settle, answer,
  is_acceptable, take_block, on_block,
}

due_after :
    ⦃n : Neon⦄
    → (block prev : SignedBlock) (minter : PublicKey)
    → (n.key_equals minter (block.sig_pair).key
        && not (ltb_ℤ (pos block.timestamp -ℤ pos prev.timestamp) (pos block_prod_time)))
      ≡ true
    → (n.key_equals minter (block.sig_pair).key ≡ true)
      × (prev.timestamp + block_prod_time ≤ block.timestamp)
unfolding ◌-ℤ◌
due_after ⦃n⦄ block prev minter h = (ground arith, ground arith)

schedule_of-le :
    (now : ℕ) (b : SignedBlock) (force : Bool) → schedule_of now b force ≤ block_prod_time
unfolding schedule_of
schedule_of-le now b true = omega arith
schedule_of-le now b false = ground arith

module _ {Db : Type 0} ⦃n : Neon⦄ ⦃p : Packages⦄ ⦃l : Level Db⦄ where
  pub record IsDue (block : SignedBlock) (s : Producer Db) : Type 0 where
    pub minter : PublicKey
    pub prev : SignedBlock
    pub has_turn : turn s ≡ ok minter
    pub signed : n.key_equals minter (block.sig_pair).key ≡ true
    pub on_head : head s.chain ≡ some prev
    pub waited : prev.timestamp + block_prod_time ≤ block.timestamp

  is_acceptable-IsDue :
      (block : SignedBlock) (s : Producer Db) (t : Result PublicKey) (o : Option SignedBlock)
      → turn s ≡ t
      → head s.chain ≡ o
      → is_acceptable block s ≡ ok true
      → IsDue block s
  unfolding is_acceptable get_head!
  is_acceptable-IsDue block s (err e) o ht ho h =
      absurd (ground (arith, rw (is_acceptable, ht) at h))
  is_acceptable-IsDue block s (ok minter) none ht ho h =
      absurd (ground (arith, rw (is_acceptable, get_head!, ht, ho) at h))
  is_acceptable-IsDue block s (ok minter) (some prev) ht ho h =
      let (signed, waited) =
        due_after block prev minter (ground (arith, rw (is_acceptable, get_head!, ht, ho) at h)) in
      record {
        minter = minter;
        prev = prev;
        has_turn = ht;
        signed = signed;
        on_head = ho;
        waited = waited;
      }

  -- how the producer goes on, with chain `c`
  pub record IsNext (c : Chain Db) (s : Producer Db) : Type 0 where
    pub time : ℕ
    pub has_chain : s.chain ≡ c
    pub missed_none : s.missed ≡ 0
    pub pool_empty : s.pool.txs ≡ []
    pub timer_set : s.timer ≡ some (attempt_after time)
    pub soon : time ≤ block_prod_time

  take_failed :
      (clock : Clock) (now : ℕ) (block : SignedBlock) (s : Producer Db) (c : Chain Db) (e : Error)
      → add_block clock block 0 s.chain ≡ (err e, c)
      → take_block clock now block s ≡ (err e, record s { timer = none; chain = c })
  unfolding take_block
  take_failed clock now block s c e h = rw (take_block, h)

  taken :
      (clock : Clock) (now : ℕ) (block : SignedBlock) (s : Producer Db) (c : Chain Db)
      (u : Unit {0})
      → add_block clock block 0 s.chain ≡ (ok u, c)
      → take_block clock now block s
        ≡ start_timer now false (post_production (record s { timer = none; chain = c }))
  unfolding take_block
  taken clock now block s c u h = rw (take_block, h)

  timer_started :
      (now : ℕ) (s : Producer Db) (b : SignedBlock)
      → s.running ≡ true
      → head s.chain ≡ some b
      → start_timer now false (post_production s) ≡ (
        ok tt,
        record s {
          pool = (pop_all s.pool).1;
          missed = 0;
          timer = some (attempt_after (schedule_of now b false));
        },
      )
  unfolding start_timer post_production
  timer_started now s b running on_head =
      ap (λ r. plan r (head s.chain) now false (post_production s)) running
      ∙ ap (λ o. plan true o now false (post_production s)) on_head

  timer_failed :
      (now : ℕ) (s : Producer Db)
      → s.running ≡ true
      → head s.chain ≡ none
      → (answer (start_timer now false (post_production s))).0 ≡ false
  unfolding start_timer post_production
  timer_failed now s running on_head =
      ap (λ x. (answer x).0)
        (ap (λ r. plan r (head s.chain) now false (post_production s)) running
          ∙ ap (λ o. plan true o now false (post_production s)) on_head)

  started :
      (now : ℕ) (s : Producer Db) (o : Option SignedBlock)
      → s.running ≡ true
      → head s.chain ≡ o
      → (answer (start_timer now false (post_production s))).0 ≡ true
      → IsNext s.chain (answer (start_timer now false (post_production s))).1
  unfolding pop_all
  started now s none running on_head h =
      absurd (ground (arith, h, timer_failed now s running on_head))
  started now s (some b) running on_head h = rw (timer_started now s b running on_head) (record {
    time = schedule_of now b false;
    has_chain = refl;
    missed_none = refl;
    pool_empty = refl;
    timer_set = refl;
    soon = schedule_of-le now b false;
  })

  -- the result of `addBlock`, and how the producer goes on after it
  record_taken :
      (clock : Clock) (now : ℕ) (block : SignedBlock) (s : Producer Db) (r : Result (Unit {0}))
      (c : Chain Db)
      → s.running ≡ true
      → add_block clock block 0 s.chain ≡ (r, c)
      → (answer (take_block clock now block s)).0 ≡ true
      → (r ≡ ok tt) × IsNext c (answer (take_block clock now block s)).1
  record_taken clock now block s (err e) c running added h =
      absurd (ground (arith, rw (take_failed clock now block s c e added) at h))
  record_taken clock now block s (ok u) c running added h =
      let opened = taken clock now block s c u added in
      (
        refl,
        rw opened
            (started now (record s { timer = none; chain = c }) _ running refl (rw opened at h)),
      )

  settled :
      (clock : Clock) (now : ℕ) (block : SignedBlock) (s : Producer Db) (r : Result Bool)
      → s.running ≡ true
      → is_acceptable block s ≡ r
      → on_block clock now block s ≡ settle true r (answer (take_block clock now block s)) s
  unfolding on_block
  settled clock now block s r running test =
      ap (λ b. settle b (is_acceptable block s) (answer (take_block clock now block s)) s) running
      ∙ ap (λ t. settle true t (answer (take_block clock now block s)) s) test

  acceptance :
      (clock : Clock) (now : ℕ) (block : SignedBlock) (s : Producer Db) (r : Result Bool)
      → s.running ≡ true
      → is_acceptable block s ≡ r
      → (on_block clock now block s).0 ≡ true
      → (r ≡ ok true) × (on_block clock now block s ≡ answer (take_block clock now block s))
  acceptance clock now block s (err e) running test h =
      absurd (ground (arith, h, settled clock now block s (err e) running test))
  acceptance clock now block s (ok false) running test h =
      absurd (ground (arith, h, settled clock now block s (ok false) running test))
  acceptance clock now block s (ok true) running test h =
      (refl, settled clock now block s (ok true) running test)

  -- A block that `onBlock` of a running producer accepts is signed by the minter whose turn it is and
  -- is not earlier than the production time after the head; `addBlock` succeeded, and the chain is the one it
  -- left; and afterwards no turn counts as missed, the pool is empty, and the next attempt comes within the production time.
  pub on_block-IsDue :
      (clock : Clock) (now : ℕ) (block : SignedBlock) (s : Producer Db)
      → s.running ≡ true
      → (on_block clock now block s).0 ≡ true
      → IsDue block s
        × ((add_block clock block 0 s.chain).0 ≡ ok tt)
        × IsNext (add_block clock block 0 s.chain).1 (on_block clock now block s).1
  on_block-IsDue clock now block s running h =
      let (acceptable, opened) =
        acceptance clock now block s (is_acceptable block s) running refl h in
      let (added, next) =
        record_taken clock now block s (add_block clock block 0 s.chain).0
          (add_block clock block 0 s.chain).1 running refl (rw opened at h) in
      (
        is_acceptable-IsDue block s (turn s) (head s.chain) refl refl acceptable,
        added,
        rw opened next,
      )

  -- When a block passes the tests of a running producer and `addBlock` throws, the producer is left
  -- without a timer: no attempt to produce a block and no watch for a missed turn is planned.
  pub on_block-stalls :
      (clock : Clock) (now : ℕ) (block : SignedBlock) (s : Producer Db) (c : Chain Db) (e : Error)
      → s.running ≡ true
      → is_acceptable block s ≡ ok true
      → add_block clock block 0 s.chain ≡ (err e, c)
      → ((on_block clock now block s).0 ≡ false) × ((on_block clock now block s).1.timer ≡ none)
  on_block-stalls clock now block s c e running acceptable failed =
      let opened : on_block clock now block s ≡ (false, record s { timer = none; chain = c }) =
        settled clock now block s (ok true) running acceptable
        ∙ ap answer (take_failed clock now block s c e failed) in
      (
        ap (λ (x : Bool × Producer Db). x.0) opened,
        ap (λ (x : Bool × Producer Db). x.1.timer) opened,
      )
