-- ===== src/Producer/Pooled.antt =====
-- What `push` of the pool promises.
use godcoin_js_legacy.Prelude.{
  ℕ, ◌≡◌, refl, true, false, not, arith, Bytes, bytes_eq, Error, Result, ok, err, assert, >>=-eq-ok,
  assert-eq-ok, bytes_equal,
}
use godcoin_js_legacy.Neon.{Neon, Tx}
use godcoin_js_legacy.Packages.{Level, Packages}
use godcoin_js_legacy.Blockchain.Chain.{Chain, skip_nothing}
use godcoin_js_legacy.Blockchain.Transactions.{validate_tx}
use godcoin_js_legacy.Producer.TxPool.{
  TxPool, is_poolable, accept, pool_has_tx, check_push, push, expire, pop_all,
}

module _ (Db : Type 0) ⦃n : Neon⦄ ⦃p : Packages⦄ ⦃l : Level Db⦄ where
  -- the pool after further calls, on any chain and at any time, while the timer of `hex` does not fire
  pub data Meanwhile (hex : Bytes) (pool : TxPool) : TxPool → Type 0 where
    nothing : Meanwhile hex pool pool
    pushes :
        {q : TxPool} (c : Chain Db) (now now' now'' : ℕ) (buf other : Bytes)
        → Meanwhile hex pool q
        → Meanwhile hex pool (push c now now' now'' buf other q).1
    pops : {q : TxPool} → Meanwhile hex pool q → Meanwhile hex pool (pop_all q).1
    fires :
        {q : TxPool} (other : Bytes)
        → bytes_equal other hex ≡ false
        → Meanwhile hex pool q
        → Meanwhile hex pool (expire other q)

module _ {Db : Type 0} ⦃n : Neon⦄ ⦃p : Packages⦄ ⦃l : Level Db⦄ where
  -- what a successful `push` has tested and done
  pub record Pooled (c : Chain Db) (now now' now'' : ℕ) (buf hex : Bytes) (pool pool' : TxPool)
      : Type 0 where
    pub tx : Tx
    pub fresh : pool_has_tx c pool buf hex ≡ false
    pub valid : validate_tx c now now' skip_nothing pool.txs buf ≡ ok tx
    pub poolable : is_poolable tx ≡ true
    pub queued : pool' ≡ accept now'' hex tx pool

  check_push-valid :
      (c : Chain Db) (pool : TxPool) (now now' : ℕ) (buf hex : Bytes) {tx : Tx}
      → check_push c pool now now' buf hex ≡ ok tx
      → (pool_has_tx c pool buf hex ≡ false)
        × (validate_tx c now now' skip_nothing pool.txs buf ≡ ok tx)
        × (is_poolable tx ≡ true)
  unfolding check_push
  check_push-valid c pool now now' buf hex {tx} h =
      let (u, fresh, k) = >>=-eq-ok (assert (not (pool_has_tx c pool buf hex)) _) _ h in
      let (tx', valid, k') = >>=-eq-ok (validate_tx c now now' skip_nothing pool.txs buf) _ k in
      let (u', poolable, last) = >>=-eq-ok (assert (is_poolable tx') _) _ k' in
      let same : tx' ≡ tx = ground arith in
      let not_seen = assert-eq-ok (not (pool_has_tx c pool buf hex)) _ fresh in
      (ground arith, rw same at valid, rw same at (assert-eq-ok _ _ poolable))

  refused :
      (c : Chain Db) (now now' now'' : ℕ) (buf hex : Bytes) (pool : TxPool) {e : Error}
      → check_push c pool now now' buf hex ≡ err e
      → (push c now now' now'' buf hex pool).0 ≡ err e
  unfolding push
  refused c now now' now'' buf hex pool r = rw (push, r)

  accepted-Pooled :
      (c : Chain Db) (now now' now'' : ℕ) (buf hex : Bytes) (pool : TxPool) (r : Result Tx)
      → check_push c pool now now' buf hex ≡ r
      → (push c now now' now'' buf hex pool).0 ≡ ok tt
      → Pooled c now now' now'' buf hex pool (push c now now' now'' buf hex pool).1
  unfolding push
  accepted-Pooled c now now' now'' buf hex pool (err e) r h =
      absurd (ground (arith, h, refused c now now' now'' buf hex pool r))
  accepted-Pooled c now now' now'' buf hex pool (ok tx) r h =
      let (fresh, valid, poolable) = check_push-valid c pool now now' buf hex r in
      record { tx = tx; fresh = fresh; valid = valid; poolable = poolable; queued = rw (push, r) }

  pub push-Pooled :
      (c : Chain Db) (now now' now'' : ℕ) (buf hex : Bytes) (pool : TxPool)
      → (push c now now' now'' buf hex pool).0 ≡ ok tt
      → Pooled c now now' now'' buf hex pool (push c now now' now'' buf hex pool).1
  push-Pooled c now now' now'' buf hex pool h =
      accepted-Pooled c now now' now'' buf hex pool (check_push c pool now now' buf hex) refl h
