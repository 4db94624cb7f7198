-- ===== src/Indexer/Refinement.antt =====
-- The writes of the index against their maps, one after another.
use godcoin_js_legacy.Prelude.{List, [], ◌∷◌, All}
use godcoin_js_legacy.Neon.{Neon}
use godcoin_js_legacy.Neon.Laws.{NeonLaws}
use godcoin_js_legacy.Packages.{Level, LevelLaws, Packages, PackagesLaws}
use godcoin_js_legacy.Indexer.{Index}
use godcoin_js_legacy.Indexer.Maps.{
  Maps, Write, put_tx, put_bond, put_balance, put_pos, put_height, put_supply, Fits, step,
  run_write, run_writes, Refines, steps,
}
use godcoin_js_legacy.Indexer.Writes.{
  put_tx-Refines, put_bond-Refines, put_balance-Refines, put_pos-Refines, put_height-Refines,
  put_supply-Refines,
}

module _ {Db : Type 0} ⦃n : Neon⦄ ⦃p : Packages⦄ ⦃l : Level Db⦄ (nl : NeonLaws n)
    (pl : PackagesLaws p) (ll : LevelLaws l) where
  -- Every write of the code changes exactly one map at exactly one key.
  pub run_write-Refines :
      (w : Write) {i : Index Db} {m : Maps}
      → Fits w
      → Refines i m
      → Refines (run_write w i) (step w m)
  unfolding run_write
  run_write-Refines (put_tx tx expiry) f r = put_tx-Refines nl pl ll tx expiry r
  run_write-Refines (put_bond b) f r = put_bond-Refines nl pl ll b f r
  run_write-Refines (put_balance key a) f r = put_balance-Refines nl pl ll key a r
  run_write-Refines (put_pos h w) f r = put_pos-Refines nl pl ll h w f.0 f.1 r
  run_write-Refines (put_height h) f r = put_height-Refines nl pl ll h f r
  run_write-Refines (put_supply a) f r = put_supply-Refines nl pl ll a r

  -- After any writes within the formats, the reads of the index are those of six maps to which the
  -- writes were made one by one.
  pub run_writes-Refines :
      (ws : List Write) {i : Index Db} {m : Maps}
      → All Fits ws
      → Refines i m
      → Refines (run_writes ws i) (steps ws m)
  unfolding run_writes
  run_writes-Refines [] f r = r
  run_writes-Refines (w ∷ ws) f r = run_writes-Refines ws f.1 (run_write-Refines w f.0 r)
