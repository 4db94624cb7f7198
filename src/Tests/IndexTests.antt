-- ===== src/Tests/IndexTests.antt =====
-- The index at concrete writes.
use godcoin_js_legacy.Prelude.{lookup, refl, List, [], ◌∷◌, false, none, pos, arith}
use godcoin_js_legacy.Neon.{Neon, gold, silver, PublicKey}
use godcoin_js_legacy.Indexer.{
  Index, has_tx, get_prop, get_bond, get_balance, get_block_pos, get_chain_height, get_token_supply,
}
use godcoin_js_legacy.Indexer.Maps.{
  Maps, Write, put_tx, put_bond, put_balance, put_pos, put_height, put_supply, Refines, run_writes,
  steps,
}
use godcoin_js_legacy.Indexer.Refinement.{run_writes-Refines}
use godcoin_js_legacy.Prelude.{ℕ, ◌≡◌, ok, Bytes}
use godcoin_js_legacy.Neon.{Asset}
use godcoin_js_legacy.Packages.{Long}
use godcoin_js_legacy.Exec.{◌>>◌}
use godcoin_js_legacy.Indexer.Batched.{
  set_all, set_and_flush, map_of, balances_of, positions_of, empty_batch, set_all-Refines,
}
use godcoin_js_legacy.Tests.Sample.{
  Db, level, level_laws, packages, packages_laws, neon_for, neon_laws, coin,
}

instance abbrev neon : Neon
neon = neon_for [] []

abbrev alice : PublicKey
alice = record { buffer = 10 ∷ [] }

abbrev bob : PublicKey
bob = record { buffer = 11 ∷ [] }

abbrev start : Index Db
start = record { db = []; timers = [] }

abbrev nothing : Maps
nothing = record {
  seen = λ t. false;
  bonds = λ k. none;
  balances = λ k. none;
  positions = λ h. none;
  height = none;
  supply = (coin 0 gold, coin 0 silver);
}

start-Refines : Refines start nothing
unfolding has_tx get_prop get_bond get_balance get_block_pos get_chain_height get_token_supply
    lookup
start-Refines = record {
  seen = λ t. refl;
  bonds = λ k. refl;
  balances = λ k. refl;
  positions = λ h f. refl;
  height = refl;
  supply = refl;
}

abbrev writes : List Write
writes =
    put_tx (1 ∷ 2 ∷ []) 60000
    ∷ put_bond (record { minter = alice; staker = bob; stake_amt = coin 5 gold })
    ∷ put_balance alice (coin 7 gold, coin 8 silver)
    ∷ put_pos 0 (record { high = pos 0; low = pos 12 })
    ∷ put_height 3
    ∷ put_supply (coin 1 gold, coin 2 silver)
    ∷ []

run_writes-Refines_example : Refines (run_writes writes start) (steps writes nothing)
run_writes-Refines_example =
    run_writes-Refines (neon_laws [] []) packages_laws level_laws writes (omega arith) start-Refines

abbrev places : List (ℕ × Long)
places =
    (0, record { high = pos 0; low = pos 12 }) ∷ (1, record { high = pos 0; low = pos 90 }) ∷ []

abbrev owned : List (Bytes × (Asset × Asset))
owned = (alice.buffer, (coin 7 gold, coin 8 silver)) ∷ []

set_all-Refines_example :
    (j : Index Db) × ((set_all places >> set_and_flush (map_of owned)) (empty_batch, start)
      ≡ (ok tt, (empty_batch, j)))
    × Refines j (steps (balances_of owned) (steps (positions_of places) nothing))
set_all-Refines_example =
    set_all-Refines (neon_laws [] []) packages_laws level_laws places owned start nothing
      (omega arith) start-Refines
