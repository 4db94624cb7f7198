-- ===== src/Indexer/Batched.antt =====
-- `BatchIndex` of src/lib/indexer/batch.ts against the writes that its operations stand for.
use godcoin_js_legacy.Prelude.{
  ℕ, suc, ◌+◌, ◌≡◌, refl, sym, ap, ◌∙◌, List, [], ◌∷◌, ◌++◌, map, Bool, true, false, Option, none,
  some, Bytes, Result, ok, err, All, length, leb, Dict, pos,
}
use mathlib.Core.Path.{subst}
use godcoin_js_legacy.Neon.{Neon, Asset}
use godcoin_js_legacy.Neon.Laws.{NeonLaws}
use godcoin_js_legacy.Packages.{Level, LevelLaws, Packages, PackagesLaws, Long}
use godcoin_js_legacy.Buffers.{write_int32_be}
use godcoin_js_legacy.Indexer.{
  Index, set_block_pos, set_prop, namespace_block, namespace_bal, encode_pos, encode_assets,
}
use godcoin_js_legacy.Exec.{Exec, ◌>>◌, resume}
use godcoin_js_legacy.Prelude
use godcoin_js_legacy.Indexer.Batch
use godcoin_js_legacy.Indexer.Batch.{
  BatchIndex, AssetMap, put_all, balance_ops, flush_ops, flush_map, flush_if, flush_balances,
  maybe_flush, set_balances,
}
use godcoin_js_legacy.Indexer.Maps.{
  Maps, Write, put_balance, put_pos, Fits, step, run_write, run_writes, Refines, steps,
}
use godcoin_js_legacy.Indexer.Refinement.{run_write-Refines, run_writes-Refines}

-- the balances of some keys as the map of `setBalances`
abbrev pub map_of : List (Bytes × (Asset × Asset)) → AssetMap
map_of [] = []
map_of ((key, a) ∷ rest) = (key, (some a.0, some a.1)) ∷ map_of rest

abbrev pub positions_of : List (ℕ × Long) → List Write
positions_of ps = map (λ x. put_pos x.0 x.1) ps

abbrev pub balances_of : List (Bytes × (Asset × Asset)) → List Write
balances_of bs = map (λ x. put_balance (record { buffer = x.0 }) x.1) bs

module _ {Db : Type 0} ⦃n : Neon⦄ ⦃p : Packages⦄ ⦃l : Level Db⦄ where
  abbrev regroup :
      Result (Unit {0}) × BatchIndex × Index Db → Result (Unit {0}) × (BatchIndex × Index Db)
  regroup (r, b, i) = (r, (b, i))

  -- the methods as steps on the batch and the index
  abbrev pub set_one : ℕ × Long → Exec (BatchIndex × Index Db) (Unit {0})
  set_one x s = regroup (Batch.set_block_pos x.0 x.1 s.0 s.1)

  abbrev pub set_all : List (ℕ × Long) → Exec (BatchIndex × Index Db) (Unit {0})
  set_all [] s = (ok tt, s)
  set_all (x ∷ xs) s = (set_one x >> set_all xs) s

  abbrev pub set_and_flush : AssetMap → Exec (BatchIndex × Index Db) (Unit {0})
  set_and_flush m = (λ s. regroup (set_balances m s.0 s.1)) >> (λ s. regroup (Batch.flush s.0 s.1))

  put_all-append :
      (xs ys : List (Bytes × Bytes)) (i : Index Db)
      → put_all (xs ++ ys) i ≡ put_all ys (put_all xs i)
  unfolding put_all
  put_all-append [] ys i = refl
  put_all-append ((k, v) ∷ xs) ys i = put_all-append xs ys (record i { db = l.put i.db k v })

  -- the operations of a batch with a position behind them
  put_all-pos :
      (ops : List (Bytes × Bytes)) (h : ℕ) (w : Long) (i : Index Db)
      → put_all (ops ++ (namespace_block ++ write_int32_be (pos h), encode_pos w) ∷ []) i
        ≡ run_write (put_pos h w) (put_all ops i)
  unfolding put_all run_write set_block_pos set_prop
  put_all-pos ops h w i = put_all-append ops _ i

  -- a batch without balances: what the index is once its operations are made
  record IsPending (s : BatchIndex × Index Db) (m : Maps) : Type 0 where
    no_map : s.0.map ≡ none
    view : Refines (put_all s.0.ops s.1) m

  -- `flush` of a batch without balances
  flush-none :
      (b : BatchIndex) (i : Index Db)
      → b.map ≡ none
      → Batch.flush b i ≡ (ok tt, record b { ops = [] }, put_all b.ops i)
  unfolding Batch.flush flush_balances
  flush-none b i e = ap (λ o. flush_map o (record b { ops = [] }) (put_all b.ops i)) e

  -- `flush` of a batch with balances that can be written
  flush-some :
      (b : BatchIndex) (i : Index Db) (m : AssetMap) (ops : List (Bytes × Bytes))
      → balance_ops m ≡ ok ops
      → Batch.flush (record b { map = some m }) i
        ≡ (ok tt, record b { ops = []; map = none }, put_all ops (put_all b.ops i))
  unfolding Batch.flush flush_balances
  flush-some b i m ops e =
      ap (λ r. flush_ops r (record b { ops = []; map = some m }) (put_all b.ops i)) e

  -- the operations for balances are writes of the index
  balance_ops-map_of :
      (bs : List (Bytes × (Asset × Asset)))
      → (ops : List (Bytes × Bytes)) × (balance_ops (map_of bs) ≡ ok ops)
        × ((i : Index Db) → put_all ops i ≡ run_writes (balances_of bs) i)
  unfolding balance_ops put_all run_writes run_write set_prop
  balance_ops-map_of [] = ([], refl, λ i. refl)
  balance_ops-map_of ((key, a) ∷ bs) =
      let (ops, e, same) = balance_ops-map_of bs in
      (
        (namespace_bal ++ key, encode_assets a) ∷ ops,
        ap (λ r. Prelude.◌>>=◌ r λ more. ok ((namespace_bal ++ key, encode_assets a) ∷ more)) e,
        λ i. same (record i { db = l.put i.db (namespace_bal ++ key) (encode_assets a) }),
      )

module _ {Db : Type 0} ⦃n : Neon⦄ ⦃p : Packages⦄ ⦃l : Level Db⦄ (nl : NeonLaws n)
    (pl : PackagesLaws p) (ll : LevelLaws l) where
  -- a batch that is flushed when it is full is as good as one that is not
  flush_if-IsPending :
      (full : Bool) (b : BatchIndex) (i : Index Db) (m : Maps)
      → IsPending (b, i) m
      → (s : BatchIndex × Index Db) × (regroup (flush_if full b i) ≡ (ok tt, s)) × IsPending s m
  flush_if-IsPending false b i m at = ((b, i), refl, at)
  flush_if-IsPending true b i m at = (
    (record b { ops = [] }, put_all b.ops i),
    ap regroup (flush-none b i at.no_map),
    record { no_map = at.no_map; view = unfold put_all in at.view },
  )

  set_one-IsPending :
      (x : ℕ × Long) (s : BatchIndex × Index Db) (m : Maps)
      → Fits (put_pos x.0 x.1)
      → IsPending s m
      → (t : BatchIndex × Index Db) × (set_one x s ≡ (ok tt, t))
        × IsPending t (step (put_pos x.0 x.1) m)
  unfolding Batch.set_block_pos maybe_flush
  set_one-IsPending (h, w) (b, i) m fits at =
      let b' = record b {
        ops = b.ops ++ (namespace_block ++ write_int32_be (pos h), encode_pos w) ∷ [];
      } in
      flush_if-IsPending (leb 10000 (length b'.ops)) b' i (step (put_pos h w) m) (record {
        no_map = at.no_map;
        view =
            subst (λ j. Refines j (step (put_pos h w) m)) (sym (put_all-pos b.ops h w i))
              (run_write-Refines nl pl ll (put_pos h w) fits at.view);
      })

  set_all-IsPending :
      (xs : List (ℕ × Long)) (s : BatchIndex × Index Db) (m : Maps)
      → All Fits (positions_of xs)
      → IsPending s m
      → (t : BatchIndex × Index Db) × (set_all xs s ≡ (ok tt, t))
        × IsPending t (steps (positions_of xs) m)
  set_all-IsPending [] s m fits at = (s, refl, at)
  set_all-IsPending (x ∷ xs) s m (fit, fits) at =
      let (t, e, at') = set_one-IsPending x s m fit at in
      let (u, e', at'') = set_all-IsPending xs t (step (put_pos x.0 x.1) m) fits at' in
      (
        u,
        ap
              (λ (r : Result (Unit {0}) × (BatchIndex × Index Db)).
                resume r.0 (λ done. set_all xs) r.1)
              e
            ∙ e',
        at'',
      )

abbrev pub empty_batch : BatchIndex
empty_batch = record { ops = []; map = none }

balances-Fits : ⦃p : Packages⦄ (bs : List (Bytes × (Asset × Asset))) → All Fits (balances_of bs)
balances-Fits [] = tt
balances-Fits (b ∷ bs) = (tt, balances-Fits bs)

module _ {Db : Type 0} ⦃n : Neon⦄ ⦃p : Packages⦄ ⦃l : Level Db⦄ where
  -- the last `flush` finds the balances, or they were flushed just before
  flushed_after :
      (full : Bool) (b : BatchIndex) (i : Index Db) (m : AssetMap) (ops : List (Bytes × Bytes))
      → balance_ops m ≡ ok ops
      → resume
          (regroup (flush_if full (record b { map = some m }) i)).0
          (λ done s. regroup (Batch.flush s.0 s.1))
          (regroup (flush_if full (record b { map = some m }) i)).1
        ≡ (ok tt, (empty_batch, put_all ops (put_all b.ops i)))
  flushed_after false b i m ops e = ap regroup (flush-some b i m ops e)
  flushed_after true b i m ops e =
      let after : BatchIndex = record b { ops = []; map = none } in
      ap
        (λ (x : Result (Unit {0}) × BatchIndex × Index Db).
          resume (regroup x).0 (λ done s. regroup (Batch.flush s.0 s.1)) (regroup x).1)
        (flush-some b i m ops e)
      ∙ ap regroup (flush-none after (put_all ops (put_all b.ops i)) refl)
      ∙ (unfold put_all in refl)

module _ {Db : Type 0} ⦃n : Neon⦄ ⦃p : Packages⦄ ⦃l : Level Db⦄ (nl : NeonLaws n)
    (pl : PackagesLaws p) (ll : LevelLaws l) where
  -- Positions that are set one after another, then balances and a flush, are in the index as if each had
  -- been written to it at once, however often the batch was full in between; nothing throws, and the batch
  -- is empty again. Heights fit in 31 bits and positions in two words.
  pub set_all-Refines :
      (xs : List (ℕ × Long)) (bs : List (Bytes × (Asset × Asset))) (i : Index Db) (m : Maps)
      → All Fits (positions_of xs)
      → Refines i m
      → (j : Index Db) × ((set_all xs >> set_and_flush (map_of bs)) (empty_batch, i)
          ≡ (ok tt, (empty_batch, j)))
        × Refines j (steps (balances_of bs) (steps (positions_of xs) m))
  unfolding set_balances maybe_flush
  set_all-Refines xs bs i m fits r =
      let (t, e, at) =
        set_all-IsPending nl pl ll xs (empty_batch, i) m fits
          (record { no_map = refl; view = unfold put_all in r }) in
      let (ops, made, same) = balance_ops-map_of bs in
      let b = t.0 in
      (
        put_all ops (put_all b.ops t.1),
        ap
              (λ (x : Result (Unit {0}) × (BatchIndex × Index Db)).
                resume x.0 (λ done. set_and_flush (map_of bs)) x.1)
              e
            ∙ flushed_after (leb 10000 (length b.ops)) b t.1 (map_of bs) ops made,
        subst (λ j. Refines j (steps (balances_of bs) (steps (positions_of xs) m)))
            (sym (same (put_all b.ops t.1)))
            (run_writes-Refines nl pl ll (balances_of bs) (balances-Fits bs) at.view),
      )
