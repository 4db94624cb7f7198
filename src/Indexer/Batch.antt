-- ===== src/Indexer/Batch.antt =====
-- src/lib/indexer/batch.ts: writes that are collected and made together.
use godcoin_js_legacy.Prelude.{
  List, [], ◌∷◌, ◌++◌, Option, none, some, Bytes, ℕ, pos, Result, ok, err, defined, ◌>>=◌,
  type_error, Dict, length, leb, Bool, true, false,
}
use godcoin_js_legacy.Neon.{Neon}
use godcoin_js_legacy.Packages.{Level, Packages, Long}
use godcoin_js_legacy.Assets.{Balance}
use godcoin_js_legacy.Buffers.{write_int32_be}
use godcoin_js_legacy.Indexer.{Index, namespace_block, namespace_bal, encode_pos, encode_assets}

-- `AssetMap`: the balances by the hexadecimal text of a key's buffer, for which the buffer stands.
abbrev pub AssetMap : Type 0
AssetMap = Dict Bytes Balance

-- An operation is a `put` of a key and a value.
pub record BatchIndex : Type 0 where
  pub ops : List (Bytes × Bytes)
  pub map : Option AssetMap

module _ ⦃n : Neon⦄ ⦃p : Packages⦄ where
  -- the puts of `flushBalances`; `toString` of a slot that is `undefined` throws
  unfoldable pub balance_ops : AssetMap → Result (List (Bytes × Bytes))
  balance_ops [] = ok []
  balance_ops ((hex, assets) ∷ rest) = do
    g ← defined assets.0 type_error
    s ← defined assets.1 type_error
    more ← balance_ops rest
    ok ((namespace_bal ++ hex, encode_assets (g, s)) ∷ more)

module _ {Db : Type 0} ⦃n : Neon⦄ ⦃p : Packages⦄ ⦃l : Level Db⦄ where
  -- `db.batch(ops)`
  unfoldable pub put_all : List (Bytes × Bytes) → Index Db → Index Db
  put_all [] i = i
  put_all ((k, v) ∷ ops) i = put_all ops (record i { db = l.put i.db k v })

  abbrev pub flush_ops :
      Result (List (Bytes × Bytes))
      → BatchIndex
      → Index Db
      → Result (Unit {0}) × BatchIndex × Index Db
  flush_ops (err e) b i = (err e, b, i)
  flush_ops (ok ops) b i = (ok tt, record b { map = none }, put_all ops i)

  -- by whether there is a map
  abbrev pub flush_map :
      Option AssetMap → BatchIndex → Index Db → Result (Unit {0}) × BatchIndex × Index Db
  flush_map none b i = (ok tt, b, i)
  flush_map (some m) b i = flush_ops (balance_ops m) b i

  unfoldable pub flush_balances : BatchIndex → Index Db → Result (Unit {0}) × BatchIndex × Index Db
  flush_balances b i = flush_map b.map b i

  unfoldable pub flush : BatchIndex → Index Db → Result (Unit {0}) × BatchIndex × Index Db
  flush b i = flush_balances (record b { ops = [] }) (put_all b.ops i)

  abbrev pub flush_if : Bool → BatchIndex → Index Db → Result (Unit {0}) × BatchIndex × Index Db
  flush_if true b i = flush b i
  flush_if false b i = (ok tt, b, i)

  unfoldable pub maybe_flush : BatchIndex → Index Db → Result (Unit {0}) × BatchIndex × Index Db
  maybe_flush b i = flush_if (leb 10000 (length b.ops)) b i

  unfoldable pub set_block_pos :
      ℕ → Long → BatchIndex → Index Db → Result (Unit {0}) × BatchIndex × Index Db
  set_block_pos height byte_pos b i =
      maybe_flush
        (record b {
          ops = b.ops ++ (namespace_block ++ write_int32_be (pos height), encode_pos byte_pos) ∷ [];
        })
        i

  unfoldable pub set_balances :
      AssetMap → BatchIndex → Index Db → Result (Unit {0}) × BatchIndex × Index Db
  set_balances m b i = maybe_flush (record b { map = some m }) i
