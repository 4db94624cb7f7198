-- ===== src/Blockchain/Folders.antt =====
-- The constructor of src/lib/blockchain/blockchain.ts, which looks at the folders of the index and the log.
use godcoin_js_legacy.Prelude.{
  ◌≡◌, ◌⊎◌, inl, inr, refl, Bool, true, false, not, ◌&&◌, Result, ok, err, if◌then◌else◌,
  index_without_log, needs_reindex,
}

-- whether the folders are there
pub record Folders : Type 0 where
  pub index_dir : Bool
  pub log_dir : Bool

-- what the constructor leaves: `this.reindex` and the folders
pub record Opened : Type 0 where
  pub reindex : Bool
  pub folders : Folders

-- `del.sync(this.indexDir)`
abbrev pub delete_if : Bool → Folders → Folders
delete_if true f = record f { index_dir = false }
delete_if false f = f

-- the last `if` of the constructor sets its parameter, which nothing reads afterwards
unfoldable pub open_chain : Bool → Folders → Result Opened
open_chain reindex f =
    if f.index_dir && not f.log_dir
    then err index_without_log
    else if not reindex && (not f.index_dir && f.log_dir)
    then err needs_reindex
    else ok (record { reindex = reindex; folders = delete_if (reindex && f.index_dir) f })

-- An index without a log is refused, and so is a log without an index unless it is to be indexed again.
-- Otherwise the chain is indexed from nothing, on the log that was there, or it has both, or neither.
abbrev pub Outcome : Bool → Bool → Bool → Result Opened → Type 0
Outcome reindex index log (err e) =
    ((e ≡ index_without_log) × (index ≡ true) × (log ≡ false))
    ⊎ ((e ≡ needs_reindex) × (reindex ≡ false) × (index ≡ false) × (log ≡ true))
Outcome reindex index log (ok o) =
    ((o.folders).log_dir ≡ log)
    × (((o.reindex ≡ true) × ((o.folders).index_dir ≡ false))
        ⊎ ((o.reindex ≡ false) × ((o.folders).index_dir ≡ index) × (index ≡ log)))

opened :
    (reindex index log : Bool)
    → Outcome reindex index log (open_chain reindex (record { index_dir = index; log_dir = log }))
unfolding open_chain
opened true true true = (refl, inl (refl, refl))
opened true true false = inl (refl, refl, refl)
opened true false log = (refl, inl (refl, refl))
opened false true true = (refl, inr (refl, refl, refl))
opened false true false = inl (refl, refl, refl)
opened false false true = inr (refl, refl, refl, refl)
opened false false false = (refl, inr (refl, refl, refl))

-- A chain is never opened with an index that its log does not have: the constructor throws where there is
-- an index without a log, or a log without an index that is not to be indexed again; otherwise the log
-- is as it was, and either there is no index and it is to be made again, or both are there or neither.
pub open_chain-Outcome :
    (reindex : Bool) (f : Folders) → Outcome reindex f.index_dir f.log_dir (open_chain reindex f)
open_chain-Outcome reindex f = opened reindex f.index_dir f.log_dir
