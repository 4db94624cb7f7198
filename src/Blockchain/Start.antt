-- ===== src/Blockchain/Start.antt =====
-- `start` with its reindexing, and `stop`. Whether the chain still runs is asked before each block of
-- the log: `running` answers for the place of the block,
-- and `still` after the last one.
use godcoin_js_legacy.Prelude.{
  ℕ, ◌+◌, List, [], ◌∷◌, Bool, true, false, Option, none, some, Bytes, Error, unable_to_proceed, ok,
  err, leb, if◌then◌else◌, length,
}
use godcoin_js_legacy.Neon.{Neon, SignedBlock}
use godcoin_js_legacy.Packages.{Level, Packages}
use godcoin_js_legacy.Exec.{Exec, pure, modify, ◌>>◌}
use godcoin_js_legacy.Indexer
use godcoin_js_legacy.Indexer.BlockIndexer.{BlockIndexer, Session, new_indexer, index_block, flush}
use godcoin_js_legacy.ChainStore
use godcoin_js_legacy.ChainStore.{chop, close, read_block_log}
use godcoin_js_legacy.Blockchain.Chain.{Chain, skip_block_merkle, skip_tx}
use godcoin_js_legacy.Blockchain.Balances.{cache_miss}
use godcoin_js_legacy.Blockchain.Blocks.{Clock, validate_block, reload}

-- the variables of `start`; `cut` says that the log was chopped, which ends the reading of it
pub record Reindex (Db : Type 0) : Type 0 where
  pub chain : Chain Db
  pub batch : BlockIndexer
  pub last : Option SignedBlock
  pub cut : Bool

abbrev pub skip_flags : ℕ
skip_flags = skip_block_merkle + skip_tx

module _ {Db : Type 0} ⦃n : Neon⦄ ⦃p : Packages⦄ ⦃l : Level Db⦄ where
  -- an action of the batch on what it shares with the chain
  unfoldable pub in_batch : {A : Type 0} → Exec (Session Db) A → Exec (Reindex Db) A
  in_batch m w =
      let (r, s) = m (record { indexer = w.batch; index = w.chain.index; store = w.chain.store }) in
      (
        r,
        record w {
          batch = s.indexer;
          chain = record (w.chain) { index = s.index; store = s.store };
        },
      )

  unfoldable pub on_chain : {A : Type 0} → Exec (Chain Db) A → Exec (Reindex Db) A
  on_chain m w = let (r, c) = m w.chain in (r, record w { chain = c })

  -- `this.store.chop(head.height)`
  unfoldable pub chop_log : ℕ → Exec (Reindex Db) (Unit {0})
  chop_log height w =
      let (r, s) = chop height w.chain.store in
      (r, record w { chain = record (w.chain) { store = s }; cut = true })

  -- `if (head) await this.validateBlock(…); head = block; await batch.index(…);`
  unfoldable pub index_read :
      Clock → SignedBlock → ℕ → Option SignedBlock → Exec (Reindex Db) (Unit {0})
  index_read clock block byte_pos none = do
    modify (λ w. record w { last = some block })
    in_batch (index_block cache_miss block (some byte_pos))
  index_read clock block byte_pos (some prev) = do
    on_chain (validate_block clock block (some prev) skip_flags)
    modify (λ w. record w { last = some block })
    in_batch (index_block cache_miss block (some byte_pos))

  -- the callback for a block that was read
  unfoldable pub on_read : Clock → SignedBlock → ℕ → Exec (Reindex Db) (Unit {0})
  on_read clock block byte_pos w = elim w.last [
    | none ↦ index_read clock block byte_pos none w
    | some prev ↦ elim (leb block.height prev.height) [
      | true ↦ chop_log prev.height w
      | false ↦ index_read clock block byte_pos (some prev) w
    ]
  ]

  -- the callback for an error
  unfoldable pub on_error : Exec (Reindex Db) (Unit {0})
  on_error w = elim w.last [
    | none ↦ (err unable_to_proceed, w)
    | some prev ↦ chop_log prev.height w
  ]

  -- A block is handed over while it stands before the end of the log.
  unfoldable pub on_entry : Bool → Clock → SignedBlock × ℕ × ℕ → Exec (Reindex Db) (Unit {0})
  on_entry false clock entry w = (ok tt, w)
  on_entry true clock (block, byte_pos, len) w = elim w.cut [
    | true ↦ (ok tt, w)
    | false ↦ on_read clock block byte_pos w
  ]

  unfoldable pub on_entries :
      (ℕ → Bool) → Clock → ℕ → List (SignedBlock × ℕ × ℕ) → Exec (Reindex Db) (Unit {0})
  on_entries running clock k [] = pure tt
  on_entries running clock k (entry ∷ entries) = do
    on_entry (running k) clock entry
    on_entries running clock (k + 1) entries

  unfoldable pub on_end : Bool → Option Error → Exec (Reindex Db) (Unit {0})
  on_end running none w = (ok tt, w)
  on_end false (some e) w = (ok tt, w)
  on_end true (some e) w = elim w.cut [ true ↦ (ok tt, w) | false ↦ on_error w ]

  unfoldable pub flush_if_any : Exec (Reindex Db) (Unit {0})
  flush_if_any w = elim w.last [ none ↦ (ok tt, w) | some _ ↦ in_batch flush w ]

  unfoldable pub run_reindex :
      (ℕ → Bool)
      → Bool
      → Clock
      → List (SignedBlock × ℕ × ℕ)
      → Option Error
      → Exec (Reindex Db) (Unit {0})
  run_reindex running still clock entries failure = do
    on_entries running clock 0 entries
    on_end (running (length entries)) failure
    if still then flush_if_any else pure tt

  -- the part of `start` under `if (this.reindex)`
  unfoldable pub reindex_chain : (ℕ → Bool) → Bool → Clock → Exec (Chain Db) (Unit {0})
  reindex_chain running still clock c =
      let (entries, failure) = read_block_log c.store in
      let (r, w) =
        run_reindex running still clock entries failure
          (record { chain = c; batch = new_indexer; last = none; cut = false }) in
      (r, w.chain)

  -- `start`, with the bytes of the log file
  unfoldable pub start : Bytes → Bool → (ℕ → Bool) → Bool → Clock → Exec (Chain Db) (Unit {0})
  start contents reindex running still clock = do
    modify (λ c. record c { index = Indexer.init c.index })
    (λ c. let (r, s) = ChainStore.init contents c.store in (r, record c { store = s }))
    if reindex then reindex_chain running still clock else pure tt
    if reindex then (if still then reload else pure tt) else reload

unfoldable pub stop : {Db : Type 0} → Chain Db → Chain Db
stop c = record c { store = close c.store }
