-- ===== src/Blockchain/Blocks.antt =====
-- `isBondValid`, `validateBlock`, `addBlock` and `reload`. The clock is read once for each reading in
-- the code: `clock` gives the readings for the transaction at each place of the block.
use godcoin_js_legacy.Prelude.{
  ℕ, zero, suc, ◌+◌, List, [], ◌∷◌, Bool, true, false, Option, none, some, Bytes, Result, ok, err,
  defined, type_error, eqb, ◌==◌, bytes_eq, ◌||◌, unexpected_height, invalid_bond, bad_merkle_root,
  bad_previous_hash, invalid_signature,
}
use godcoin_js_legacy.Prelude
use godcoin_js_legacy.Neon.{Neon, Tx, reward, time_of, SignedBlock}
use godcoin_js_legacy.Packages.{Level, Packages}
use godcoin_js_legacy.Assets.{tx_expiry_time}
use godcoin_js_legacy.Exec.{Exec, pure, lift, modify, ◌>>=◌, ◌>>◌}
use godcoin_js_legacy.Indexer.{get_bond, add_tx}
use godcoin_js_legacy.Indexer.BlockIndexer.{index_block, flush}
use godcoin_js_legacy.ChainStore.{post_init}
use godcoin_js_legacy.Blockchain.Chain.{
  Chain, checks, head, skip_tx, skip_block_bond_signer, skip_block_merkle, with_batch, get_block,
}
use godcoin_js_legacy.Blockchain.Fees.{cache_network_fee}
use godcoin_js_legacy.Blockchain.Balances.{cache_miss}
use godcoin_js_legacy.Blockchain.Transactions.{validate_tx}

-- two readings of `Date.now()` for the transaction at each place
abbrev pub Clock : Type 0
Clock = ℕ → ℕ × ℕ

module _ {Db : Type 0} ⦃n : Neon⦄ ⦃p : Packages⦄ ⦃l : Level Db⦄ where
  unfoldable pub is_bond_valid : SignedBlock → Chain Db → Result Bool
  is_bond_valid block c = elim (get_bond c.index (block.sig_pair).key) [
    | err e ↦ err e
    | ok (some _) ↦ ok true
    | ok none ↦ elim c.genesis_block [
      | none ↦ err type_error
      | some genesis ↦ ok (n.key_equals (genesis.sig_pair).key (block.sig_pair).key)
    ]
  ]

  -- `if (!(tx instanceof RewardTx)) await this.indexer.addTx(…)`
  unfoldable pub remember_tx : Tx → Bytes → Exec (Chain Db) (Unit {0})
  remember_tx (reward tx) buf c = (ok tt, c)
  remember_tx tx buf c =
      (ok tt, record c { index = add_tx buf (time_of tx + tx_expiry_time) c.index })

  -- `await this.validateTx(…)`, whose value is not used
  abbrev pub settle_tx : Result Tx → Exec (Chain Db) (Unit {0})
  settle_tx (ok _) c = (ok tt, c)
  settle_tx (err e) c = (err e, c)

  abbrev pub pass_tx : ℕ → ℕ → ℕ → Bytes → Exec (Chain Db) (Unit {0})
  pass_tx now now' skip_flags buf c = settle_tx (validate_tx c now now' skip_flags [] buf) c

  -- the loop over the transactions of a block, from the place `k`
  unfoldable pub validate_txs : Clock → ℕ → ℕ → List Tx → Exec (Chain Db) (Unit {0})
  validate_txs clock k skip_flags [] = pure tt
  validate_txs clock k skip_flags (tx ∷ txs) = do
    pass_tx (clock k).0 (clock k).1 skip_flags (n.encode_with_sigs tx)
    remember_tx tx (n.encode_with_sigs tx)
    validate_txs clock (k + 1) skip_flags txs

  abbrev pub run_if : Bool → Exec (Chain Db) (Unit {0}) → Exec (Chain Db) (Unit {0})
  run_if true m c = m c
  run_if false m c = (ok tt, c)

  -- `if ((skipFlags & flag) === 0) { … }`
  abbrev pub unless_skipped : ℕ → ℕ → Exec (Chain Db) (Unit {0}) → Exec (Chain Db) (Unit {0})
  unless_skipped skip_flags flag m = run_if (checks skip_flags flag) m

  abbrev pub check : Bool → Prelude.Error → Exec (Chain Db) (Unit {0})
  check b e = lift (Prelude.assert b e)

  -- `assert(await this.isBondValid(block), …)`
  abbrev pub settle_bond : Result Bool → Exec (Chain Db) (Unit {0})
  settle_bond (err e) c = (err e, c)
  settle_bond (ok valid) c = check valid invalid_bond c

  unfoldable pub validate_block :
      Clock → SignedBlock → Option SignedBlock → ℕ → Exec (Chain Db) (Unit {0})
  validate_block clock block prev skip_flags = do
    prev_block ← lift (defined prev type_error)
    check (eqb (prev_block.height + 1) block.height) unexpected_height
    unless_skipped skip_flags skip_block_bond_signer (λ c. settle_bond (is_bond_valid block c) c)
    unless_skipped skip_flags skip_tx (validate_txs clock 0 skip_flags block.transactions)
    unless_skipped skip_flags skip_block_merkle (check (n.verify_merkle_root block) bad_merkle_root)
    check (block.previous_hash == n.calc_hash prev_block) bad_previous_hash
    check (n.verify (block.sig_pair).key (block.sig_pair).signature (n.encode_header block))
        invalid_signature

  -- the first part of `addBlock`
  -- by the head, and by whether the height is 0
  abbrev pub accept_at :
      Option SignedBlock → Bool → Clock → SignedBlock → ℕ → Exec (Chain Db) (Unit {0})
  accept_at (some prev) at_zero clock block skip_flags c =
      validate_block clock block (some prev) skip_flags c
  accept_at none true clock block skip_flags c = (ok tt, record c { genesis_block = some block })
  accept_at none false clock block skip_flags c = validate_block clock block none skip_flags c

  unfoldable pub accept_block : Clock → SignedBlock → ℕ → Exec (Chain Db) (Unit {0})
  accept_block clock block skip_flags c =
      accept_at (head c) (eqb block.height 0) clock block skip_flags c

  unfoldable pub add_block : Clock → SignedBlock → ℕ → Exec (Chain Db) (Unit {0})
  add_block clock block skip_flags = do
    accept_block clock block skip_flags
    with_batch (index_block cache_miss block none)
    with_batch flush
    cache_network_fee
    modify (λ c. record c { events = block ∷ c.events })

  -- `if (this.head)` of `reload`
  abbrev pub fee_of_head : Option SignedBlock → Exec (Chain Db) (Unit {0})
  fee_of_head none c = (ok tt, c)
  fee_of_head (some _) c = cache_network_fee c

  -- `this.store.postInit()`
  unfoldable pub load_store : Exec (Chain Db) (Unit {0})
  load_store c = let (r, s) = post_init c.index c.store in (r, record c { store = s })

  unfoldable pub set_genesis : Option SignedBlock → Exec (Chain Db) (Unit {0})
  set_genesis genesis = modify (λ c. record c { genesis_block = genesis })

  unfoldable pub reload : Exec (Chain Db) (Unit {0})
  reload = do
    load_store
    genesis ← (λ c. (get_block c 0, c))
    set_genesis genesis
    (λ c. fee_of_head (head c) c)
