-- ===== src/Blockchain/Chain.antt =====
-- The state of `Blockchain`, its reads of the log, and src/lib/skip_flags.ts.
use Prim.Native.Nat.{bit_and}
use godcoin_js_legacy.Prelude.{ℕ, List, Bool, Option, Result, defined, ◌>>=◌, type_error, eqb}
use godcoin_js_legacy.Neon.{Neon, SignedBlock}
use godcoin_js_legacy.Packages.{Level, Packages}
use godcoin_js_legacy.Assets.{Balance}
use godcoin_js_legacy.Exec.{Exec}
use godcoin_js_legacy.Indexer.{Index}
use godcoin_js_legacy.Indexer.BlockIndexer.{BlockIndexer, Session}
use godcoin_js_legacy.ChainStore
use godcoin_js_legacy.ChainStore.{ChainStore}

-- `SkipFlags`, a set of bits
abbrev pub skip_nothing : ℕ
skip_nothing = 0

abbrev pub skip_block_merkle : ℕ
skip_block_merkle = 1

abbrev pub skip_block_bond_signer : ℕ
skip_block_bond_signer = 2

abbrev pub skip_tx : ℕ
skip_tx = 4

abbrev pub skip_tx_signature : ℕ
skip_tx_signature = 8

abbrev pub skip_tx_time : ℕ
skip_tx_time = 16

-- `(skipFlags & flag) === 0`
unfoldable pub checks : ℕ → ℕ → Bool
checks skip_flags flag = eqb (bit_and skip_flags flag) 0

-- `events` are the blocks emitted to the listeners of 'block', the latest first.
pub record Chain (Db : Type 0) : Type 0 where
  pub index : Index Db
  pub store : ChainStore
  pub batch_index : BlockIndexer
  pub genesis_block : Option SignedBlock
  pub network_fee : Option Balance
  pub events : List SignedBlock

module _ {Db : Type 0} where
  -- `head`
  abbrev pub head : Chain Db → Option SignedBlock
  head c = c.store.block_head

  abbrev pub session : Chain Db → BlockIndexer → Session Db
  session c b = record { indexer = b; index = c.index; store = c.store }

  -- an action of the chain's own block indexer
  unfoldable pub with_batch : {A : Type 0} → Exec (Session Db) A → Exec (Chain Db) A
  with_batch m c =
      let (r, s) = m (session c c.batch_index) in
      (r, record c { batch_index = s.indexer; index = s.index; store = s.store })

module _ {Db : Type 0} ⦃n : Neon⦄ ⦃p : Packages⦄ ⦃l : Level Db⦄ where
  unfoldable pub get_block : Chain Db → ℕ → Result (Option SignedBlock)
  get_block c height = ChainStore.read c.index c.store height

  -- `(await this.getBlock(height))!`, on which a property is read
  unfoldable pub get_block! : Chain Db → ℕ → Result SignedBlock
  get_block! c height = do found ← get_block c height; defined found type_error

  unfoldable pub get_head! : Chain Db → Result SignedBlock
  get_head! c = defined (head c) type_error
