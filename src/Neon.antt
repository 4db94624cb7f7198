-- ===== src/Neon.antt =====
-- What the program uses of the package godcoin-neon, which is not part of the repository. Its objects
-- are records of the properties that the source reads or passes to a constructor; its functions are the
-- parameters `Neon`, with what the program relies on in `NeonLaws`.
pub mod Laws
use godcoin_js_legacy.Prelude.{ℕ, List, Bool, true, false, not, Option, Bytes, ℤ, eqb}

-- `other` is an identifier that godcoin-neon refuses; the source still tests for it.
pub data AssetSymbol : Type 0 where
  gold silver : AssetSymbol
  other : ℕ → AssetSymbol

-- `a === b` on two symbols
abbrev pub symbol_equal : AssetSymbol → AssetSymbol → Bool
symbol_equal gold gold = true
symbol_equal silver silver = true
symbol_equal (other a) (other b) = eqb a b
symbol_equal _ _ = false

-- `new Asset(amount, decimals, symbol)`
pub record Asset : Type 0 where
  pub amount : ℤ
  pub decimals : ℕ
  pub symbol : AssetSymbol

-- `new PublicKey(buffer)`
pub record PublicKey : Type 0 where
  pub buffer : Bytes

pub record SigPair : Type 0 where
  pub key : PublicKey
  pub signature : Bytes

pub record TransferTx : Type 0 where
  pub timestamp : ℕ
  pub from : PublicKey
  pub to : PublicKey
  pub amount : Asset
  pub fee : Asset
  pub memo : Bytes
  pub signature_pairs : List SigPair

pub record BondTx : Type 0 where
  pub timestamp : ℕ
  pub fee : Asset
  pub minter : PublicKey
  pub staker : PublicKey
  pub stake_amt : Asset
  pub bond_fee : Asset
  pub signature_pairs : List SigPair

pub record RewardTx : Type 0 where
  pub timestamp : ℕ
  pub to : PublicKey
  pub fee : Asset
  pub rewards : List Asset
  pub signature_pairs : List SigPair

-- the properties of every `Tx`
pub record TxBase : Type 0 where
  pub timestamp : ℕ
  pub fee : Asset
  pub signature_pairs : List SigPair

-- `unknown` is an instance of none of the three classes that the source tests for.
pub data Tx : Type 0 where
  transfer : TransferTx → Tx
  bond : BondTx → Tx
  reward : RewardTx → Tx
  unknown : TxBase → Tx

-- `tx.timestamp.getTime()`
abbrev pub time_of : Tx → ℕ
time_of (transfer t) = t.timestamp
time_of (bond t) = t.timestamp
time_of (reward t) = t.timestamp
time_of (unknown t) = t.timestamp

abbrev pub fee_of : Tx → Asset
fee_of (transfer t) = t.fee
fee_of (bond t) = t.fee
fee_of (reward t) = t.fee
fee_of (unknown t) = t.fee

-- `merkle_root` is read by godcoin-neon alone.
pub record SignedBlock : Type 0 where
  pub height : ℕ
  pub previous_hash : Bytes
  pub timestamp : ℕ
  pub merkle_root : Bytes
  pub transactions : List Tx
  pub sig_pair : SigPair

-- `none` stands for `undefined` or `null` where godcoin-neon returns it, and for a throw where it
-- throws: `add` and `sub` give `undefined` on two symbols, on which `geq` and `eq` throw.
pub record Neon : Type 0 where
  pub max_precision : ℕ
  pub empty_gold : Asset
  pub empty_silver : Asset
  pub symbol_id : AssetSymbol → ℕ
  pub add : Asset → Asset → Option Asset
  pub sub : Asset → Asset → Option Asset
  pub mul : Asset → Asset → ℕ → Option Asset
  pub pow : Asset → ℕ → ℕ → Asset
  pub geq : Asset → Asset → Option Bool
  pub eq : Asset → Asset → Option Bool
  pub print_asset : Asset → Bytes
  pub parse_asset : Bytes → Option Asset
  pub key_equals : PublicKey → PublicKey → Bool
  pub verify : PublicKey → Bytes → Bytes → Bool
  pub encode : Tx → Bytes
  pub encode_with_sigs : Tx → Bytes
  pub decode_with_sigs : Bytes → Option Tx
  pub calc_hash : SignedBlock → Bytes
  pub verify_merkle_root : SignedBlock → Bool
  pub encode_header : SignedBlock → Bytes
  pub encode_with_tx : SignedBlock → Bytes
  pub decode_with_tx : Bytes → Option SignedBlock
