-- ===== src/Wallet/Payments.antt =====
-- `execTransfer` and `execCreateBond` of src/cli/wallet/cmd. What the node answers, the clock and the
-- signing of godcoin-neon are arguments.
use godcoin_js_legacy.Prelude.{
  ℕ, ◌≡◌, List, [], ◌∷◌, Bool, true, false, ◌&&◌, Option, none, some, Bytes, Result, ok, err,
  defined, ◌>>=◌, invalid_wif, invalid_asset, unhandled_asset_type, type_error,
}
use godcoin_js_legacy.Neon.{
  Neon, Asset, AssetSymbol, gold, silver, other, PublicKey, TransferTx, BondTx, Tx, transfer, bond,
}
use godcoin_js_legacy.Packages.{Level}
use godcoin_js_legacy.Assets.{Balance, bond_fee_amount}
use godcoin_js_legacy.Wallet.Db.{Crypto, Keys, KeyPair, WalletDb, get_account}
use godcoin_js_legacy.Wallet.Commands.{arg}
use godcoin_js_legacy.Wallet.Search.{TxRef}

-- `appendSign`
pub record Signing : Type 0 where
  pub sign_transfer : TransferTx → KeyPair → TransferTx
  pub sign_bond : BondTx → KeyPair → BondTx

-- what the calls of the client give; `search` is `findTx`
pub record Remote : Type 0 where
  pub total_fee : PublicKey → Result Balance
  pub height : Result ℕ
  pub broadcast : Tx → Result (Unit {0})
  pub search : ℕ → Tx → Result (Option TxRef)

pub data Report : Type 0 where
  missing : Report
  broadcasting : Tx → Report
  located : TxRef → Report
  not_located : Report

-- the transactions handed to `broadcast` and what was written, the latest first
pub record Outbox : Type 0 where
  pub sent : List Tx
  pub reports : List Report

abbrev pub report : Report → Outbox → Outbox
report r o = record o { reports = r ∷ o.reports }

abbrev pub is_given : Bytes → Bool
is_given [] = false
is_given (ch ∷ text) = true

abbrev pub fee_for : AssetSymbol → Balance → Option Asset
fee_for gold fee = fee.0
fee_for silver fee = fee.1
fee_for (other id) fee = none

-- what follows the broadcast
abbrev pub report_search : Result (Option TxRef) → Outbox → Result (Unit {0}) × Outbox
report_search (err e) o = (err e, o)
report_search (ok none) o = (ok tt, report not_located o)
report_search (ok (some ref)) o = (ok tt, report (located ref) o)

module _ (remote : Remote) where
  abbrev pub after_broadcast :
      Result (Unit {0}) → Tx → ℕ → (Outbox → Outbox) → Outbox → Result (Unit {0}) × Outbox
  after_broadcast (err e) tx height say o = (err e, o)
  after_broadcast (ok done) tx height say o = report_search (remote.search height tx) (say o)

  -- `before` and `after` are what is written on either side of the broadcast
  abbrev pub send_built :
      (Tx → Outbox → Outbox)
      → (Tx → Outbox → Outbox)
      → Result (Tx × ℕ)
      → Outbox
      → Result (Unit {0}) × Outbox
  send_built before after (err e) o = (err e, o)
  send_built before after (ok (tx, height)) o =
      let o' = before tx o in
      after_broadcast (remote.broadcast tx) tx height (after tx) (record o' { sent = tx ∷ o'.sent })

  abbrev pub send_if :
      Bool → (Outbox → Result (Unit {0}) × Outbox) → Outbox → Result (Unit {0}) × Outbox
  send_if false command o = (ok tt, report missing o)
  send_if true command o = command o

  module _ {Db : Type 0} ⦃n : Neon⦄ ⦃l : Level Db⦄ ⦃crypto : Crypto⦄ ⦃keys : Keys⦄
      (signing : Signing) (now : ℕ) (w : WalletDb Db) where
    -- the transaction of `transfer`, and the height from which it is searched
    unfoldable pub build_transfer : Bytes → Bytes → Bytes → Bytes → Result (Tx × ℕ)
    build_transfer account to_address amount memo = do
      acc ← get_account w account
      to ← defined (keys.public_from_wif to_address) invalid_wif
      amt ← defined (n.parse_asset amount) invalid_asset
      total ← remote.total_fee (acc.0)
      fee ← defined (fee_for amt.symbol total) unhandled_asset_type
      height ← remote.height
      ok (
        transfer (
            signing.sign_transfer
              (record {
                timestamp = now;
                from = acc.0;
                to = to;
                amount = amt;
                fee = fee;
                memo = memo;
                signature_pairs = [];
              })
              acc),
        height,
      )

    unfoldable pub exec_transfer : List Bytes → Outbox → Result (Unit {0}) × Outbox
    exec_transfer args =
        send_if (is_given (arg args 1) && (is_given (arg args 2) && is_given (arg args 3))) (
          send_built (λ tx. report (broadcasting tx)) (λ tx o. o)
            (build_transfer (arg args 1) (arg args 2) (arg args 3) (arg args 4)))

    -- the transaction of `create_bond`
    unfoldable pub build_bond : Bytes → Bytes → Bytes → Result (Tx × ℕ)
    build_bond minter staker stake_amount = do
      minter_acc ← get_account w minter
      staker_acc ← get_account w staker
      total ← remote.total_fee (staker_acc.0)
      height ← remote.height
      stake ← defined (n.parse_asset stake_amount) invalid_asset
      fee ← defined (total.0) type_error
      ok (
        bond (
            signing.sign_bond
              (signing.sign_bond
                (record {
                  timestamp = now;
                  fee = fee;
                  minter = minter_acc.0;
                  staker = staker_acc.0;
                  stake_amt = stake;
                  bond_fee = bond_fee_amount;
                  signature_pairs = [];
                })
                minter_acc)
              staker_acc),
        height,
      )

    unfoldable pub exec_create_bond : List Bytes → Outbox → Result (Unit {0}) × Outbox
    exec_create_bond args = send_if (is_given (arg args 1) && is_given (arg args 2)) (
        send_built (λ tx o. o) (λ tx. report (broadcasting tx))
          (build_bond (arg args 1) (arg args 2) (arg args 3)))

    -- A transfer that the arguments, the account and the node's answers lead to.
    pub record IsPayment (args : List Bytes) (tx : Tx) : Type 0 where
      pub acc : KeyPair
      pub to : PublicKey
      pub amt : Asset
      pub fee : Asset
      pub total : Balance
      pub account : get_account w (arg args 1) ≡ ok acc
      pub address : keys.public_from_wif (arg args 2) ≡ some to
      pub amount : n.parse_asset (arg args 3) ≡ some amt
      pub asked : remote.total_fee (acc.0) ≡ ok total
      pub paid : fee_for amt.symbol total ≡ some fee
      pub is_tx :
          tx
          ≡ transfer (
              signing.sign_transfer
                (record {
                  timestamp = now;
                  from = acc.0;
                  to = to;
                  amount = amt;
                  fee = fee;
                  memo = arg args 4;
                  signature_pairs = [];
                })
                acc)
