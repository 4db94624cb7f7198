-- ===== src/Tests/WalletTests.antt =====
-- A wallet with a password, and its accounts, over packages for which the laws hold: the box writes the
-- key before the message.
use godcoin_js_legacy.Prelude.{
  ℕ, zero, suc, ◌+◌, Result, ◌≡◌, ◌≢◌, refl, List, [], ◌∷◌, ◌++◌, true, Option, none, some, Bytes,
  ok, arith, length, take, drop, take-append, drop-append, bytes_equal, bytes_equal_iff,
  if◌then◌else◌, if_true,
}
use godcoin_js_legacy.Wallet.Parser.{trim, trim_start, trim_end, is_space}
use godcoin_js_legacy.Wallet.Db.{
  Crypto, CryptoLaws, Keys, KeyPair, WalletDb, initialized, get_wallet_prop, get_account,
  has_account, set_account,
}
use godcoin_js_legacy.Wallet.Commands.{Wallet, new, arg, exec_new}
use godcoin_js_legacy.Wallet.Passwords.{IsUnlocking, created_wallet, exec_new-exec_unlock}
use godcoin_js_legacy.Wallet.Accounts.{set_account-get_account}
use godcoin_js_legacy.Neon.{SignedBlock, gold, silver}
use godcoin_js_legacy.Assets.{tx_expiry_time}
use godcoin_js_legacy.Wallet.Search.{
  IsFound, found, out_of_rounds, search, find_in, find_tx, find_tx-IsFound, find_tx-ends,
}
use godcoin_js_legacy.Wallet.Words.{IsPlain, word, join}
use godcoin_js_legacy.Wallet.Lines.{name_of, run_unlock, runs, process_line, process_line-join}
use godcoin_js_legacy.Wallet.Payments.{Signing, Remote, Outbox}
use godcoin_js_legacy.Tests.BlockTests.{neon, second_block, income, payment}
use godcoin_js_legacy.Tests.Sample.{Db, level, level_laws, coin}

abbrev open_box : Bytes → Bytes → Option Bytes
open_box [] key = none
open_box (size ∷ rest) key =
    if bytes_equal (take size rest) key then some (drop size rest) else none

instance abbrev crypto : Crypto
crypto = record {
  sha256 = λ pw. pw;
  nonce_bytes = 1;
  seal = λ msg nonce key. length key ∷ (key ++ msg);
  unseal = λ enc nonce key. open_box enc key;
  to_base64 = λ b. b;
  from_base64 = λ b. b;
}

crypto_laws : CryptoLaws crypto
crypto_laws = record {
  unseal-seal = λ msg nonce key.
      rw (take-append key msg, drop-append key msg)
        (if_true (some msg) none ((bytes_equal_iff key key).1 refl));
  unseal-other = λ msg nonce key other differs.
      rw (take-append key msg, drop-append key msg)
        (ground (arith, bytes_equal_iff key other, differs));
  from_base64-to = λ b. refl;
}

instance abbrev keys : Keys
keys = record {
  wif = λ k. k.seed;
  from_wif = λ text. some (record { buffer = text }, record { seed = text });
  public_wif = λ k. k.buffer;
  public_from_wif = λ text. some (record { buffer = text });
}

abbrev fresh_wallet : Wallet Db
fresh_wallet = record {
  state = new;
  wallet_db = record { db = []; password = none };
  prompt = new;
  output = [];
}

-- the words `new`, `unlock`, and two passwords
abbrev new_args : List Bytes
new_args = (110 ∷ 101 ∷ 119 ∷ []) ∷ (32 ∷ 112 ∷ 119 ∷ []) ∷ []

abbrev unlock_args : List Bytes
unlock_args = (117 ∷ []) ∷ (112 ∷ 120 ∷ []) ∷ []

exec_new-exec_unlock_example :
    (exec_new (7 ∷ []) new_args fresh_wallet
      ≡ (ok tt, created_wallet (7 ∷ []) (112 ∷ 119 ∷ []) fresh_wallet))
    × IsUnlocking (7 ∷ []) (112 ∷ 119 ∷ []) (112 ∷ 120 ∷ []) unlock_args fresh_wallet
unfolding arg trim trim_start trim_end is_space
exec_new-exec_unlock_example =
    exec_new-exec_unlock level_laws crypto_laws (7 ∷ []) (119 ∷ []) (120 ∷ []) 112 112 new_args
      unlock_args fresh_wallet refl refl refl refl refl

abbrev pair : KeyPair
pair = (record { buffer = 5 ∷ [] }, record { seed = 5 ∷ [] })

abbrev open_db : WalletDb Db
open_db = record { db = []; password = some (1 ∷ []) }

set_account-get_account_example :
    ((set_account (7 ∷ []) (97 ∷ []) (pair.1) open_db).0 ≡ ok tt)
    × (get_account (set_account (7 ∷ []) (97 ∷ []) (pair.1) open_db).1 (97 ∷ []) ≡ ok pair)
    × (has_account (set_account (7 ∷ []) (97 ∷ []) (pair.1) open_db).1 (97 ∷ []) ≡ ok true)
    × (get_account (set_account (7 ∷ []) (97 ∷ []) (pair.1) open_db).1 (98 ∷ [])
        ≡ get_account open_db (98 ∷ []))
    × (get_wallet_prop (set_account (7 ∷ []) (97 ∷ []) (pair.1) open_db).1 initialized
        ≡ get_wallet_prop open_db initialized)
set_account-get_account_example =
    set_account-get_account level_laws crypto_laws (7 ∷ []) (97 ∷ []) (98 ∷ []) (1 ∷ []) pair
      open_db refl refl refl (λ h. absurd (ground (arith, h)))

-- a clock that begins a second after the blocks, and a node with two blocks
abbrev late_clock : ℕ → ℕ
late_clock k = 5000 + k

abbrev payments : SignedBlock
payments = record second_block { transactions = income ∷ payment ∷ [] }

abbrev blocks : ℕ → ℕ → Result (Option SignedBlock)
blocks (suc (suc round)) (suc zero) = ok (some payments)
blocks round height = ok none

found_payment :
    find_tx late_clock blocks 4 0 payment ≡ found (record { ref_block = 1; ref_tx_pos = 1 })
unfolding find_tx search find_in bytes_equal
found_payment = refl

find_tx-IsFound_example :
    IsFound late_clock blocks
      (5000 + tx_expiry_time)
      (neon.encode_with_sigs payment)
      0
      (record { ref_block = 1; ref_tx_pos = 1 })
find_tx-IsFound_example =
    find_tx-IsFound late_clock blocks 4 0 payment (record { ref_block = 1; ref_tx_pos = 1 })
      found_payment

find_tx-ends_example : find_tx late_clock blocks 60001 0 payment ≢ out_of_rounds
find_tx-ends_example =
    find_tx-ends late_clock blocks 60000 0 payment (λ i. omega arith) (omega arith)

abbrev signing : Signing
signing = record { sign_transfer = λ tx k. tx; sign_bond = λ tx k. tx }

abbrev remote : Remote
remote = record {
  total_fee = λ k. ok (some (coin 3 gold), some (coin 4 silver));
  height = ok 0;
  broadcast = λ tx. ok tt;
  search = λ height tx. ok none;
}

abbrev with_account : WalletDb Db
with_account = (set_account (7 ∷ []) (97 ∷ []) (pair.1) open_db).1

-- `transfer a b <amount>`, with the text of ten gold
abbrev transfer_args : List Bytes
transfer_args = (116 ∷ []) ∷ (97 ∷ []) ∷ (98 ∷ []) ∷ neon.print_asset (coin 10 gold) ∷ []

abbrev empty_outbox : Outbox
empty_outbox = record { sent = []; reports = [] }

letter_a : IsPlain 97
unfolding is_space
letter_a = record { no_space = refl; no_blank = refl; no_quote = refl; no_backslash = refl }

process_line-join_example :
    process_line (join (name_of run_unlock) ((97 ∷ []) ∷ []))
    ≡ runs run_unlock (name_of run_unlock ∷ (97 ∷ []) ∷ [])
process_line-join_example = process_line-join run_unlock ((97 ∷ []) ∷ []) (word letter_a tt, tt)
