-- ===== src/Wallet/Commands.antt =====
-- The commands of src/cli/wallet/cmd that change the wallet. Where the code reads what is not in the
-- repository (a nonce, a key pair), it is an argument.
use godcoin_js_legacy.Prelude.{
  ℕ, List, [], ◌∷◌, Bool, true, false, Option, none, some, Bytes, Result, ok, err, defined,
  get_elem?, assert, ◌==◌, bytes_eq, encryption_test_failed, invalid_wif, wrong_secret_key,
}
use godcoin_js_legacy.Packages.{Level}
use godcoin_js_legacy.Exec.{Exec, lift, modify, ◌>>=◌, ◌>>◌}
use godcoin_js_legacy.Wallet.Parser.{trim}
use godcoin_js_legacy.Wallet.Db.{
  Crypto, Keys, KeyPair, WalletDb, initialized, set_password, lock_db, is_locked, set_wallet_prop,
  get_wallet_prop, has_account, set_account, delete_account,
}

pub data WalletState : Type 0 where
  new locked unlocked : WalletState

-- what the commands write
pub data Message : Type 0 where
  already_unlocked already_exists not_initialized incorrect_password : Message
  -- the usage of the command
  missing_argument : Message
  account_exists no_account account_not_found : Message
  created : KeyPair → Message

-- `prompt` is the state that the prompt shows, `output` what was written, the latest first
pub record Wallet (Db : Type 0) : Type 0 where
  pub state : WalletState
  pub wallet_db : WalletDb Db
  pub prompt : WalletState
  pub output : List Message

-- `(args[i] || '').trim()`
abbrev pub or_empty : Option Bytes → Bytes
or_empty none = []
or_empty (some text) = text

unfoldable pub arg : List Bytes → ℕ → Bytes
arg args i = trim (or_empty (get_elem? args i))

-- 'hello'
abbrev pub hello : Bytes
hello = 104 ∷ 101 ∷ 108 ∷ 108 ∷ 111 ∷ []

module _ {Db : Type 0} where
  abbrev pub say : Message → Exec (Wallet Db) (Unit {0})
  say m w = (ok tt, record w { output = m ∷ w.output })

  -- an action of `wallet.db`
  abbrev pub on_db : {A : Type 0} → Exec (WalletDb Db) A → Exec (Wallet Db) A
  on_db m w = let r = m w.wallet_db in (r.0, record w { wallet_db = r.1 })

  abbrev pub change_db : (WalletDb Db → WalletDb Db) → Wallet Db → Wallet Db
  change_db f w = record w { wallet_db = f w.wallet_db }

module _ {Db : Type 0} ⦃l : Level Db⦄ ⦃crypto : Crypto⦄ ⦃keys : Keys⦄ where
  -- the state in `Wallet.start`
  unfoldable pub start_state : WalletDb Db → Wallet Db
  start_state d =
      let s : WalletState = elim (is_locked d) [ true ↦ locked | false ↦ new ] in
      record { state = s; wallet_db = d; prompt = s; output = [] }

  -- the encryption test of `execNew`
  unfoldable pub encryption_test : Exec (Wallet Db) (Unit {0})
  encryption_test = do
    msg ← (λ w. (get_wallet_prop w.wallet_db initialized, w))
    lift (assert (msg == hello) encryption_test_failed)

  -- the rest of `execNew`
  abbrev pub set_check_text : Bytes → Exec (Wallet Db) (Unit {0})
  set_check_text nonce = do
    on_db (set_wallet_prop nonce initialized hello)
    encryption_test
    modify (λ w. change_db lock_db (record w { state = locked; prompt = locked }))

  -- `execNew` in the state `NEW`, by the password
  abbrev pub create_wallet : Bytes → Bytes → Exec (Wallet Db) (Unit {0})
  create_wallet nonce [] = say missing_argument
  create_wallet nonce (ch ∷ pw) = do on_db (set_password (ch ∷ pw)); set_check_text nonce

  abbrev pub new_in : WalletState → Bytes → Bytes → Exec (Wallet Db) (Unit {0})
  new_in unlocked nonce pw = say already_unlocked
  new_in locked nonce pw = say already_exists
  new_in new nonce pw = create_wallet nonce pw

  unfoldable pub exec_new : Bytes → List Bytes → Exec (Wallet Db) (Unit {0})
  exec_new nonce args w = new_in w.state nonce (arg args 1) w

  -- the rest of `execUnlock`, by what `getProp` gives
  abbrev pub unlock_at : Bool → Exec (Wallet Db) (Unit {0})
  unlock_at true w = (ok tt, record w { state = unlocked; prompt = unlocked })
  unlock_at false w = say incorrect_password w

  abbrev pub unlock_with : Result Bytes → Exec (Wallet Db) (Unit {0})
  unlock_with (ok msg) w = unlock_at (msg == hello) w
  unlock_with (err wrong_secret_key) w = (ok tt, change_db lock_db ((say incorrect_password w).1))
  unlock_with (err e) w = (err e, w)

  abbrev pub open_wallet : Bytes → Exec (Wallet Db) (Unit {0})
  open_wallet [] = say missing_argument
  open_wallet (ch ∷ pw) = do
    on_db (set_password (ch ∷ pw))
    (λ w. unlock_with (get_wallet_prop w.wallet_db initialized) w)

  abbrev pub unlock_in : WalletState → Bytes → Exec (Wallet Db) (Unit {0})
  unlock_in new pw = say not_initialized
  unlock_in unlocked pw = say already_unlocked
  unlock_in locked pw = open_wallet pw

  unfoldable pub exec_unlock : List Bytes → Exec (Wallet Db) (Unit {0})
  exec_unlock args w = unlock_in w.state (arg args 1) w

  -- by whether there is an account of the name
  abbrev pub create_unless : Bool → Bytes → Bytes → KeyPair → Exec (Wallet Db) (Unit {0})
  create_unless true name nonce pair = say account_exists
  create_unless false name nonce pair = do
    on_db (set_account nonce name (pair.1))
    say (created pair)

  abbrev pub create_account : Bytes → Bytes → KeyPair → Exec (Wallet Db) (Unit {0})
  create_account [] nonce pair = say missing_argument
  create_account (ch ∷ name) nonce pair = do
    exists ← (λ w. (has_account w.wallet_db (ch ∷ name), w))
    create_unless exists (ch ∷ name) nonce pair

  -- `pair` is the one that `genKeyPair` gives
  unfoldable pub exec_create_account : Bytes → KeyPair → List Bytes → Exec (Wallet Db) (Unit {0})
  exec_create_account nonce pair args = create_account (arg args 1) nonce pair

  abbrev pub import_unless : Bool → Bytes → Bytes → Bytes → Exec (Wallet Db) (Unit {0})
  import_unless true name pk nonce = say account_exists
  import_unless false name pk nonce = do
    pair ← lift (defined (keys.from_wif pk) invalid_wif)
    on_db (set_account nonce name (pair.1))

  abbrev pub import_account : Bytes → Bytes → Bytes → Exec (Wallet Db) (Unit {0})
  import_account [] pk nonce = say missing_argument
  import_account (ch ∷ name) [] nonce = say missing_argument
  import_account (ch ∷ name) (k ∷ pk) nonce = do
    exists ← (λ w. (has_account w.wallet_db (ch ∷ name), w))
    import_unless exists (ch ∷ name) (k ∷ pk) nonce

  unfoldable pub exec_import_account : Bytes → List Bytes → Exec (Wallet Db) (Unit {0})
  exec_import_account nonce args = import_account (arg args 1) (arg args 2) nonce

  abbrev pub remove_if : Bool → Bytes → Exec (Wallet Db) (Unit {0})
  remove_if false name = say no_account
  remove_if true name = modify (change_db (delete_account name))

  abbrev pub remove_account : Bytes → Exec (Wallet Db) (Unit {0})
  remove_account [] = say missing_argument
  remove_account (ch ∷ name) = do
    exists ← (λ w. (has_account w.wallet_db (ch ∷ name), w))
    remove_if exists (ch ∷ name)

  unfoldable pub exec_remove_account : List Bytes → Exec (Wallet Db) (Unit {0})
  exec_remove_account args = remove_account (arg args 1)
