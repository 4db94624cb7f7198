-- ===== src/Wallet/Db.antt =====
-- `WalletDb` of src/cli/wallet/db.ts. Strings are their bytes. The hash and the secret box (`crypto` and
-- libsodium) are the parameters `Crypto`, the key pairs of godcoin-neon are `Keys`; what `randomBytes`
-- gives is an argument.
use godcoin_js_legacy.Prelude.{
  ℕ, ◌≡◌, ◌≢◌, List, [], ◌∷◌, ◌++◌, Bool, true, false, Option, none, some, Bytes, Result, ok, err,
  take, drop, defined, ◌>>=◌, ◌==◌, bytes_eq, nat_eq, password_already_set, not_unlocked, not_found,
  wrong_secret_key, invalid_wif,
}
use godcoin_js_legacy.Neon.{PublicKey}
use godcoin_js_legacy.Packages.{Level}
use godcoin_js_legacy.Exec.{Exec}
use godcoin_js_legacy.Producer.TxPool.{is_some}

pub record Crypto : Type 0 where
  pub sha256 : Bytes → Bytes
  -- `crypto_secretbox_NONCEBYTES`; `crypto_secretbox_easy` and `crypto_secretbox_open_easy`, which
  -- throws at a wrong key
  pub nonce_bytes : ℕ
  pub seal : Bytes → Bytes → Bytes → Bytes
  pub unseal : Bytes → Bytes → Bytes → Option Bytes
  pub to_base64 : Bytes → Bytes
  pub from_base64 : Bytes → Bytes

-- What is sealed is opened with its nonce and its key, and with no other key.
pub record CryptoLaws (c : Crypto) : Type 0 where
  pub unseal-seal : (msg nonce key : Bytes) → c.unseal (c.seal msg nonce key) nonce key ≡ some msg
  pub unseal-other :
      (msg nonce key other : Bytes)
      → key ≢ other
      → c.unseal (c.seal msg nonce key) nonce other ≡ none
  pub from_base64-to : (b : Bytes) → c.from_base64 (c.to_base64 b) ≡ b

pub record PrivateKey : Type 0 where
  pub seed : Bytes

abbrev pub KeyPair : Type 0
KeyPair = PublicKey × PrivateKey

-- `PrivateKey.toWif`, `PrivateKey.fromWif`, `PublicKey.fromWif` and `PublicKey.toWif`
pub record Keys : Type 0 where
  pub wif : PrivateKey → Bytes
  pub from_wif : Bytes → Option KeyPair
  pub public_wif : PublicKey → Bytes
  pub public_from_wif : Bytes → Option PublicKey

pub record WalletDb (Db : Type 0) : Type 0 where
  pub db : Db
  pub password : Option Bytes

-- 'INITIALIZED' and 'ACCOUNT_'
abbrev pub initialized : Bytes
initialized = 73 ∷ 78 ∷ 73 ∷ 84 ∷ 73 ∷ 65 ∷ 76 ∷ 73 ∷ 90 ∷ 69 ∷ 68 ∷ []

abbrev pub account_prefix : Bytes
account_prefix = 65 ∷ 67 ∷ 67 ∷ 79 ∷ 85 ∷ 78 ∷ 84 ∷ 95 ∷ []

abbrev pub account_key : Bytes → Bytes
account_key name = account_prefix ++ name

-- the tail of a string after a prefix: `startsWith` and `substring`
unfoldable pub after_prefix : Bytes → Bytes → Option Bytes
after_prefix [] text = some text
after_prefix (p ∷ ps) [] = none
after_prefix (p ∷ ps) (ch ∷ rest) =
    let tail = after_prefix ps rest in elim (p == ch) [ true ↦ tail | false ↦ none ]

-- by what `getAccount` gives; `e.notFound`
abbrev pub found_account : Result KeyPair → Result Bool
found_account (ok pair) = ok true
found_account (err not_found) = ok false
found_account (err e) = err e

module _ ⦃crypto : Crypto⦄ where
  -- what `setProp` stores
  unfoldable pub encrypt_value : Bytes → Bytes → Bytes → Bytes
  encrypt_value nonce value key = crypto.to_base64 (nonce ++ crypto.seal value nonce key)

  unfoldable pub decrypt_value : Option Bytes → Bytes → Result Bytes
  decrypt_value none value = err not_unlocked
  decrypt_value (some key) value =
      let cipher_text = crypto.from_base64 value in
      defined
        (crypto.unseal (drop crypto.nonce_bytes cipher_text) (take crypto.nonce_bytes cipher_text)
          key)
        wrong_secret_key

module _ ⦃crypto : Crypto⦄ ⦃keys : Keys⦄ where
  abbrev pub read_row :
      Option Bytes
      → Option Bytes
      → Bytes
      → Result (List (Bytes × KeyPair))
      → Result (List (Bytes × KeyPair))
  read_row password none value rest = rest
  read_row password (some name) value rest = do
    prop ← decrypt_value password value
    pair ← defined (keys.from_wif prop) invalid_wif
    accs ← rest
    ok ((name, pair) ∷ accs)

  -- `getAllAccounts`, on the entries that the stream gives
  unfoldable pub get_all_accounts :
      Option Bytes → List (Bytes × Bytes) → Result (List (Bytes × KeyPair))
  get_all_accounts password [] = ok []
  get_all_accounts password ((key, value) ∷ rows) =
      read_row password (after_prefix account_prefix key) value (get_all_accounts password rows)

module _ {Db : Type 0} ⦃l : Level Db⦄ ⦃crypto : Crypto⦄ ⦃keys : Keys⦄ where
  abbrev pub set_password_at : Option Bytes → Bytes → Exec (WalletDb Db) (Unit {0})
  set_password_at (some earlier) pw w = (err password_already_set, w)
  set_password_at none pw w = (ok tt, record w { password = some (crypto.sha256 pw) })

  unfoldable pub set_password : Bytes → Exec (WalletDb Db) (Unit {0})
  set_password pw w = set_password_at w.password pw w

  unfoldable pub lock_db : WalletDb Db → WalletDb Db
  lock_db w = record w { password = none }

  unfoldable pub is_locked : WalletDb Db → Bool
  is_locked w = is_some (l.get w.db initialized)

  unfoldable pub get_wallet_prop : WalletDb Db → Bytes → Result Bytes
  get_wallet_prop w prop = do
    value ← defined (l.get w.db prop) not_found
    decrypt_value w.password value

  abbrev pub set_prop_with : Option Bytes → Bytes → Bytes → Bytes → Exec (WalletDb Db) (Unit {0})
  set_prop_with none nonce prop value w = (err not_unlocked, w)
  set_prop_with (some key) nonce prop value w =
      (ok tt, record w { db = l.put w.db prop (encrypt_value nonce value key) })

  unfoldable pub set_wallet_prop : Bytes → Bytes → Bytes → Exec (WalletDb Db) (Unit {0})
  set_wallet_prop nonce prop value w = set_prop_with w.password nonce prop value w

  unfoldable pub del_prop : Bytes → WalletDb Db → WalletDb Db
  del_prop prop w = record w { db = l.del w.db prop }

  unfoldable pub get_account : WalletDb Db → Bytes → Result KeyPair
  get_account w name = do
    prop ← get_wallet_prop w (account_key name)
    defined (keys.from_wif prop) invalid_wif

  unfoldable pub has_account : WalletDb Db → Bytes → Result Bool
  has_account w name = found_account (get_account w name)

  unfoldable pub set_account : Bytes → Bytes → PrivateKey → Exec (WalletDb Db) (Unit {0})
  set_account nonce name key = set_wallet_prop nonce (account_key name) (keys.wif key)

  unfoldable pub delete_account : Bytes → WalletDb Db → WalletDb Db
  delete_account name = del_prop (account_key name)
