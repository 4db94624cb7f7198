-- ===== src/Wallet/Accounts.antt =====
-- The accounts of a wallet.
use godcoin_js_legacy.Prelude.{
  ◌≡◌, ◌≢◌, refl, ap, ◌∙◌, true, false, Option, some, Bytes, Result, ok, arith, length, defined,
  ◌>>=◌, bytes_equal, bytes_equal_iff, bytes_eq, not_found, invalid_wif, if_true,
}
use godcoin_js_legacy.Packages.{Level, LevelLaws}
use godcoin_js_legacy.Wallet.Db.{
  Crypto, CryptoLaws, Keys, KeyPair, WalletDb, initialized, account_key, encrypt_value,
  decrypt_value, set_wallet_prop, set_prop_with, get_wallet_prop, get_account, has_account,
  set_account, found_account,
}
use godcoin_js_legacy.Wallet.Passwords.{decrypt-encrypt}

module _ {Db : Type 0} ⦃l : Level Db⦄ ⦃crypto : Crypto⦄ ⦃keys : Keys⦄ (laws : LevelLaws l)
    (cl : CryptoLaws crypto) where
  -- a prop under another key is read as before
  other_prop :
      (d : Db) (password : Option Bytes) (prop other value : Bytes)
      → bytes_equal prop other ≡ false
      → get_wallet_prop (record { db = l.put d prop value; password = password }) other
        ≡ get_wallet_prop (record { db = d; password = password }) other
  unfolding get_wallet_prop
  other_prop d password prop other value e =
      ap (λ o. defined o not_found >>= decrypt_value password)
        (ground (arith, laws.get-put d prop other value, e))

  other_account :
      (name other : Bytes)
      → name ≢ other
      → bytes_equal (account_key name) (account_key other) ≡ false
  unfolding bytes_equal
  other_account name other differs = ground (arith, bytes_equal_iff name other, differs)

  set_account_lem :
      (nonce name key : Bytes) (k : KeyPair) (w : WalletDb Db)
      → w.password ≡ some key
      → set_account nonce name (k.1) w ≡ (
        ok tt,
        record w { db = l.put w.db (account_key name) (encrypt_value nonce (keys.wif (k.1)) key) },
      )
  unfolding set_account set_wallet_prop
  set_account_lem nonce name key k w opened =
      ap (λ o. set_prop_with o nonce (account_key name) (keys.wif (k.1)) w) opened

  own_account :
      (nonce name key : Bytes) (k : KeyPair) (w : WalletDb Db)
      → length nonce ≡ crypto.nonce_bytes
      → w.password ≡ some key
      → keys.from_wif (keys.wif (k.1)) ≡ some k
      → get_account
          (record w {
            db = l.put w.db (account_key name) (encrypt_value nonce (keys.wif (k.1)) key);
          })
          name
        ≡ ok k
  unfolding get_account get_wallet_prop
  own_account nonce name key k w n opened pair =
      let value = encrypt_value nonce (keys.wif (k.1)) key in
      let prop = account_key name in
      let read : Result Bytes → Result KeyPair =
        λ r. r >>= λ text. defined (keys.from_wif text) invalid_wif in
      ap (λ o. read (defined o not_found >>= decrypt_value w.password))
        (laws.get-put w.db prop prop value
          ∙ if_true (some value) (l.get w.db prop) ((bytes_equal_iff prop prop).1 refl))
      ∙ ap (λ p. read (decrypt_value p value)) opened
      ∙ ap read (decrypt-encrypt cl nonce (keys.wif (k.1)) key n)
      ∙ ap (λ o. defined o invalid_wif) pair

  -- An account that is stored in an open wallet is read back with its key pair; the other accounts, and
  -- the check text of the password, are read as before.
  pub set_account-get_account :
      (nonce name other key : Bytes) (k : KeyPair) (w : WalletDb Db)
      → length nonce ≡ crypto.nonce_bytes
      → w.password ≡ some key
      → keys.from_wif (keys.wif (k.1)) ≡ some k
      → name ≢ other
      → let w' = (set_account nonce name (k.1) w).1 in
        ((set_account nonce name (k.1) w).0 ≡ ok tt)
        × (get_account w' name ≡ ok k)
        × (has_account w' name ≡ ok true)
        × (get_account w' other ≡ get_account w other)
        × (get_wallet_prop w' initialized ≡ get_wallet_prop w initialized)
  unfolding get_account has_account bytes_equal
  set_account-get_account nonce name other key k w n opened pair differs =
      let value = encrypt_value nonce (keys.wif (k.1)) key in
      let w' : WalletDb Db = record w { db = l.put w.db (account_key name) value } in
      let stored = set_account_lem nonce name key k w opened in
      let after = ap (λ (r : Result (Unit {0}) × WalletDb Db). r.1) stored in
      let own = ap (λ x. get_account x name) after ∙ own_account nonce name key k w n opened pair in
      (
        ap (λ (r : Result (Unit {0}) × WalletDb Db). r.0) stored,
        own,
        ap found_account own,
        ap (λ x. get_account x other) after
            ∙ ap (λ r. r >>= λ prop. defined (keys.from_wif prop) invalid_wif)
                (other_prop w.db w.password (account_key name) (account_key other) value
                  (other_account name other differs)),
        ap (λ x. get_wallet_prop x initialized) after
            ∙ other_prop w.db w.password (account_key name) initialized value refl,
      )
