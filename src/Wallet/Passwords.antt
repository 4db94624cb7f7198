-- ===== src/Wallet/Passwords.antt =====
-- A new wallet and its password.
use godcoin_js_legacy.Prelude.{
  ℕ, ◌≡◌, ◌≢◌, ◌⊎◌, inl, inr, Bool-cases, refl, sym, ap, ◌∙◌, List, [], ◌∷◌, ◌++◌, Bool, true,
  false, Option, none, some, Bytes, Result, ok, err, arith, length, take, drop, take-append,
  drop-append, defined, ◌==◌, bytes_eq, bytes_equal, bytes_equal_iff, wrong_secret_key,
}
use godcoin_js_legacy.Prelude
use godcoin_js_legacy.Packages.{Level, LevelLaws}
use godcoin_js_legacy.Exec.{resume, lift, modify, ◌>>◌}
use godcoin_js_legacy.Wallet.Db.{
  Crypto, CryptoLaws, Keys, initialized, encrypt_value, decrypt_value, set_password,
  set_password_at, set_wallet_prop, get_wallet_prop, lock_db,
}
use godcoin_js_legacy.Wallet.Commands.{
  Wallet, new, locked, unlocked, incorrect_password, hello, arg, encryption_test, create_wallet,
  exec_new, new_in, exec_unlock, open_wallet, unlock_with, change_db, set_check_text,
}

module _ ⦃crypto : Crypto⦄ (cl : CryptoLaws crypto) where
  pub decrypt-encrypt :
      (nonce value key : Bytes)
      → length nonce ≡ crypto.nonce_bytes
      → decrypt_value (some key) (encrypt_value nonce value key) ≡ ok value
  unfolding decrypt_value encrypt_value
  decrypt-encrypt nonce value key n =
      let sealed = crypto.seal value nonce key in
      rw (
        cl.from_base64-to (nonce ++ sealed),
        sym n,
        take-append nonce sealed,
        drop-append nonce sealed,
        cl.unseal-seal value nonce key,
      )

  pub decrypt-other :
      (nonce value key other : Bytes)
      → length nonce ≡ crypto.nonce_bytes
      → key ≢ other
      → decrypt_value (some other) (encrypt_value nonce value key) ≡ err wrong_secret_key
  unfolding decrypt_value encrypt_value
  decrypt-other nonce value key other n differs =
      let sealed = crypto.seal value nonce key in
      rw (
        cl.from_base64-to (nonce ++ sealed),
        sym n,
        take-append nonce sealed,
        drop-append nonce sealed,
        cl.unseal-other value nonce key other differs,
      )

module _ {Db : Type 0} ⦃l : Level Db⦄ ⦃crypto : Crypto⦄ ⦃keys : Keys⦄ where
  -- the wallet after `new <password>`
  abbrev pub created_wallet : Bytes → Bytes → Wallet Db → Wallet Db
  created_wallet nonce pw w = record w {
    state = locked;
    prompt = locked;
    wallet_db = record {
      db = l.put w.wallet_db.db initialized (encrypt_value nonce hello (crypto.sha256 pw));
      password = none;
    };
  }

  abbrev pub with_key : Bytes → Wallet Db → Wallet Db
  with_key key w = record w { wallet_db = record (w.wallet_db) { password = some key } }

  -- `unlock` succeeds with the same hash, and is refused with another
  abbrev pub IsUnlocking : Bytes → Bytes → Bytes → List Bytes → Wallet Db → Type 0
  IsUnlocking nonce pw given args w =
      ((crypto.sha256 pw ≡ crypto.sha256 given)
        × (exec_unlock args (created_wallet nonce pw w) ≡ (
          ok tt,
          record (with_key (crypto.sha256 given) (created_wallet nonce pw w)) {
            state = unlocked;
            prompt = unlocked;
          },
        )))
      ⊎ ((crypto.sha256 pw ≢ crypto.sha256 given)
          × (exec_unlock args (created_wallet nonce pw w) ≡ (
            ok tt,
            record (created_wallet nonce pw w) {
              output = incorrect_password ∷ (created_wallet nonce pw w).output;
            },
          )))

module _ {Db : Type 0} ⦃l : Level Db⦄ ⦃crypto : Crypto⦄ ⦃keys : Keys⦄ (laws : LevelLaws l)
    (cl : CryptoLaws crypto) where
  get-put_self : (d : Db) (k v : Bytes) → l.get (l.put d k v) k ≡ some v
  get-put_self d k v = rw (laws.get-put d k k v, (bytes_equal_iff k k).1 refl) refl

  -- what the check text gives under a password
  stored_hello :
      (d : Db) (key : Option Bytes) (value : Bytes)
      → get_wallet_prop (record { db = l.put d initialized value; password = key }) initialized
        ≡ decrypt_value key value
  unfolding get_wallet_prop
  stored_hello d key value =
      ap (λ o. Prelude.◌>>=◌ (defined o Prelude.not_found) (decrypt_value key))
        (get-put_self d initialized value)

  passes_test :
      (w : Wallet Db)
      → get_wallet_prop w.wallet_db initialized ≡ ok hello
      → encryption_test w ≡ (ok tt, w)
  unfolding encryption_test bytes_equal
  passes_test w e =
      ap
        (λ r.
          resume r (λ msg. lift (Prelude.assert (msg == hello) Prelude.encryption_test_failed)) w)
        e

  create_wallet_lem :
      (nonce pw : Bytes) (ch : ℕ) (w : Wallet Db)
      → length nonce ≡ crypto.nonce_bytes
      → w.wallet_db.password ≡ none
      → create_wallet nonce (ch ∷ pw) w ≡ (ok tt, created_wallet nonce (ch ∷ pw) w)
  unfolding set_password set_wallet_prop lock_db
  create_wallet_lem nonce pw ch w n no_password =
      let key = crypto.sha256 (ch ∷ pw) in
      let value = encrypt_value nonce hello key in
      let stored : Wallet Db = record w {
        wallet_db = record { db = l.put w.wallet_db.db initialized value; password = some key };
      } in
      ap
        (λ o.
          ((λ w'.
                let r = set_password_at o (ch ∷ pw) w'.wallet_db in
                (r.0, record w' { wallet_db = r.1 }))
              >> set_check_text nonce)
            w)
        no_password
      ∙ ap
          (λ (x : Result (Unit {0}) × Wallet Db).
            resume x.0
              (λ done.
                modify (λ w'. change_db lock_db (record w' { state = locked; prompt = locked })))
              x.1)
          (passes_test stored
            (stored_hello w.wallet_db.db (some key) value ∙ decrypt-encrypt cl nonce hello key n))

  -- by the state and by the argument
  exec_new-created :
      (nonce pw : Bytes) (ch : ℕ) (args : List Bytes) (w : Wallet Db)
      → length nonce ≡ crypto.nonce_bytes
      → w.state ≡ new
      → w.wallet_db.password ≡ none
      → arg args 1 ≡ ch ∷ pw
      → exec_new nonce args w ≡ (ok tt, created_wallet nonce (ch ∷ pw) w)
  unfolding exec_new
  exec_new-created nonce pw ch args w n fresh no_password given =
      ap (λ s. new_in s nonce (arg args 1) w) fresh
      ∙ ap (λ t. create_wallet nonce t w) given
      ∙ create_wallet_lem nonce pw ch w n no_password

  -- an unlock of that wallet, by what the check text gives
  exec_unlock-created :
      (nonce pw given : Bytes) (ch : ℕ) (args : List Bytes) (w : Wallet Db) {r : Result Bytes}
      → arg args 1 ≡ ch ∷ given
      → decrypt_value
          (some (crypto.sha256 (ch ∷ given)))
          (encrypt_value nonce hello (crypto.sha256 pw))
        ≡ r
      → exec_unlock args (created_wallet nonce pw w)
        ≡ unlock_with r (with_key (crypto.sha256 (ch ∷ given)) (created_wallet nonce pw w))
  unfolding exec_unlock set_password
  exec_unlock-created nonce pw given ch args w same gives =
      let made = created_wallet nonce pw w in
      let key = crypto.sha256 (ch ∷ given) in
      ap (λ t. open_wallet t made) same
      ∙ ap (λ x. unlock_with x (with_key key made))
          (stored_hello w.wallet_db.db (some key) (encrypt_value nonce hello (crypto.sha256 pw))
            ∙ gives)

  -- the check text is read with the key that sealed it, and with no other
  unlock-created :
      (nonce pw given : Bytes) (ch : ℕ) (args : List Bytes) (w : Wallet Db)
      → length nonce ≡ crypto.nonce_bytes
      → arg args 1 ≡ ch ∷ given
      → IsUnlocking nonce pw (ch ∷ given) args w
  unfolding bytes_equal lock_db
  unlock-created nonce pw given ch args w n same =
      let key = crypto.sha256 pw in
      let other = crypto.sha256 (ch ∷ given) in
      elim (Bool-cases (bytes_equal key other)) [
        | inl e ↦
            let keys_same : key ≡ other = (bytes_equal_iff key other).0 e in
            inl (
              keys_same,
              exec_unlock-created nonce pw given ch args w same (
                  ap (λ k. decrypt_value (some other) (encrypt_value nonce hello k)) keys_same
                  ∙ decrypt-encrypt cl nonce hello other n),
            )
        | inr e ↦
            let differs : key ≢ other =
              λ h. absurd (ground (arith, e, (bytes_equal_iff key other).1 h)) in
            inr (
              differs,
              exec_unlock-created nonce pw given ch args w same
                  (decrypt-other cl nonce hello key other n differs),
            )
      ]

  -- After `new` with a password the wallet is locked and holds no password; `unlock` with any text then
  -- unlocks it when the hash of the text is the one of the password, and otherwise leaves it locked
  -- without a password and says so.
  pub exec_new-exec_unlock :
      (nonce pw given : Bytes) (c d : ℕ) (args args' : List Bytes) (w : Wallet Db)
      → length nonce ≡ crypto.nonce_bytes
      → w.state ≡ new
      → w.wallet_db.password ≡ none
      → arg args 1 ≡ c ∷ pw
      → arg args' 1 ≡ d ∷ given
      → (exec_new nonce args w ≡ (ok tt, created_wallet nonce (c ∷ pw) w))
        × IsUnlocking nonce (c ∷ pw) (d ∷ given) args' w
  exec_new-exec_unlock nonce pw given c d args args' w n fresh no_password new_pw unlock_pw = (
    exec_new-created nonce pw c args w n fresh no_password new_pw,
    unlock-created nonce (c ∷ pw) given d args' w n unlock_pw,
  )
