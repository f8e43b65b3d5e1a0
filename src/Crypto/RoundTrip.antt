-- ===== src/Crypto/RoundTrip.antt =====
-- crypto.go: what is encrypted can be read again, and the key is never replaced.
use mathlib.Core.Option.{some-injective}
use ssh_tunnel_manager.Common.{
  leb, ap, ◌∙◌, sym, drop-append, inl, take-append, inr, length-append, Bool-cases, equal_iff, ◌≤◌,
  ℕ, ◌+◌, ◌≡◌, refl, true, false, [], ◌++◌, some, Text, length, arith,
}
use ssh_tunnel_manager.Common.Maps.{lookup}
use ssh_tunnel_manager.Crypto.{
  open_with, read_key, after_migration, is_empty, Cipher, KeyEnv, key_path, ok,
  load_or_create_secret_key, encrypt_password, decrypt_password, is_encrypted,
}
use ssh_tunnel_manager.Files.{FileSystem}

-- The documented behaviour of the packages.
pub record IsAead (crypto : Cipher) : Type 0 where
  pub decodes : (t : Text) → crypto.base64_decode (crypto.base64_encode t) ≡ some t
  pub decodes_empty : crypto.base64_decode [] ≡ some []
  pub opens :
      (key nonce plaintext : Text)
      → crypto.unseal key nonce (crypto.seal key nonce plaintext) ≡ some plaintext
  pub tag :
      (key nonce plaintext : Text)
      → length (crypto.seal key nonce plaintext) ≡ length plaintext + 16

-- The key file is there, readable and of the right size.
pub record HasKey (env : KeyEnv) (directory key : Text) (fs : FileSystem) : Type 0 where
  pub dir_known : env.dir ≡ some directory
  pub can_read : env.readable ≡ true
  pub stored : lookup (key_path directory) fs ≡ some key
  pub key_size : length key ≡ 32

after_migration_present :
    (env : KeyEnv) (path key : Text) (fs : FileSystem)
    → lookup path fs ≡ some key
    → after_migration env path fs ≡ fs
after_migration_present env path key fs h = rw (h, after_migration) refl

read_key_present :
    (env : KeyEnv) (path key : Text) (fs : FileSystem)
    → lookup path fs ≡ some key
    → env.readable ≡ true
    → length key ≡ 32
    → read_key env path fs ≡ (fs, ok key)
unfolding read_key
read_key_present env path key fs h r size = rw (h, read_key) (ground arith)

-- The stored key is returned as it is, and no file changes.
pub load_key :
    (env : KeyEnv) (directory key : Text) (fs : FileSystem)
    → HasKey env directory key fs
    → load_or_create_secret_key env fs ≡ (fs, ok key)
unfolding load_or_create_secret_key
load_key env directory key fs k =
    rw (k.dir_known, load_or_create_secret_key)
      (rw (after_migration_present env (key_path directory) key fs k.stored)
        (read_key_present env (key_path directory) key fs k.stored k.can_read k.key_size))

module _ (crypto : Cipher) (a : IsAead crypto) where
  nonempty_base64 : (t : Text) → 1 ≤ length t → is_empty (crypto.base64_encode t) ≡ false
  nonempty_base64 t h = elim (Bool-cases (is_empty (crypto.base64_encode t))) [
    | inr f ↦ f
    | inl e ↦
        let empty : crypto.base64_encode t ≡ [] = (equal_iff (crypto.base64_encode t) []).0 e in
        let same : t ≡ [] = some-injective _ _ (sym (a.decodes t) ∙ rw empty a.decodes_empty) in
        absurd (omega (arith, ap length same))
  ]

  -- A text of the shape that `encryptPassword` makes is taken for encrypted.
  pub is_encrypted-base64 :
      (t : Text) → 28 ≤ length t → is_encrypted crypto (crypto.base64_encode t) ≡ true
  unfolding is_encrypted
  is_encrypted-base64 t h =
      rw (nonempty_base64 t (omega arith), is_encrypted)
        (rw (a.decodes t, is_encrypted) (ground arith))

  -- What the app stores for a secret.
  abbrev pub secret : Text → Text → Text → Text
  secret key nonce plaintext = crypto.base64_encode (nonce ++ crypto.seal key nonce plaintext)

  pub encrypt_password_lem :
      (env : KeyEnv) (directory key : Text) (fs : FileSystem) (nonce plaintext : Text)
      → HasKey env directory key fs
      → is_empty plaintext ≡ false
      → encrypt_password crypto env (some nonce) plaintext fs
        ≡ (fs, ok (secret key nonce plaintext))
  unfolding encrypt_password
  encrypt_password_lem env directory key fs nonce plaintext k ne =
      rw (ne, load_key env directory key fs k) refl

  long_secret :
      (key nonce plaintext : Text)
      → length nonce ≡ 12
      → 28 ≤ length (nonce ++ crypto.seal key nonce plaintext)
  long_secret key nonce plaintext size = omega (
    arith,
    size,
    length-append nonce (crypto.seal key nonce plaintext),
    a.tag key nonce plaintext,
  )

  pub is_empty-secret :
      (key nonce plaintext : Text)
      → length nonce ≡ 12
      → is_empty (secret key nonce plaintext) ≡ false
  is_empty-secret key nonce plaintext size =
      nonempty_base64 (nonce ++ crypto.seal key nonce plaintext)
        (omega (arith, long_secret key nonce plaintext size))

  pub decrypt_password_lem :
      (env : KeyEnv) (directory key : Text) (fs : FileSystem) (nonce plaintext : Text)
      → HasKey env directory key fs
      → length nonce ≡ 12
      → decrypt_password crypto env (secret key nonce plaintext) fs ≡ (fs, ok plaintext)
  unfolding decrypt_password
  decrypt_password_lem env directory key fs nonce plaintext k size =
      let raw = nonce ++ crypto.seal key nonce plaintext in
      let long = long_secret key nonce plaintext size in
      rw (nonempty_base64 raw (omega arith), load_key env directory key fs k)
        (rw (a.decodes raw, open_with)
          (rw
            (
              leb_true 28 (length raw) long,
              take-append 12 nonce (crypto.seal key nonce plaintext) size,
              drop-append 12 nonce (crypto.seal key nonce plaintext) size,
              a.opens key nonce plaintext,
            )
            refl))
    where
      leb_true : (x y : ℕ) → x ≤ y → leb x y ≡ true
      leb_true x y h = ground arith

  -- With packages that behave as documented and the key file in place, a password that is not empty is
  -- encrypted, with a nonce of the cipher's size, to a text that is taken for encrypted; and that
  -- decrypts to the password wherever the same key is in place. No file changes.
  pub decrypt_password-encrypt_password :
      (env : KeyEnv) (directory key : Text) (fs fs' : FileSystem) (nonce plaintext : Text)
      → HasKey env directory key fs
      → HasKey env directory key fs'
      → length nonce ≡ 12
      → is_empty plaintext ≡ false
      → (cipher_text : Text) × (encrypt_password crypto env (some nonce) plaintext fs
          ≡ (fs, ok cipher_text))
        × (is_encrypted crypto cipher_text ≡ true)
        × (decrypt_password crypto env cipher_text fs' ≡ (fs', ok plaintext))
  decrypt_password-encrypt_password env directory key fs fs' nonce plaintext k k' size ne = (
    secret key nonce plaintext,
    encrypt_password_lem env directory key fs nonce plaintext k ne,
    is_encrypted-base64 _ (long_secret key nonce plaintext size),
    decrypt_password_lem env directory key fs' nonce plaintext k' size,
  )
