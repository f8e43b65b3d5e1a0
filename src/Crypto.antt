-- ===== src/Crypto.antt =====
-- crypto.go: the key file and the encryption of the stored secrets.
pub mod RoundTrip
pub mod Key
use ssh_tunnel_manager.Common.{
  ℕ, Bool, true, false, not, List, [], ◌∷◌, ◌++◌, Option, none, some, Text, text, if◌then◌else◌,
  length, take, drop, leb, ◌==◌,
}
use ssh_tunnel_manager.Common.Maps.{lookup, insert}
use ssh_tunnel_manager.Files.{FileSystem}
use ssh_tunnel_manager.Paths.{Migration, migrate_file, join_path}
use ssh_tunnel_manager.SshCommand.{is_empty}

pub data CryptoError : Type 0 where
  no_key_dir wrong_key_size key_unreadable no_random no_key_directory key_not_written : CryptoError
  no_nonce gcm_open_failed : CryptoError

pub data Result (A : Type 0) : Type 0 where
  ok : A → Result A
  err : CryptoError → Result A

-- The packages crypto/aes, crypto/cipher and encoding/base64: `seal` and `unseal` are AES-256-GCM under
-- a key and a nonce, with no additional data.
pub record Cipher : Type 0 where
  pub seal : Text → Text → Text → Text
  pub unseal : Text → Text → Text → Option Text
  pub base64_encode : Text → Text
  pub base64_decode : Text → Option Text

-- What the operating system answers about the key: the result of `secretKeyDir`, whether the file can
-- be read, made and written, and 32 random bytes.
pub record KeyEnv : Type 0 where
  pub dir : Option Text
  pub migration : Migration
  pub readable : Bool
  pub random_key : Option Text
  pub mkdir_works : Bool
  pub write_works : Bool

abbrev pub key_path : Text → Text
key_path dir = join_path dir (text "secret.key")

-- The file when `secret.key` has been moved from the legacy place, if it was there.
abbrev pub after_migration : KeyEnv → Text → FileSystem → FileSystem
after_migration env path fs = elim (lookup path fs) [
  | some _ ↦ fs
  | none ↦ migrate_file env.migration (text "secret.key") path fs
]

abbrev pub generate_key : KeyEnv → Text → FileSystem → FileSystem × Result Text
generate_key env path fs = elim env.random_key [
  | none ↦ (fs, err no_random)
  | some key ↦
      if not env.mkdir_works
      then (fs, err no_key_directory)
      else if not env.write_works
      then (fs, err key_not_written)
      else (insert path key fs, ok key)
]

-- A file that is there but cannot be read is an error, not a reason for a new key.
unfoldable pub read_key : KeyEnv → Text → FileSystem → FileSystem × Result Text
read_key env path fs = elim (lookup path fs) [
  | none ↦ generate_key env path fs
  | some key ↦
      if not env.readable
      then (fs, err key_unreadable)
      else if length key == 32
      then (fs, ok key)
      else (fs, err wrong_key_size)
]

unfoldable pub load_or_create_secret_key : KeyEnv → FileSystem → FileSystem × Result Text
unfolding migrate_file read_key
load_or_create_secret_key env fs = elim env.dir [
  | none ↦ (fs, err no_key_dir)
  | some dir ↦ read_key env (key_path dir) (after_migration env (key_path dir) fs)
]

abbrev pub min_ciphertext_len : ℕ
min_ciphertext_len = 28

-- `gcm.NonceSize()`
abbrev pub nonce_size : ℕ
nonce_size = 12

unfoldable pub is_encrypted : Cipher → Text → Bool
is_encrypted crypto cipher_text =
    if is_empty cipher_text then false else elim (crypto.base64_decode cipher_text) [
      | none ↦ false
      | some raw ↦ leb min_ciphertext_len (length raw)
    ]

abbrev seal_with : Cipher → Option Text → Text → FileSystem × Result Text → FileSystem × Result Text
seal_with crypto _ plaintext (fs, err e) = (fs, err e)
seal_with crypto none plaintext (fs, ok key) = (fs, err no_nonce)
seal_with crypto (some bytes) plaintext (fs, ok key) =
    (fs, ok (crypto.base64_encode (bytes ++ crypto.seal key bytes plaintext)))

-- `nonce` is what the random source gives, `none` when it fails.
unfoldable pub encrypt_password :
    Cipher → KeyEnv → Option Text → Text → FileSystem → FileSystem × Result Text
unfolding load_or_create_secret_key
encrypt_password crypto env nonce plaintext fs =
    if is_empty plaintext
    then (fs, ok [])
    else seal_with crypto nonce plaintext (load_or_create_secret_key env fs)

abbrev opened : Option Text → Result Text
opened none = err gcm_open_failed
opened (some plaintext) = ok plaintext

-- The base64 of a text that `is_encrypted` has accepted can be decoded, so its failure is not an error
-- of its own.
abbrev open_with : Cipher → Text → FileSystem × Result Text → FileSystem × Result Text
open_with crypto cipher_text (fs, err e) = (fs, err e)
open_with crypto cipher_text (fs, ok key) = elim (crypto.base64_decode cipher_text) [
  | none ↦ (fs, err gcm_open_failed)
  | some raw ↦ (fs, opened (crypto.unseal key (take nonce_size raw) (drop nonce_size raw)))
]

unfoldable pub decrypt_password : Cipher → KeyEnv → Text → FileSystem → FileSystem × Result Text
unfolding load_or_create_secret_key is_encrypted
decrypt_password crypto env cipher_text fs =
    if is_empty cipher_text
    then (fs, ok [])
    else if not (is_encrypted crypto cipher_text)
    then (fs, ok cipher_text)
    else open_with crypto cipher_text (load_or_create_secret_key env fs)
