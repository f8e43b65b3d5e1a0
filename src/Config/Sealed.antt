-- ===== src/Config/Sealed.antt =====
-- config.go: the secrets of a state as `Save` stores them, and back.
use ssh_tunnel_manager.Common.{
  sym, ap, equal_iff, if◌then◌else◌, ◌≡◌, refl, [], Option, none, some, Text, length, Bool-cases,
  inl, inr,
}
use ssh_tunnel_manager.Config.{ForwardConfig, AppSettings}
use ssh_tunnel_manager.Config.Store.{
  encrypt_forward, encrypt_settings, decrypt_forward, decrypt_settings, decrypt_or_clear,
}
use ssh_tunnel_manager.Crypto.{Cipher, KeyEnv, ok}
use ssh_tunnel_manager.Crypto.RoundTrip.{
  IsAead, HasKey, secret, encrypt_password_lem, decrypt_password_lem, is_empty-secret,
}
use ssh_tunnel_manager.Files.{FileSystem}
use ssh_tunnel_manager.SshCommand.{is_empty}

module _ (crypto : Cipher) (a : IsAead crypto) (env : KeyEnv) (directory key : Text) where
  -- What a save stores in place of a secret.
  abbrev pub stored_secret : Text → Text → Text
  stored_secret nonce s = if is_empty s then s else secret crypto a key nonce s

  pub decrypt_or_clear_stored :
      (fs : FileSystem) (nonce s : Text)
      → HasKey env directory key fs
      → length nonce ≡ 12
      → decrypt_or_clear crypto env (stored_secret nonce s) fs ≡ (fs, s)
  unfolding decrypt_or_clear
  decrypt_or_clear_stored fs nonce s k size = elim (Bool-cases (is_empty s)) [
    | inl e ↦ rw (e, e) (ap (λ t. (fs, t)) (sym ((equal_iff s []).0 e)))
    | inr f ↦
        rw
          (
            f,
            is_empty-secret crypto a key nonce s size,
            decrypt_password_lem crypto a env directory key fs nonce s k size,
          )
          refl
  ]

  abbrev pub stored_forward : Text → Option ForwardConfig → Option ForwardConfig
  stored_forward nonce none = none
  stored_forward nonce (some f) =
      some (record f { ssh_password = stored_secret nonce f.ssh_password })

  abbrev pub stored_settings : Text → AppSettings → AppSettings
  stored_settings nonce s = record s { api_key = stored_secret nonce s.api_key }

  pub encrypt_forward_lem :
      (fs : FileSystem) (nonce : Text) (forward : Option ForwardConfig)
      → HasKey env directory key fs
      → encrypt_forward crypto env (some nonce) forward fs ≡ (fs, ok (stored_forward nonce forward))
  unfolding encrypt_forward
  encrypt_forward_lem fs nonce none k = refl
  encrypt_forward_lem fs nonce (some f) k = elim (Bool-cases (is_empty f.ssh_password)) [
    | inl e ↦ rw e refl
    | inr n ↦
        rw (n, encrypt_password_lem crypto a env directory key fs nonce f.ssh_password k n) refl
  ]

  pub encrypt_settings_lem :
      (fs : FileSystem) (nonce : Text) (s : AppSettings)
      → HasKey env directory key fs
      → encrypt_settings crypto env (some nonce) s fs ≡ (fs, ok (stored_settings nonce s))
  unfolding encrypt_settings
  encrypt_settings_lem fs nonce s k = elim (Bool-cases (is_empty s.api_key)) [
    | inl e ↦ rw e refl
    | inr n ↦ rw (n, encrypt_password_lem crypto a env directory key fs nonce s.api_key k n) refl
  ]

  pub decrypt_forward_lem :
      (fs : FileSystem) (nonce : Text) (forward : Option ForwardConfig)
      → HasKey env directory key fs
      → length nonce ≡ 12
      → decrypt_forward crypto env (stored_forward nonce forward) fs ≡ (fs, forward)
  unfolding decrypt_forward
  decrypt_forward_lem fs nonce none k size = refl
  decrypt_forward_lem fs nonce (some f) k size =
      rw (decrypt_or_clear_stored fs nonce f.ssh_password k size) refl

  pub decrypt_settings_lem :
      (fs : FileSystem) (nonce : Text) (s : AppSettings)
      → HasKey env directory key fs
      → length nonce ≡ 12
      → decrypt_settings crypto env (stored_settings nonce s) fs ≡ (fs, s)
  unfolding decrypt_settings
  decrypt_settings_lem fs nonce s k size =
      rw (decrypt_or_clear_stored fs nonce s.api_key k size) refl
