-- ===== src/Config/Store.antt =====
-- config.go: the `ConfigManager`.
use ssh_tunnel_manager.Common.{Bool, false, [], Option, none, some, Text, ℤ, if◌then◌else◌}
use ssh_tunnel_manager.Config.{ForwardConfig, AppSettings, AppState, default_config}
use ssh_tunnel_manager.Config.Save.{
  Json, LoadError, loaded, not_loaded, load_config, SaveError, Disk, save_config,
}
use ssh_tunnel_manager.Crypto.{
  Cipher, KeyEnv, Result, ok, err, CryptoError, encrypt_password, decrypt_password,
}
use ssh_tunnel_manager.Files.{FileSystem}
use ssh_tunnel_manager.SshCommand.{is_empty}

pub record ConfigManager : Type 0 where
  pub file_path : Text
  pub state : AppState
  pub read_only : Bool

unfoldable pub new_config_manager : Text → ConfigManager
new_config_manager path = record { file_path = path; state = default_config; read_only = false }

-- A secret that is not empty is decrypted; one that cannot be decrypted is cleared.
abbrev cleared : FileSystem × Result Text → FileSystem × Text
cleared (fs, ok plaintext) = (fs, plaintext)
cleared (fs, err _) = (fs, [])

unfoldable pub decrypt_or_clear : Cipher → KeyEnv → Text → FileSystem → FileSystem × Text
decrypt_or_clear crypto env secret fs =
    if is_empty secret then (fs, []) else cleared (decrypt_password crypto env secret fs)

unfoldable pub decrypt_forward :
    Cipher → KeyEnv → Option ForwardConfig → FileSystem → FileSystem × Option ForwardConfig
decrypt_forward crypto env none fs = (fs, none)
decrypt_forward crypto env (some f) fs =
    let (fs', password) = decrypt_or_clear crypto env f.ssh_password fs in
    (fs', some (record f { ssh_password = password }))

unfoldable pub decrypt_settings :
    Cipher → KeyEnv → AppSettings → FileSystem → FileSystem × AppSettings
decrypt_settings crypto env s fs =
    let (fs', key) = decrypt_or_clear crypto env s.api_key fs in (fs', record s { api_key = key })

-- `Load`, with the error that it returns.
unfoldable pub load :
    Json
    → Cipher
    → KeyEnv
    → Bool
    → ConfigManager
    → FileSystem
    → ConfigManager × FileSystem × Option LoadError
load json crypto env readable cm fs = elim (load_config json readable cm.file_path fs) [
  | not_loaded e ↦ (cm, fs, some e)
  | loaded state ↦
      let (fs1, forward) = decrypt_forward crypto env state.forward fs in
      let (fs2, settings) = decrypt_settings crypto env state.settings fs1 in
      (record cm { state = record state { forward = forward; settings = settings } }, fs2, none)
]

pub data StoreError : Type 0 where
  protected : StoreError
  password_not_encrypted api_key_not_encrypted : CryptoError → StoreError
  not_saved : SaveError → StoreError

abbrev with_password :
    ForwardConfig → FileSystem × Result Text → FileSystem × Result (Option ForwardConfig)
with_password f (fs, ok ct) = (fs, ok (some (record f { ssh_password = ct })))
with_password f (fs, err e) = (fs, err e)

abbrev with_api_key : AppSettings → FileSystem × Result Text → FileSystem × Result AppSettings
with_api_key s (fs, ok ct) = (fs, ok (record s { api_key = ct }))
with_api_key s (fs, err e) = (fs, err e)

unfoldable pub encrypt_forward :
    Cipher
    → KeyEnv
    → Option Text
    → Option ForwardConfig
    → FileSystem
    → FileSystem × Result (Option ForwardConfig)
encrypt_forward crypto env _ none fs = (fs, ok none)
encrypt_forward crypto env nonce (some f) fs =
    if is_empty f.ssh_password
    then (fs, ok (some f))
    else with_password f (encrypt_password crypto env nonce f.ssh_password fs)

unfoldable pub encrypt_settings :
    Cipher → KeyEnv → Option Text → AppSettings → FileSystem → FileSystem × Result AppSettings
encrypt_settings crypto env nonce s fs =
    if is_empty s.api_key
    then (fs, ok s)
    else with_api_key s (encrypt_password crypto env nonce s.api_key fs)

abbrev pub stored : FileSystem × Option SaveError → FileSystem × Option StoreError
stored (fs, none) = (fs, none)
stored (fs, some e) = (fs, some (not_saved e))

-- `Save`: the state in memory is not changed. The two nonces are drawn from the random source.
unfoldable pub save :
    Json
    → Cipher
    → KeyEnv
    → Option Text
    → Option Text
    → Disk
    → ConfigManager
    → FileSystem
    → FileSystem × Option StoreError
save json crypto env nonce1 nonce2 disk cm fs =
    if cm.read_only
    then (fs, some protected)
    else (let (fs1, secured) = encrypt_forward crypto env nonce1 cm.state.forward fs in
        elim secured [
          | err e ↦ (fs1, some (password_not_encrypted e))
          | ok forward ↦
              let (fs2, sealed) = encrypt_settings crypto env nonce2 cm.state.settings fs1 in
              elim sealed [
                | err e ↦ (fs2, some (api_key_not_encrypted e))
                | ok settings ↦ stored (
                    save_config json disk cm.file_path
                      (record { forward = forward; settings = settings; forwards = [] }) fs2)
              ]
        ])

unfoldable pub get_forward : ConfigManager → Option ForwardConfig
get_forward cm = cm.state.forward

unfoldable pub set_forward : ForwardConfig → ConfigManager → ConfigManager
set_forward f cm = record cm { state = record (cm.state) { forward = some f } }

unfoldable pub set_read_only : Bool → ConfigManager → ConfigManager
set_read_only ro cm = record cm { read_only = ro }

unfoldable pub is_read_only : ConfigManager → Bool
is_read_only cm = cm.read_only

unfoldable pub restore_app_state : AppState → ConfigManager → ConfigManager
restore_app_state state cm = record cm { state = state }

abbrev with_settings : AppSettings → ConfigManager → ConfigManager
with_settings s cm = record cm { state = record (cm.state) { settings = s } }

unfoldable pub get_api_key : ConfigManager → Text
get_api_key cm = cm.state.settings.api_key

unfoldable pub set_api_key : Text → ConfigManager → ConfigManager
set_api_key key cm = with_settings (record (cm.state.settings) { api_key = key }) cm

unfoldable pub get_ddns_check_interval : ConfigManager → ℤ
get_ddns_check_interval cm = cm.state.settings.ddns_check_interval

unfoldable pub set_ddns_check_interval : ℤ → ConfigManager → ConfigManager
set_ddns_check_interval seconds cm =
    with_settings (record (cm.state.settings) { ddns_check_interval = seconds }) cm

unfoldable pub get_dns_resolver : ConfigManager → Text
get_dns_resolver cm = cm.state.settings.dns_resolver

unfoldable pub set_dns_resolver : Text → ConfigManager → ConfigManager
set_dns_resolver server cm = with_settings (record (cm.state.settings) { dns_resolver = server }) cm
