-- ===== src/Startup/Again.antt =====
-- main.go and config.go: a start of the program after a save.
use ssh_tunnel_manager.Common.{
  ◌≡◌, ◌≢◌, refl, Bool, true, false, [], none, some, Text, text, ap, ◌∙◌, ◌*◌, ◌≤◌, ℕ, pos, ℤ,
  is_positive, length, if◌then◌else◌,
}
use ssh_tunnel_manager.Common.Duration.{seconds, seconds-pos}
use ssh_tunnel_manager.Config.Reload.{load-save, lookup-save, snapshot}
use ssh_tunnel_manager.Config.Save.{Json, Disk}
use ssh_tunnel_manager.Config.Store.{
  ConfigManager, new_config_manager, load, save, is_read_only, get_ddns_check_interval,
  get_dns_resolver,
}
use ssh_tunnel_manager.Crypto.{Cipher, KeyEnv, key_path}
use ssh_tunnel_manager.Crypto.RoundTrip.{IsAead, HasKey}
use ssh_tunnel_manager.Files.{FileSystem}
use ssh_tunnel_manager.Manager.{
  default_ddns_interval_seconds, new_ssh_manager, set_ddns_check_interval, set_on_status_change,
  set_on_terminal_failure,
}
use ssh_tunnel_manager.Manager.World.{start, step, sets_interval, registers}
use ssh_tunnel_manager.Paths.{Migration}
use ssh_tunnel_manager.Paths.Dirs.{Home, config_file, config_file_again}
use ssh_tunnel_manager.Startup.{
  apply_config_settings, new_ui, first_window, loaded_app, register, launch, start_up,
  default_resolver,
}
use ssh_tunnel_manager.Ui.{
  App, Ui, empty_ui, empty_form, with_ui, set_test_result, refresh_zone_forward_status_async,
}
use ssh_tunnel_manager.Ui.Settings.{load_config_to_form, effective_interval}

-- The app works with this configuration: it is the one in memory, in the form and in the running values.
pub record WorksWith (cfg : ConfigManager) (fs : FileSystem) (shown : ℕ) (app : App) : Type 0 where
  pub config : app.config ≡ cfg
  pub files : app.files ≡ fs
  pub form : app.ui.form ≡ load_config_to_form cfg empty_form
  pub resolver : app.resolver ≡ get_dns_resolver cfg
  pub period : effective_interval (get_ddns_check_interval cfg) ≡ pos shown
  pub interval : app.tunnels.manager.ddns_check_interval ≡ pos (shown * 1000000000)

if_warned :
    (b : Bool) (ui : Ui) (app : App)
    → (if b then with_ui ui app else app) ≡ with_ui (if b then ui else app.ui) app
if_warned true ui app = refl
if_warned false ui app = refl

if-form : (b : Bool) (ui ui' : Ui) → ui.form ≡ ui'.form → (if b then ui else ui').form ≡ ui'.form
if-form true ui ui' e = e
if-form false ui ui' e = refl

set_interval-interval :
    (b : Bool) (z : ℤ)
    → let w =
        step (if b then step start (sets_interval (seconds z)) else start) (registers true true) in
      w.manager.ddns_check_interval ≡ seconds (if b then z else default_ddns_interval_seconds)
unfolding step start new_ssh_manager set_ddns_check_interval set_on_status_change
    set_on_terminal_failure
set_interval-interval true z = refl
set_interval-interval false z = refl

abbrev started : ConfigManager → FileSystem → App
started cfg fs = record {
  ui = empty_ui;
  config = cfg;
  tunnels = start;
  resolver = default_resolver;
  files = fs;
  jobs = [];
}

first_window-WorksWith :
    (cfg : ConfigManager) (fs : FileSystem) (shown : ℕ)
    → effective_interval (get_ddns_check_interval cfg) ≡ pos shown
    → shown ≤ 9223372036
    → WorksWith cfg fs shown (first_window (register (apply_config_settings (started cfg fs))))
unfolding first_window new_ui apply_config_settings refresh_zone_forward_status_async
    set_test_result
first_window-WorksWith cfg fs shown e h =
    let app = new_ui (register (apply_config_settings (started cfg fs))) in
    let ui = set_test_result (text "⚠ 配置加载失败，已进入只读保护：修改不会保存（详见日志）") false app.ui in
    rw (if_warned (is_read_only cfg) ui app) (record {
      config = refl;
      files = refl;
      form = if-form (is_read_only cfg) ui app.ui refl;
      resolver = refl;
      period = e;
      interval =
          set_interval-interval (is_positive (get_ddns_check_interval cfg))
            (get_ddns_check_interval cfg)
          ∙ ap seconds e
          ∙ seconds-pos shown h;
    })

module _ (json : Json) (crypto : Cipher) (env : KeyEnv) where
  launch-WorksWith :
      (path : Text) (cfg : ConfigManager) (fs fs' : FileSystem) (shown : ℕ)
      → load json crypto env true (new_config_manager path) fs ≡ (cfg, fs', none)
      → effective_interval (get_ddns_check_interval cfg) ≡ pos shown
      → shown ≤ 9223372036
      → WorksWith cfg fs' shown (launch json crypto env true path fs)
  unfolding launch loaded_app
  launch-WorksWith path cfg fs fs' shown e p h = rw e (first_window-WorksWith cfg fs' shown p h)

  start_up-WorksWith :
      (home : Home) (mig : Migration) (path : Text) (cfg : ConfigManager) (fs : FileSystem)
      (shown : ℕ)
      → config_file home mig fs ≡ (fs, some path)
      → load json crypto env true (new_config_manager path) fs ≡ (cfg, fs, none)
      → effective_interval (get_ddns_check_interval cfg) ≡ pos shown
      → shown ≤ 9223372036
      → WorksWith cfg fs shown (start_up json crypto env true home mig fs)
  unfolding start_up
  start_up-WorksWith home mig path cfg fs shown found e p h =
      rw found (launch-WorksWith path cfg fs fs shown e p h)

-- After `Save` has returned no error, the next start of the program, in the same home directory and
-- whatever a migration could do then, changes no file and works with what was saved: the configuration
-- in memory has the saved forward and settings with their secrets in plaintext and without legacy
-- forwards, the form shows it, the resolver in use is the saved one, the period of the heartbeat in
-- nanoseconds is the one in seconds that the form shows, and the read-only protection is off. It holds
-- for a period of at most 9223372036 seconds, when `configFile` has given the path of the
-- configuration before, with crypto packages that behave as documented, with the key file in place,
-- for nonces of the cipher's size, when JSON reads back what it writes for the state with its secrets
-- encrypted, and for a temporary file, a config file and a key file that are three different files.
pub start_up-save :
    (crypto : Cipher) (a : IsAead crypto) (json : Json) (env : KeyEnv)
    (directory key nonce1 nonce2 : Text) (disk : Disk) (home : Home) (mig mig' : Migration)
    (cm : ConfigManager) (fs0 fs1 fs : FileSystem) (shown : ℕ)
    → config_file home mig fs0 ≡ (fs1, some cm.file_path)
    → effective_interval (get_ddns_check_interval cm) ≡ pos shown
    → shown ≤ 9223372036
    → HasKey env directory key fs
    → length nonce1 ≡ 12
    → length nonce2 ≡ 12
    → let sealed = snapshot crypto a json env directory key nonce1 nonce2 disk cm.state in
      json.decode (json.encode sealed) ≡ some sealed
      → disk.tmp_name ≢ cm.file_path
      → disk.tmp_name ≢ key_path directory
      → cm.file_path ≢ key_path directory
      → (save json crypto env (some nonce1) (some nonce2) disk cm fs).1 ≡ none
      → let fs' = (save json crypto env (some nonce1) (some nonce2) disk cm fs).0 in
        WorksWith
          (record {
            file_path = cm.file_path;
            state = record (cm.state) { forwards = [] };
            read_only = false;
          })
          fs'
          shown
          (start_up json crypto env true home mig' fs')
start_up-save crypto a json env directory key nonce1 nonce2 disk home mig mig' cm fs0 fs1 fs shown
      found period small k size1 size2 t tmp_path tmp_key path_key h =
    let there = lookup-save crypto a json env directory key nonce1 nonce2 disk cm fs k tmp_path h in
    start_up-WorksWith json crypto env home mig' cm.file_path _ _ shown
      (config_file_again home mig mig' fs0 fs1 _ cm.file_path _ found there)
      (load-save crypto a json env directory key nonce1 nonce2 disk cm fs k size1 size2 t tmp_path
        tmp_key path_key h)
      (unfold get_ddns_check_interval in period) small
