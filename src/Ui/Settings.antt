-- ===== src/Ui/Settings.antt =====
-- ui.go: the settings form.
use ssh_tunnel_manager.Common.{
  Bool, true, false, ◌&&◌, [], ◌++◌, Option, none, some, Text, text, ℤ, pos, negsuc, is_positive,
  int_text, equal, leb, if◌then◌else◌,
}
use ssh_tunnel_manager.Common.Atoi.{atoi}
use ssh_tunnel_manager.Common.Duration.{seconds}
use ssh_tunnel_manager.Common.Strings.{trim_space}
use ssh_tunnel_manager.Config.{ForwardConfig, AppSettings}
use ssh_tunnel_manager.Config.Save.{Json, Disk}
use ssh_tunnel_manager.Config.Store.{
  ConfigManager, StoreError, save, get_forward, set_forward, get_api_key, set_api_key,
  get_ddns_check_interval, set_ddns_check_interval, get_dns_resolver, set_dns_resolver,
  restore_app_state,
}
use ssh_tunnel_manager.Crypto.{Cipher, KeyEnv}
use ssh_tunnel_manager.Manager.{default_ddns_interval_seconds, is_tracked}
use ssh_tunnel_manager.Manager.World.{World, step, sets_interval}
use ssh_tunnel_manager.SshCommand.{is_empty}
use ssh_tunnel_manager.Ui.{
  Form, App, restart_start, with_ui, spawn, set_test_result, refresh_zone_forward_status_async,
}

-- What the rest of the system answers while the settings are saved: `now` is `time.Now().UnixNano()`,
-- `wording` the text of an error.
pub record Saving : Type 0 where
  pub json : Json
  pub crypto : Cipher
  pub key_env : KeyEnv
  pub nonce1 : Option Text
  pub nonce2 : Option Text
  pub disk : Disk
  pub now : ℤ
  pub wording : StoreError → Text

-- `ui.config.Save()`
unfoldable pub save_app : Saving → App → App × Option StoreError
save_app s app =
    let (fs, failure) =
      save s.json s.crypto s.key_env s.nonce1 s.nonce2 s.disk app.config app.files in
    (record app { files = fs }, failure)

abbrev pub forward_to_form : Option ForwardConfig → Form → Form
forward_to_form none form = form
forward_to_form (some fwd) form = record form {
  remote_host_entry = fwd.remote_host;
  remote_port_entry = int_text fwd.remote_port;
  local_host_entry = fwd.local_host;
  local_port_entry = int_text fwd.local_port;
  ssh_user_entry = fwd.ssh_user;
  ssh_password_entry = fwd.ssh_password;
  auto_reconnect = fwd.auto_reconnect;
  forward_local = equal fwd.forward_type (text "local");
}

-- The period in seconds that a stored value stands for.
abbrev pub effective_interval : ℤ → ℤ
effective_interval i = if is_positive i then i else default_ddns_interval_seconds

abbrev pub shown_resolver : Text → Text
shown_resolver t = if is_empty t then text "119.29.29.29" else t

unfoldable pub load_config_to_form : ConfigManager → Form → Form
load_config_to_form cfg form = record (forward_to_form (get_forward cfg) form) {
  api_key_entry = get_api_key cfg;
  ddns_interval_entry = int_text (effective_interval (get_ddns_check_interval cfg));
  dns_resolver_entry = shown_resolver (get_dns_resolver cfg);
}

abbrev pub reload_form : App → App
reload_form app =
    with_ui (record (app.ui) { form = load_config_to_form app.config app.ui.form }) app

-- `strconv.Atoi(strings.TrimSpace(...))` without its error.
abbrev pub entered : Text → ℤ
entered t = (atoi (trim_space t)).0

abbrev pub is_port : ℤ → Bool
is_port (pos n) = leb 1 n && leb n 65535
is_port (negsuc n) = false

-- The tests of `saveSettings` in their order, with the message of the first that fails.
unfoldable pub form_error : Form → Option Text
form_error form =
    if is_empty (trim_space form.remote_host_entry)
    then some (text "✗ 远程主机不能为空")
    else if is_empty (trim_space form.ssh_user_entry)
    then some (text "✗ SSH 用户不能为空")
    else if is_port (entered form.remote_port_entry)
    then (if is_port (entered form.local_port_entry)
        then none
        else some (text "✗ 本地端口无效 (1-65535)"))
    else some (text "✗ 远程端口无效 (1-65535)")

abbrev pub or_else : Text → Text → Text
or_else t default = if is_empty t then default else t

abbrev pub positive_or : ℤ → ℤ → ℤ
positive_or i default = if is_positive i then i else default

-- The rule from the form alone, for the case without an existing one.
abbrev pub entered_forward : Text → Form → ForwardConfig
entered_forward id form = record {
  id = id;
  name = text "default";
  forward_type = if form.forward_local then text "local" else text "remote";
  remote_host = trim_space form.remote_host_entry;
  remote_port = entered form.remote_port_entry;
  local_host = or_else (trim_space form.local_host_entry) (text "localhost");
  local_port = entered form.local_port_entry;
  ssh_user = trim_space form.ssh_user_entry;
  ssh_password = form.ssh_password_entry;
  auto_reconnect = form.auto_reconnect;
  max_retries = pos 5;
  retry_interval = pos 5;
}

-- `updated`: what the form does not hold comes from the existing rule.
unfoldable pub updated_forward : ℤ → Option ForwardConfig → Form → ForwardConfig
updated_forward now none form = entered_forward (text "fwd_" ++ int_text now) form
updated_forward now (some existing) form = record (entered_forward existing.id form) {
  name = or_else existing.name (text "default");
  ssh_password = or_else form.ssh_password_entry existing.ssh_password;
  max_retries = positive_or existing.max_retries (pos 5);
  retry_interval = positive_or existing.retry_interval (pos 5);
}

abbrev pub clamp : ℤ → ℤ
clamp (pos n) = pos n
clamp (negsuc n) = pos 0

-- `ui.ssh.SetDDNSCheckInterval` with the period that the value stands for.
abbrev pub live_interval : ℤ → World → World
live_interval s w = step w (sets_interval (seconds (effective_interval s)))

-- The changes in memory, and the two values that the running app takes over at once.
unfoldable pub apply_settings : ForwardConfig → App → App
apply_settings updated app =
    let form = app.ui.form in
    let ddns_interval = clamp (entered form.ddns_interval_entry) in
    let dns_resolver = trim_space form.dns_resolver_entry in
    record app {
      config = set_dns_resolver dns_resolver (
          set_ddns_check_interval ddns_interval
            (set_api_key (trim_space form.api_key_entry) (set_forward updated app.config)));
      tunnels = live_interval ddns_interval app.tunnels;
      resolver = dns_resolver;
    }

-- A failed save: `before` is the configuration before the changes.
unfoldable pub roll_back : ConfigManager → Text → App → App
roll_back before reason app =
    let settings : AppSettings = record {
      api_key = get_api_key before;
      ddns_check_interval = get_ddns_check_interval before;
      dns_resolver = get_dns_resolver before;
    } in
    let restored = record app {
      config =
          restore_app_state
            (record { forward = get_forward before; settings = settings; forwards = [] })
            app.config;
      tunnels = live_interval (get_ddns_check_interval before) app.tunnels;
      resolver = get_dns_resolver before;
    } in
    let reloaded = reload_form restored in
    with_ui (set_test_result (text "✗ 保存失败: " ++ reason) false reloaded.ui) reloaded

-- `restartWithConfig` up to its goroutine.
unfoldable pub restart_with_config : ForwardConfig → App → App
restart_with_config fwd app =
    if app.ui.connect_busy
    then app
    else spawn (restart_start fwd) (with_ui (record (app.ui) { connect_busy = true }) app)

abbrev pub restart_tracked : ForwardConfig → App → App
restart_tracked updated app =
    if is_tracked app.tunnels.manager updated.id
    then restart_with_config updated
        (with_ui (set_test_result (text "✓ 设置已保存，正在以新配置重启隧道...") true app.ui) app)
    else with_ui (set_test_result (text "✓ 设置已保存") true app.ui) app

-- A save that worked.
unfoldable pub after_save : ForwardConfig → App → App
after_save updated app =
    refresh_zone_forward_status_async
      (restart_tracked updated (with_ui (record (app.ui) { settings_expanded = false }) app))

abbrev pub finish_save : Saving → ConfigManager → ForwardConfig → App × Option StoreError → App
finish_save s before updated (app, none) = after_save updated app
finish_save s before updated (app, some e) = roll_back before (s.wording e) app

unfoldable pub save_settings : Saving → App → App
save_settings s app = elim (form_error app.ui.form) [
  | some msg ↦ with_ui (set_test_result msg false app.ui) app
  | none ↦
      let updated = updated_forward s.now (get_forward app.config) app.ui.form in
      finish_save s app.config updated (save_app s (apply_settings updated app))
]
