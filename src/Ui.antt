-- ===== src/Ui.antt =====
-- ui.go: the state of `UI`, and the app around it: the configuration, the manager with its goroutines,
-- the resolver of ssh.go, and the goroutines that the handlers start. The handlers are in Ui/Settings.antt
-- (settings) and Ui/Handlers.antt, the goroutines in Ui/Jobs.antt.
pub mod Settings
pub mod Zone
pub mod Handlers
pub mod Jobs
pub mod Effects
pub mod ZoneStatus
pub mod JobEffects
pub mod HandlerEffects
pub mod Exclusive
pub mod Dialog
pub mod Release
pub mod Valid
pub mod Rollback
pub mod Rows
pub mod Reopen
use ssh_tunnel_manager.TestApi.{TestRequest}
use ssh_tunnel_manager.Common.{
  ℕ, Bool, true, false, List, [], ◌∷◌, ◌++◌, Option, none, some, Text, text, ℤ, ◌+◌, ◌%◌, ◌^◌,
  int_text,
}
use ssh_tunnel_manager.Config.{ForwardConfig}
use ssh_tunnel_manager.Config.Store.{ConfigManager, get_forward}
use ssh_tunnel_manager.Files.{FileSystem}
use ssh_tunnel_manager.Manager.{
  Status, connecting, running, disconnected, port_in_use, connection_refused, auth_failed,
  unreachable, stopped, get_status,
}
use ssh_tunnel_manager.Theme.{Nrgba, no_color}
use ssh_tunnel_manager.Manager.World.{World, step, connects, disconnects}

-- The texts of the editors and the two switches.
pub record Form : Type 0 where
  pub remote_host_entry : Text
  pub remote_port_entry : Text
  pub local_host_entry : Text
  pub local_port_entry : Text
  pub ssh_user_entry : Text
  pub ssh_password_entry : Text
  pub api_key_entry : Text
  pub ddns_interval_entry : Text
  pub dns_resolver_entry : Text
  pub new_port_entry : Text
  pub auto_reconnect : Bool
  pub forward_local : Bool

pub data ZoneAction : Type 0 where
  zone_action_install zone_action_remove : ZoneAction

-- The closures that goroutines queue for the UI thread.
pub data UiCmd : Type 0 where
  release_connect : UiCmd
  release_conflict : UiCmd
  show_conflict : ℤ → Text → UiCmd
  show_message : Text → Bool → UiCmd
  kill_failed : Text → UiCmd
  process_killed : UiCmd
  zone_row : ℕ → Text → Text → Option ZoneAction → UiCmd
  zone_done : Option Text → UiCmd

-- `none` is the empty text in `zone_pending`. `zone_refresh_gen` is a uint64.
pub record Ui : Type 0 where
  pub maximized : Bool
  pub settings_expanded : Bool
  pub test_result : Text
  pub test_ok : Bool
  pub testing : Bool
  pub last_shown_status : Text
  pub hero_status_text : Text
  pub hero_dot_color : Nrgba
  pub form : Form
  pub zone_busy : Bool
  pub zone_supported : Bool
  pub zone_action_label : Text
  pub zone_pending : Option ZoneAction
  pub zone_status_text : Text
  pub zone_refresh_gen : ℕ
  pub show_port_conflict_dialog : Bool
  pub show_new_port_entry : Bool
  pub port_conflict_port : ℤ
  pub port_conflict_process : Text
  pub conflict_busy : Bool
  pub connect_busy : Bool
  pub ui_cmd_q : List UiCmd

-- Who calls the port checker or `Connect`: `checkPortAndConnect`, the two handlers of the conflict
-- dialog, `restartWithConfig`, and in main.go `autoConnect` and `trayConnect`.
pub data Caller : Type 0 where
  by_check by_kill by_change by_restart by_auto by_tray : Caller

-- A goroutine of ui.go or main.go at the point where it next waits.
pub data Job : Type 0 where
  -- Before its first section.
  auto_start tray_start test_start : Job
  restart_start : ForwardConfig → Job
  -- In the port checker; the number counts the polls of `restartWithConfig`.
  checking : Caller → ForwardConfig → Job
  polling : ForwardConfig → ℕ → Job
  killing : ForwardConfig → Job
  -- In `Connect`.
  connects_to : Caller → ForwardConfig → Job
  -- The lookups of the zone row and the change of the drop-in.
  refreshing : ℕ → Option ForwardConfig → Job
  zone_acting : ZoneAction → Job
  -- `testAPI`: the dial and the request.
  test_dialing : ForwardConfig → Job
  test_requesting : TestRequest → Job

-- `resolver` is the variable `dnsResolver` of ssh.go.
pub record App : Type 0 where
  pub ui : Ui
  pub config : ConfigManager
  pub tunnels : World
  pub resolver : Text
  pub files : FileSystem
  pub jobs : List Job

abbrev pub empty_form : Form
empty_form = record {
  remote_host_entry = [];
  remote_port_entry = [];
  local_host_entry = text "localhost";
  local_port_entry = [];
  ssh_user_entry = [];
  ssh_password_entry = [];
  api_key_entry = [];
  ddns_interval_entry = [];
  dns_resolver_entry = [];
  new_port_entry = [];
  auto_reconnect = true;
  forward_local = true;
}

-- `NewUI` before it loads the form.
abbrev pub empty_ui : Ui
empty_ui = record {
  maximized = false;
  settings_expanded = false;
  test_result = [];
  test_ok = false;
  testing = false;
  last_shown_status = [];
  hero_status_text = [];
  hero_dot_color = no_color;
  form = empty_form;
  zone_busy = false;
  zone_supported = false;
  zone_action_label = [];
  zone_pending = none;
  zone_status_text = [];
  zone_refresh_gen = 0;
  show_port_conflict_dialog = false;
  show_new_port_entry = false;
  port_conflict_port = ℤ.pos 0;
  port_conflict_process = [];
  conflict_busy = false;
  connect_busy = false;
  ui_cmd_q = [];
}

abbrev pub with_ui : Ui → App → App
with_ui ui app = record app { ui = ui }

unfoldable pub queue_ui_func : UiCmd → Ui → Ui
queue_ui_func f ui = record ui { ui_cmd_q = ui.ui_cmd_q ++ (f ∷ []) }

unfoldable pub set_test_result : Text → Bool → Ui → Ui
set_test_result msg ok ui = record ui { test_result = msg; test_ok = ok; testing = false }

-- `go func`
abbrev pub spawn : Job → App → App
spawn job app = record app { jobs = job ∷ app.jobs }

-- `ui.ssh.Disconnect(id)`
abbrev pub disconnect_forward : Text → App → App
disconnect_forward id app = record app { tunnels = step app.tunnels (disconnects id) }

-- A call of `Connect`: its own steps are those of the manager's schedule.
unfoldable pub call_connect : Caller → ForwardConfig → App → App
call_connect by fwd app =
    spawn (connects_to by fwd) (record app { tunnels = step app.tunnels (connects fwd) })

unfoldable pub show_conflict_dialog_internal : ℤ → Text → Bool → Ui → Ui
show_conflict_dialog_internal port process show_new_port ui = record ui {
  show_port_conflict_dialog = true;
  show_new_port_entry = show_new_port;
  port_conflict_port = port;
  port_conflict_process = process;
  form = record (ui.form) { new_port_entry = int_text port };
}

unfoldable pub dismiss_conflict_dialog : Ui → Ui
dismiss_conflict_dialog ui = record ui {
  show_port_conflict_dialog = false;
  show_new_port_entry = false;
}

abbrev pub close_dialog : Ui → Ui
close_dialog ui = record ui { show_port_conflict_dialog = false }

abbrev pub release_both : Ui → Ui
release_both ui = record ui { conflict_busy = false; connect_busy = false }

abbrev pub take_both : Ui → Ui
take_both ui = record ui { conflict_busy = true; connect_busy = true }

-- A generation is claimed, and the forward is read on the UI thread.
unfoldable pub refresh_zone_forward_status_async : App → App
refresh_zone_forward_status_async app =
    let gen = (app.ui.zone_refresh_gen + 1) % 2 ^ 64 in
    spawn (refreshing gen (get_forward app.config))
      (with_ui (record (app.ui) { zone_refresh_gen = gen }) app)

abbrev id_of : Option ForwardConfig → Text
id_of none = []
id_of (some fwd) = fwd.id

unfoldable pub current_forward_id : ConfigManager → Text
current_forward_id cfg = id_of (get_forward cfg)

-- `none` for a status with the empty text.
unfoldable pub terminal_failure_text : Status → Option Text
terminal_failure_text auth_failed = some (text "✗ 认证失败：请检查 SSH 用户名/密码（修改后保存会自动重启隧道）")
terminal_failure_text connection_refused = some (text "✗ 连接被拒绝：远端 SSH 服务未响应")
terminal_failure_text port_in_use = some (text "✗ 本地端口被占用")
terminal_failure_text unreachable = some (text "✗ 无法到达服务器：请检查网络")
terminal_failure_text disconnected = some (text "✗ 连接失败，自动重连已停止")
terminal_failure_text _ = none

-- The strings of `GetStatus`.
abbrev pub status_text : Option Status → Text
status_text none = text "not_found"
status_text (some connecting) = text "connecting"
status_text (some running) = text "running"
status_text (some disconnected) = text "disconnected"
status_text (some port_in_use) = text "port_in_use"
status_text (some connection_refused) = text "connection_refused"
status_text (some auth_failed) = text "auth_failed"
status_text (some unreachable) = text "unreachable"
status_text (some stopped) = text "stopped"
