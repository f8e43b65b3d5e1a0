-- ===== src/Startup.antt =====
-- main.go: the start of the program, up to the first window.
pub mod Guarded
pub mod Again
use ssh_tunnel_manager.Common.{
  Bool, true, false, [], Option, none, some, Text, text, ℤ, is_positive, if◌then◌else◌,
}
use ssh_tunnel_manager.Common.Duration.{seconds}
use ssh_tunnel_manager.Config.Save.{Json, LoadError, not_exist, not_readable, decode_failed}
use ssh_tunnel_manager.Config.Store.{
  ConfigManager, new_config_manager, load, set_read_only, is_read_only, get_ddns_check_interval,
  get_dns_resolver,
}
use ssh_tunnel_manager.Crypto.{Cipher, KeyEnv}
use ssh_tunnel_manager.Files.{FileSystem}
use ssh_tunnel_manager.Manager.World.{World, start, step, sets_interval, registers}
use ssh_tunnel_manager.Paths.{Migration}
use ssh_tunnel_manager.Paths.Dirs.{Home, config_file}
use ssh_tunnel_manager.Ui.{
  App, empty_ui, auto_start, spawn, with_ui, set_test_result, refresh_zone_forward_status_async,
}
use ssh_tunnel_manager.Ui.Settings.{reload_form}

-- What `main` does with the error of `Load`: any error but a missing file turns on the protection.
abbrev pub guarded : Option LoadError → ConfigManager → ConfigManager
guarded none cfg = cfg
guarded (some not_exist) cfg = cfg
guarded (some not_readable) cfg = set_read_only true cfg
guarded (some decode_failed) cfg = set_read_only true cfg

-- The variable `dnsResolver` of ssh.go at the start.
abbrev pub default_resolver : Text
default_resolver = text "119.29.29.29"

abbrev pub set_interval : ℤ → World → World
set_interval s w = if is_positive s then step w (sets_interval (seconds s)) else w

unfoldable pub apply_config_settings : App → App
apply_config_settings app = record app {
  tunnels = set_interval (get_ddns_check_interval app.config) app.tunnels;
  resolver = get_dns_resolver app.config;
}

-- `NewUI`
unfoldable pub new_ui : App → App
new_ui app = reload_form (with_ui empty_ui app)

abbrev pub warned : App → App
warned app =
    if is_read_only app.config
    then with_ui (set_test_result (text "⚠ 配置加载失败，已进入只读保护：修改不会保存（详见日志）") false app.ui) app
    else app

-- The first window of `runAppLoop`: the UI, the row of the zone forwarding, and `go autoConnect`.
unfoldable pub first_window : App → App
first_window app = spawn auto_start (refresh_zone_forward_status_async (warned (new_ui app)))

unfoldable pub loaded_app : Json → Cipher → KeyEnv → Bool → Text → FileSystem → App
loaded_app json crypto env readable path fs =
    let (cfg, fs', failure) = load json crypto env readable (new_config_manager path) fs in
    record {
      ui = empty_ui;
      config = guarded failure cfg;
      tunnels = start;
      resolver = default_resolver;
      files = fs';
      jobs = [];
    }

abbrev pub register : App → App
register app = record app { tunnels = step app.tunnels (registers true true) }

-- `main` from the loading of the configuration to the first window. `readable` tells whether a config
-- file that is there can be opened.
unfoldable pub launch : Json → Cipher → KeyEnv → Bool → Text → FileSystem → App
launch json crypto env readable path fs =
    first_window (register (apply_config_settings (loaded_app json crypto env readable path fs)))

-- The path that `main` goes on with after `configFile`, also after its error.
abbrev pub path_or_empty : Option Text → Text
path_or_empty none = []
path_or_empty (some path) = path

-- `main` from `configFile` to the first window.
unfoldable pub start_up : Json → Cipher → KeyEnv → Bool → Home → Migration → FileSystem → App
start_up json crypto env readable home mig fs =
    let (fs', path) = config_file home mig fs in
    launch json crypto env readable (path_or_empty path) fs'
