-- ===== src/Tests/Home.antt =====
-- The inputs of the tests of the app: a configuration with one forward, and its app.
use ssh_tunnel_manager.Common.{true, false, none, some, [], ◌∷◌, text, ℤ, List, Bool}
use ssh_tunnel_manager.Config.{ForwardConfig}
use ssh_tunnel_manager.Config.Save.{Json}
use ssh_tunnel_manager.Config.Store.{ConfigManager}
use ssh_tunnel_manager.Files.{FileSystem}
use ssh_tunnel_manager.Manager.World.{start}
use ssh_tunnel_manager.Tests.Stored.{crypto, json, env, files, disk, config_path, nonce}
use ssh_tunnel_manager.Ui.{App, Form, empty_ui, empty_form}
use ssh_tunnel_manager.Ui.Handlers.{Frame}
use ssh_tunnel_manager.Ui.Jobs.{AppEvent, draws, goes_on, go, checked, killed}
use ssh_tunnel_manager.Ui.Settings.{Saving}

abbrev pub home : ForwardConfig
home = record {
  id = text "fwd_1";
  name = text "default";
  forward_type = text "local";
  remote_host = text "home.example.com";
  remote_port = ℤ.pos 22;
  local_host = text "localhost";
  local_port = ℤ.pos 8080;
  ssh_user = text "ops";
  ssh_password = [];
  auto_reconnect = true;
  max_retries = ℤ.pos 5;
  retry_interval = ℤ.pos 5;
}

abbrev pub config : Bool → ConfigManager
config read_only = record {
  file_path = config_path;
  state = record {
    forward = some home;
    settings = record {
      api_key = [];
      ddns_check_interval = ℤ.pos 15;
      dns_resolver = text "119.29.29.29";
    };
    forwards = [];
  };
  read_only = read_only;
}

abbrev pub filled : Form
filled = record empty_form {
  remote_host_entry = text "home.example.com";
  remote_port_entry = text "22";
  local_port_entry = text "8081";
  ssh_user_entry = text "ops";
}

abbrev pub saving : Saving
saving = record {
  json = json;
  crypto = crypto;
  key_env = env;
  nonce1 = some nonce;
  nonce2 = some nonce;
  disk = disk;
  now = ℤ.pos 1;
  wording = λ e. text "error";
}

abbrev pub no_clicks : Frame
no_clicks = record {
  max_btn = false;
  typed = λ form. form;
  settings_toggle = false;
  toggle_btn = false;
  test_btn = false;
  save_btn = false;
  zone_btn = false;
  kill_process_btn = false;
  change_port_btn = false;
  overlay_btn = false;
  saving = saving;
  changing = saving;
}

abbrev pub app_with : Bool → App
app_with read_only = record {
  ui = record empty_ui { form = filled };
  config = config read_only;
  tunnels = start;
  resolver = text "119.29.29.29";
  files = files;
  jobs = [];
}

-- The window opens, the port is in use, and the user ends the process.
abbrev pub killed_once : List AppEvent
killed_once =
    goes_on 0 go
    ∷ goes_on 0 (checked true (text "nginx"))
    ∷ draws (record no_clicks { kill_process_btn = true })
    ∷ goes_on 0 (killed none)
    ∷ draws no_clicks
    ∷ []

-- JSON and files of a start that finds the configuration.
abbrev pub home_json : Json
home_json = record json { decode = λ t. some (config false).state }

abbrev pub home_files : FileSystem
home_files = (config_path, text "{}") ∷ files
