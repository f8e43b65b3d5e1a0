-- ===== src/Tests/Places.antt =====
-- The directories and files of paths.go at concrete inputs.
use ssh_tunnel_manager.Common.{refl, true, [], none, some, ◌≡◌, text}
use ssh_tunnel_manager.Common.Strings.{equal}
use ssh_tunnel_manager.Paths.Dirs.{
  Home, app_config_dir, app_data_dir, known_hosts_path, known_hosts_file, get_log_path,
  app_cache_dir,
}

-- A system without `XDG_DATA_HOME`.
abbrev user : Home
user = record {
  user_config_dir = some (text "/home/u/.config");
  user_cache_dir = some (text "/home/u/.cache");
  user_home_dir = some (text "/home/u");
  xdg_data_home = [];
  mkdir_all = λ dir. true;
}

-- The data directory is not the configuration directory.
data_dir : app_data_dir user ≡ some (text "/home/u/.local/share/ssh-tunnel-manager")
unfolding app_data_dir equal
data_dir = refl

log_path_of :
    get_log_path user ≡ some (text "/home/u/.cache/ssh-tunnel-manager/ssh-tunnel-manager.log")
unfolding get_log_path app_cache_dir
log_path_of = refl

-- Without a configuration directory, `sshArgs` gets an empty path.
no_known_hosts : known_hosts_path (record user { user_config_dir = none }) ≡ []
unfolding known_hosts_path known_hosts_file app_config_dir
no_known_hosts = refl
