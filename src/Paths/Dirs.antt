-- ===== src/Paths/Dirs.antt =====
-- paths.go and logger.go: the places of the files.
use ssh_tunnel_manager.Common.{◌≡◌, ap, Bool, [], Option, none, some, Text, text, if◌then◌else◌}
use ssh_tunnel_manager.Common.Maps.{lookup}
use ssh_tunnel_manager.Files.{FileSystem}
use ssh_tunnel_manager.Paths.{Migration, migrate_file, join_path}
use ssh_tunnel_manager.SshCommand.{is_empty}

-- What the operating system knows of the user, `none` for an error; the variable `XDG_DATA_HOME`, empty
-- when it is not set; and which directories can be made.
pub record Home : Type 0 where
  pub user_config_dir : Option Text
  pub user_cache_dir : Option Text
  pub user_home_dir : Option Text
  pub xdg_data_home : Text
  pub mkdir_all : Text → Bool

abbrev pub app_name : Text
app_name = text "ssh-tunnel-manager"

abbrev in_base : Option Text → Option Text
in_base none = none
in_base (some base) = some (join_path base app_name)

unfoldable pub app_config_dir : Home → Option Text
app_config_dir home = in_base home.user_config_dir

unfoldable pub app_cache_dir : Home → Option Text
app_cache_dir home = in_base home.user_cache_dir

abbrev data_home : Home → Option Text → Option Text
data_home home none = app_config_dir home
data_home home (some dir) =
    some (join_path (join_path (join_path dir (text ".local")) (text "share")) app_name)

unfoldable pub app_data_dir : Home → Option Text
app_data_dir home =
    if is_empty home.xdg_data_home
    then data_home home home.user_home_dir
    else some (join_path home.xdg_data_home app_name)

abbrev made : Home → Text → Option Text → Option Text
made home name none = none
made home name (some dir) = if home.mkdir_all dir then some (join_path dir name) else none

abbrev moved_in : Migration → Text → FileSystem → Option Text → FileSystem
moved_in mig dst fs (some there) = fs
moved_in mig dst fs none = migrate_file mig (text "config.json") dst fs

abbrev with_config : Migration → FileSystem → Option Text → FileSystem × Option Text
with_config mig fs none = (fs, none)
with_config mig fs (some dst) = (moved_in mig dst fs (lookup dst fs), some dst)

-- `configFile`: the path, `none` for an error. `os.Stat` finds a file or says that there is none.
unfoldable pub config_file : Home → Migration → FileSystem → FileSystem × Option Text
config_file home mig fs = with_config mig fs (made home (text "config.json") (app_config_dir home))

unfoldable pub known_hosts_file : Home → Option Text
known_hosts_file home = made home (text "known_hosts") (app_config_dir home)

unfoldable pub known_hosts_path : Home → Text
known_hosts_path home = elim (known_hosts_file home) [ none ↦ [] | some p ↦ p ]

unfoldable pub get_log_path : Home → Option Text
get_log_path home = made home (text "ssh-tunnel-manager.log") (app_cache_dir home)

moved_in_there :
    (mig : Migration) (dst contents : Text) (fs : FileSystem)
    → lookup dst fs ≡ some contents
    → moved_in mig dst fs (lookup dst fs) ≡ fs
moved_in_there mig dst contents fs e = ap (moved_in mig dst fs) e

-- Once `configFile` has given a path, every later call that finds a file there gives the same path and
-- changes no file, whatever the operating system answers to a migration then.
pub config_file_again :
    (home : Home) (mig mig' : Migration) (fs fs1 fs' : FileSystem) (dst contents : Text)
    → config_file home mig fs ≡ (fs1, some dst)
    → lookup dst fs' ≡ some contents
    → config_file home mig' fs' ≡ (fs', some dst)
unfolding config_file
config_file_again home mig mig' fs fs1 fs' dst contents called there =
    again (made home (text "config.json") (app_config_dir home)) called
  where
    again :
        (path : Option Text)
        → with_config mig fs path ≡ (fs1, some dst)
        → with_config mig' fs' path ≡ (fs', some dst)
    again none h = cc
    again (some p) h =
        let same : p ≡ dst = cc in
        rw same (ap (λ f. (f, some dst)) (moved_in_there mig' dst contents fs' there))
