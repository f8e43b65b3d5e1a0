-- ===== src/Tests/Stored.antt =====
-- Config files, secrets and migrations of config.go, crypto.go and paths.go.
use ssh_tunnel_manager.Common.{
  equal, ◌≡◌, ◌≢◌, refl, ◌⊎◌, Bool, true, false, [], ◌∷◌, ◌++◌, none, some, Text, text, ℤ, take,
  ◌≤◌, drop, arith, equal_iff,
}
use ssh_tunnel_manager.Common.Maps.{lookup}
use ssh_tunnel_manager.Common.Strings.{equal}
use ssh_tunnel_manager.Config.{AppState, default_config}
use ssh_tunnel_manager.Config.Atomic.{save_ops_atomic}
use ssh_tunnel_manager.Config.Reload.{snapshot}
use ssh_tunnel_manager.Config.Save.{Json, Disk, save_ops, save_config}
use ssh_tunnel_manager.Config.Store.{
  get_ddns_check_interval, ConfigManager, save, encrypt_forward, encrypt_settings,
}
use ssh_tunnel_manager.Crypto.{
  load_or_create_secret_key, Cipher, KeyEnv, key_path, ok, encrypt_password, decrypt_password,
  is_encrypted,
}
use ssh_tunnel_manager.Crypto.RoundTrip.{IsAead, HasKey, decrypt_password-encrypt_password}
use ssh_tunnel_manager.Files.{FileSystem, apply_all}
use ssh_tunnel_manager.Paths.{Migration, migrate_file}
use ssh_tunnel_manager.Paths.Dirs.{Home, config_file, app_config_dir}
use ssh_tunnel_manager.Paths.Migrate.{migrate_file_partial}
use ssh_tunnel_manager.Startup.{start_up}
use ssh_tunnel_manager.Ui.Settings.{effective_interval}
use ssh_tunnel_manager.Startup.Again.{start_up-save, WorksWith}

-- A cipher that keeps the plaintext and adds a tag of 16 bytes.
abbrev tag : Text
tag = text "0123456789abcdef"

abbrev pub crypto : Cipher
crypto = record {
  seal = λ key iv plaintext. tag ++ plaintext;
  unseal = λ key iv sealed. some (drop 16 sealed);
  base64_encode = λ t. t;
  base64_decode = λ t. some t;
}

crypto-IsAead : IsAead crypto
crypto-IsAead = record {
  decodes = λ t. refl;
  decodes_empty = refl;
  opens = λ key iv plaintext. refl;
  tag = λ key iv plaintext. omega arith;
}

abbrev key : Text
key = tag ++ tag

abbrev no_migration : Migration
no_migration = record { exe_dir = none; opens = true; copies = true; partial = []; removes = true }

abbrev pub env : KeyEnv
env = record {
  dir = some (text "/data");
  migration = no_migration;
  readable = true;
  random_key = none;
  mkdir_works = true;
  write_works = true;
}

abbrev pub files : FileSystem
files = (text "/data/secret.key", key) ∷ []

files-HasKey : HasKey env (text "/data") key files
unfolding lookup equal
files-HasKey = record { dir_known = refl; can_read = refl; stored = refl; key_size = refl }

abbrev pub nonce : Text
nonce = text "nonce-nonce-"

decrypt_password-encrypt_password_example :
    (cipher_text : Text) × (encrypt_password crypto env (some nonce) (text "secret") files
      ≡ (files, ok cipher_text))
    × (is_encrypted crypto cipher_text ≡ true)
    × (decrypt_password crypto env cipher_text files ≡ (files, ok (text "secret")))
unfolding equal
decrypt_password-encrypt_password_example =
    decrypt_password-encrypt_password crypto crypto-IsAead env (text "/data") key files files nonce
      (text "secret") files-HasKey files-HasKey refl refl

abbrev pub disk : Disk
disk = record {
  tmp_name = text "/config/ssh-tunnel-manager/.ssh-tunnel-manager-1.json";
  creates = true;
  chmods = true;
  writes = true;
  partial = text "{";
  syncs = true;
  closes = true;
  renames = true;
}

abbrev pub config_path : Text
config_path = text "/config/ssh-tunnel-manager/config.json"

tmp_other : disk.tmp_name ≢ config_path
tmp_other e = ground (arith, equal_iff disk.tmp_name config_path)

-- The machine stops after the rename.
save_ops_atomic_example :
    let left = apply_all (take 5 (save_ops disk config_path (text "{}")).0) files in
    (lookup config_path left ≡ lookup config_path files)
    ⊎ (lookup config_path left ≡ some (text "{}"))
save_ops_atomic_example =
    save_ops_atomic disk config_path (text "{}") files
      (apply_all (take 5 (save_ops disk config_path (text "{}")).0) files) 5 tmp_other
      (λ path h. refl)

abbrev pub json : Json
json = record { encode = λ s. text "{}"; decode = λ t. some default_config }

abbrev saved_state : AppState
saved_state = record {
  forward = some (record {
    id = text "db";
    name = text "database";
    forward_type = text "local";
    remote_host = text "home.example.com";
    remote_port = ℤ.pos 5432;
    local_host = [];
    local_port = ℤ.pos 15432;
    ssh_user = text "ops";
    ssh_password = text "secret";
    auto_reconnect = true;
    max_retries = ℤ.pos 2;
    retry_interval = ℤ.pos 1;
  });
  settings = record { api_key = []; ddns_check_interval = ℤ.pos 30; dns_resolver = [] };
  forwards = [];
}

abbrev manager : ConfigManager
manager = record { file_path = config_path; state = saved_state; read_only = false }

-- The JSON of the one state that is saved.
abbrev saved_json : Json
saved_json = record {
  encode = λ s. text "{}";
  decode = λ t.
      some (snapshot crypto crypto-IsAead json env (text "/data") key nonce nonce disk saved_state);
}

tmp_key : disk.tmp_name ≢ key_path (text "/data")
tmp_key e = ground (arith, equal_iff disk.tmp_name (key_path (text "/data")))

path_key : config_path ≢ key_path (text "/data")
path_key e = ground (arith, equal_iff config_path (key_path (text "/data")))

manager_saved : (save saved_json crypto env (some nonce) (some nonce) disk manager files).1 ≡ none
unfolding save encrypt_forward encrypt_settings encrypt_password load_or_create_secret_key lookup
    equal save_config save_ops
manager_saved = refl

abbrev migration : Bool → Migration
migration copies = record {
  exe_dir = some (text "/app");
  opens = true;
  copies = copies;
  partial = text "012";
  removes = true;
}

abbrev user : Home
user = record {
  user_config_dir = some (text "/config");
  user_cache_dir = none;
  user_home_dir = none;
  xdg_data_home = [];
  mkdir_all = λ dir. true;
}

first_start : config_file user no_migration [] ≡ ([], some config_path)
unfolding config_file app_config_dir migrate_file lookup equal
first_start = refl

period_shown : effective_interval (get_ddns_check_interval manager) ≡ ℤ.pos 30
unfolding get_ddns_check_interval
period_shown = refl

small_period : 30 ≤ 9223372036
small_period = omega arith

start_up-save_example :
    let fs' = (save saved_json crypto env (some nonce) (some nonce) disk manager files).0 in
    WorksWith manager fs' 30 (start_up saved_json crypto env true user (migration true) fs')
start_up-save_example =
    start_up-save crypto crypto-IsAead saved_json env (text "/data") key nonce nonce disk user
      no_migration (migration true) manager [] [] files 30 first_start period_shown small_period
      files-HasKey refl refl refl tmp_other tmp_key path_key manager_saved

-- A legacy key file next to the executable.
abbrev legacy : FileSystem
legacy = (text "/app/secret.key", key) ∷ []

legacy-lookup : lookup (text "/app/secret.key") legacy ≡ some key
unfolding lookup equal
legacy-lookup = refl

absent : lookup (text "/data/secret.key") legacy ≡ none
unfolding lookup equal
absent = refl

migrate_file_partial_example :
    let fs' = migrate_file (migration false) (text "secret.key") (text "/data/secret.key") legacy in
    (lookup (text "/data/secret.key") fs' ≡ some (text "012"))
    × (migrate_file (migration true) (text "secret.key") (text "/data/secret.key") fs' ≡ fs')
migrate_file_partial_example =
    migrate_file_partial (migration false) (migration true) (text "/app") (text "secret.key")
      (text "/data/secret.key") key legacy refl legacy-lookup absent refl refl

-- The first start, with a fresh key.
abbrev first_env : KeyEnv
first_env = record env { random_key = some key }
