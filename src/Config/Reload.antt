-- ===== src/Config/Reload.antt =====
-- config.go: what `Save` has written, `Load` reads.
use mathlib.Core.Option.{none-ne-some}
use ssh_tunnel_manager.Common.{
  ◌∙◌, ◌≢◌, false, true, sym, ap, ◌≡◌, refl, [], Option, none, some, Text, length, Bool-cases, inl,
  inr,
}
use ssh_tunnel_manager.Common.Maps.{lookup}
use ssh_tunnel_manager.Config.{AppState, normalize_legacy, ForwardConfig, AppSettings}
use ssh_tunnel_manager.Config.Atomic.{IsSaved, lookup-save_config_other, save_config-IsSaved}
use ssh_tunnel_manager.Config.Save.{SaveError, save_config, loaded, load_config, Disk, Json}
use ssh_tunnel_manager.Config.Store.{
  new_config_manager, protected, stored, ConfigManager, load, save,
}
use ssh_tunnel_manager.Crypto.{key_path, Cipher, KeyEnv}
use ssh_tunnel_manager.Crypto.RoundTrip.{IsAead, HasKey}
use ssh_tunnel_manager.Files.{FileSystem}
use ssh_tunnel_manager.Config.Sealed.{
  stored_forward, stored_settings, encrypt_forward_lem, encrypt_settings_lem, decrypt_forward_lem,
  decrypt_settings_lem,
}

normalize_legacy-normal :
    (forward : Option ForwardConfig) (settings : AppSettings)
    → let s : AppState = record { forward = forward; settings = settings; forwards = [] } in
      normalize_legacy s ≡ s
unfolding normalize_legacy
normalize_legacy-normal none settings = refl
normalize_legacy-normal (some f) settings = refl

module _ (crypto : Cipher) (a : IsAead crypto) (json : Json) (env : KeyEnv)
    (directory key nonce1 nonce2 : Text) (disk : Disk) where
  -- The state that `Save` gives to JSON.
  abbrev pub snapshot : AppState → AppState
  snapshot s = record {
    forward = stored_forward crypto a env directory key nonce1 s.forward;
    settings = stored_settings crypto a env directory key nonce2 s.settings;
    forwards = [];
  }

  save_lem :
      (cm : ConfigManager) (fs : FileSystem)
      → HasKey env directory key fs
      → cm.read_only ≡ false
      → save json crypto env (some nonce1) (some nonce2) disk cm fs
        ≡ stored (save_config json disk cm.file_path (snapshot cm.state) fs)
  unfolding save
  save_lem cm fs k w =
      let sealed = encrypt_forward_lem crypto a env directory key fs nonce1 cm.state.forward k in
      let settings =
        encrypt_settings_lem crypto a env directory key fs nonce2 cm.state.settings k in
      rw (w, sealed) (rw (sealed, settings) (rw (sealed, settings) refl))

  load_lem :
      (cm : ConfigManager) (s : AppState) (fs : FileSystem)
      → HasKey env directory key fs
      → length nonce1 ≡ 12
      → length nonce2 ≡ 12
      → load_config json true cm.file_path fs ≡ loaded (snapshot s)
      → load json crypto env true cm fs
        ≡ (record cm { state = record s { forwards = [] } }, fs, none)
  unfolding load
  load_lem cm s fs k size1 size2 e =
      rw (e, load)
        (rw (decrypt_forward_lem crypto a env directory key fs nonce1 s.forward k size1)
          (rw (decrypt_settings_lem crypto a env directory key fs nonce2 s.settings k size2) refl))

  load_config_lem :
      (path : Text) (s : AppState) (fs : FileSystem)
      → json.decode (json.encode (snapshot s)) ≡ some (snapshot s)
      → lookup path fs ≡ some (json.encode (normalize_legacy (snapshot s)))
      → load_config json true path fs ≡ loaded (snapshot s)
  unfolding load_config
  load_config_lem path s fs t h =
      let normal = normalize_legacy-normal (snapshot s).forward (snapshot s).settings in
      rw (h, load_config) (rw (normal) (rw (t, load_config) (ap loaded normal)))

  IsSaved-loads :
      (path : Text) (s : AppState) (fs : FileSystem) (r : FileSystem × Option SaveError)
      → json.decode (json.encode (snapshot s)) ≡ some (snapshot s)
      → (stored r).1 ≡ none
      → IsSaved path (json.encode (normalize_legacy (snapshot s))) fs r
      → load_config json true path (stored r).0 ≡ loaded (snapshot s)
  IsSaved-loads path s fs (fs', none) t h saved = load_config_lem path s fs' t saved
  IsSaved-loads path s fs (fs', some e) t h saved = absurd (none-ne-some _ (sym h))

  stored_files : (r : FileSystem × Option SaveError) → (stored r).0 ≡ r.0
  stored_files (fs, none) = refl
  stored_files (fs, some e) = refl

  HasKey-saved :
      (cm : ConfigManager) (fs : FileSystem)
      → HasKey env directory key fs
      → disk.tmp_name ≢ key_path directory
      → cm.file_path ≢ key_path directory
      → HasKey env directory key
          (stored (save_config json disk cm.file_path (snapshot cm.state) fs)).0
  HasKey-saved cm fs k tmp_other path_other = record {
    dir_known = k.dir_known;
    can_read = k.can_read;
    stored = rw (stored_files (save_config json disk cm.file_path (snapshot cm.state) fs)) (
        lookup-save_config_other json disk cm.file_path (key_path directory) (snapshot cm.state) fs
          tmp_other path_other
        ∙ k.stored);
    key_size = k.key_size;
  }

  -- Read-only protection.
  save_protected :
      (cm : ConfigManager) (fs : FileSystem) (n1 n2 : Option Text)
      → cm.read_only ≡ true
      → save json crypto env n1 n2 disk cm fs ≡ (fs, some protected)
  unfolding save
  save_protected cm fs n1 n2 p = rw p refl

  writable :
      (cm : ConfigManager) (fs : FileSystem)
      → (save json crypto env (some nonce1) (some nonce2) disk cm fs).1 ≡ none
      → cm.read_only ≡ false
  writable cm fs h = elim (Bool-cases cm.read_only) [
    | inr w ↦ w
    | inl p ↦ absurd (none-ne-some protected (sym h ∙ ap (λ r. r.1) (save_protected cm fs _ _ p)))
  ]

  IsSaved-there :
      (path contents : Text) (fs : FileSystem) (r : FileSystem × Option SaveError)
      → (stored r).1 ≡ none
      → IsSaved path contents fs r
      → lookup path (stored r).0 ≡ some contents
  IsSaved-there path contents fs (fs', none) h saved = saved
  IsSaved-there path contents fs (fs', some e) h saved = absurd (none-ne-some _ (sym h))

  -- The document of the state is in the config file after a save without an error.
  pub lookup-save :
      (cm : ConfigManager) (fs : FileSystem)
      → HasKey env directory key fs
      → disk.tmp_name ≢ cm.file_path
      → (save json crypto env (some nonce1) (some nonce2) disk cm fs).1 ≡ none
      → lookup cm.file_path (save json crypto env (some nonce1) (some nonce2) disk cm fs).0
        ≡ some (json.encode (normalize_legacy (snapshot cm.state)))
  lookup-save cm fs k tmp_path h =
      let done = save_lem cm fs k (writable cm fs h) in
      rw done (
        IsSaved-there cm.file_path _ fs _ (rw (← done) h)
          (save_config-IsSaved json disk cm.file_path (snapshot cm.state) fs tmp_path))

  -- When `Save` returns no error, a new manager that loads the file afterwards has the state that was
  -- saved, secrets in plaintext and without legacy forwards. It holds with crypto packages that behave as
  -- documented, with the key file in place, for nonces of the cipher's size, when JSON reads back what it
  -- writes for the state with its secrets encrypted, and for a temporary file, a config file and a key
  -- file that are three different files.
  pub load-save :
      (cm : ConfigManager) (fs : FileSystem)
      → HasKey env directory key fs
      → length nonce1 ≡ 12
      → length nonce2 ≡ 12
      → json.decode (json.encode (snapshot cm.state)) ≡ some (snapshot cm.state)
      → disk.tmp_name ≢ cm.file_path
      → disk.tmp_name ≢ key_path directory
      → cm.file_path ≢ key_path directory
      → (save json crypto env (some nonce1) (some nonce2) disk cm fs).1 ≡ none
      → let fs' = (save json crypto env (some nonce1) (some nonce2) disk cm fs).0 in
        load json crypto env true (new_config_manager cm.file_path) fs' ≡ (
          record {
            file_path = cm.file_path;
            state = record (cm.state) { forwards = [] };
            read_only = false;
          },
          fs',
          none,
        )
  unfolding new_config_manager
  load-save cm fs k size1 size2 t tmp_path tmp_key path_key h =
      let done = save_lem cm fs k (writable cm fs h) in
      rw done (
        load_lem (new_config_manager cm.file_path) cm.state _
          (HasKey-saved cm fs k tmp_key path_key) size1 size2
          (IsSaved-loads cm.file_path cm.state fs _ t (rw (← done) h)
            (save_config-IsSaved json disk cm.file_path (snapshot cm.state) fs tmp_path)))
