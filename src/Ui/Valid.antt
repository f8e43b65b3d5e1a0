-- ===== src/Ui/Valid.antt =====
-- ui.go: what `saveSettings` can put into the configuration.
use mathlib.Core.Bool.{false≢true}
use mathlib.Core.Option.{none-ne-some}
use ssh_tunnel_manager.Common.{
  Option-cases, ap, ◌∙◌, text, Bool-cases, sym, arith, ◌≤◌, Option, if◌then◌else◌, is_positive, ℕ,
  ◌≡◌, Bool, Text, ℤ, refl, true, false, none, some, [], ◌∷◌, inl, inr, pos, negsuc,
}
use ssh_tunnel_manager.Common.Strings.{equal, trim_space}
use ssh_tunnel_manager.Config.{ForwardConfig}
use ssh_tunnel_manager.Config.Store.{
  restore_app_state, set_dns_resolver, set_ddns_check_interval, set_api_key, set_forward,
  get_ddns_check_interval, StoreError, get_forward,
}
use ssh_tunnel_manager.Manager.{is_tracked}
use ssh_tunnel_manager.SshCommand.{is_empty}
use ssh_tunnel_manager.Ui.{refresh_zone_forward_status_async, App, ConfigManager, Form}
use ssh_tunnel_manager.Ui.Settings.{
  restart_tracked, roll_back, save_settings, restart_with_config, save_app, finish_save,
  apply_settings, after_save, Saving, clamp, entered, or_else, positive_or, is_port, form_error,
  updated_forward,
}

pub record IsPort (z : ℤ) : Type 0 where
  pub port : ℕ
  pub same : z ≡ pos port
  pub at_least : 1 ≤ port
  pub at_most : port ≤ 65535

is_port-IsPort : (z : ℤ) → is_port z ≡ true → IsPort z
is_port-IsPort (pos n) h = record {
  port = n;
  same = refl;
  at_least = ground (arith, h);
  at_most = ground (arith, h);
}
is_port-IsPort (negsuc n) h = absurd (false≢true h)

pub record IsValid (f : ForwardConfig) : Type 0 where
  pub remote_host_given : is_empty f.remote_host ≡ false
  pub ssh_user_given : is_empty f.ssh_user ≡ false
  pub local_host_given : is_empty f.local_host ≡ false
  pub name_given : is_empty f.name ≡ false
  pub remote_port_bounds : IsPort f.remote_port
  pub local_port_bounds : IsPort f.local_port
  pub retries_positive : is_positive f.max_retries ≡ true
  pub pause_positive : is_positive f.retry_interval ≡ true

is_empty-or_else :
    (t default : Text) → is_empty default ≡ false → is_empty (or_else t default) ≡ false
unfolding equal
is_empty-or_else [] default h = h
is_empty-or_else (c ∷ t) default h = refl

is_positive-positive_or :
    (i default : ℤ) → is_positive default ≡ true → is_positive (positive_or i default) ≡ true
is_positive-positive_or i default h = elim (Bool-cases (is_positive i)) [
  | inl e ↦ rw (e, e) refl
  | inr e ↦ rw e h
]

-- The four tests have passed.
record Passes (form : Form) : Type 0 where
  host_given : is_empty (trim_space form.remote_host_entry) ≡ false
  user_given : is_empty (trim_space form.ssh_user_entry) ≡ false
  remote_port_ok : is_port (entered form.remote_port_entry) ≡ true
  local_port_ok : is_port (entered form.local_port_entry) ≡ true

passes :
    (h u r l : Bool) (e1 e2 e3 e4 : Text)
    → (if h
        then some e1
        else if u
        then some e2
        else if r
        then (if l then none else some e4)
        else some e3)
      ≡ none
    → ((h ≡ false) × (u ≡ false)) × ((r ≡ true) × (l ≡ true))
passes true u r l e1 e2 e3 e4 p = absurd (none-ne-some _ (sym p))
passes false true r l e1 e2 e3 e4 p = absurd (none-ne-some _ (sym p))
passes false false false l e1 e2 e3 e4 p = absurd (none-ne-some _ (sym p))
passes false false true false e1 e2 e3 e4 p = absurd (none-ne-some _ (sym p))
passes false false true true e1 e2 e3 e4 p = ((refl, refl), (refl, refl))

form_error-Passes : (form : Form) → form_error form ≡ none → Passes form
unfolding form_error
form_error-Passes form h =
    let ((host, user), (remote, local)) =
      passes (is_empty (trim_space form.remote_host_entry))
        (is_empty (trim_space form.ssh_user_entry)) (is_port (entered form.remote_port_entry))
        (is_port (entered form.local_port_entry)) (text "✗ 远程主机不能为空") (text "✗ SSH 用户不能为空")
        (text "✗ 远程端口无效 (1-65535)") (text "✗ 本地端口无效 (1-65535)") h in
    record { host_given = host; user_given = user; remote_port_ok = remote; local_port_ok = local }

updated_forward-IsValid :
    (now : ℤ) (existing : Option ForwardConfig) (form : Form)
    → form_error form ≡ none
    → IsValid (updated_forward now existing form)
unfolding updated_forward equal
updated_forward-IsValid now none form h =
    let p = form_error-Passes form h in
    record {
      remote_host_given = p.host_given;
      ssh_user_given = p.user_given;
      local_host_given =
          is_empty-or_else (trim_space form.local_host_entry) (text "localhost") refl;
      name_given = refl;
      remote_port_bounds = is_port-IsPort _ p.remote_port_ok;
      local_port_bounds = is_port-IsPort _ p.local_port_ok;
      retries_positive = refl;
      pause_positive = refl;
    }
updated_forward-IsValid now (some f) form h =
    let p = form_error-Passes form h in
    record {
      remote_host_given = p.host_given;
      ssh_user_given = p.user_given;
      local_host_given =
          is_empty-or_else (trim_space form.local_host_entry) (text "localhost") refl;
      name_given = is_empty-or_else f.name (text "default") refl;
      remote_port_bounds = is_port-IsPort _ p.remote_port_ok;
      local_port_bounds = is_port-IsPort _ p.local_port_ok;
      retries_positive = is_positive-positive_or f.max_retries (pos 5) refl;
      pause_positive = is_positive-positive_or f.retry_interval (pos 5) refl;
    }

abbrev is_negative : ℤ → Bool
is_negative (pos n) = false
is_negative (negsuc n) = true

clamp-is_negative : (z : ℤ) → is_negative (clamp z) ≡ false
clamp-is_negative (pos n) = refl
clamp-is_negative (negsuc n) = refl

-- What a call of `saveSettings` leaves of the rule and of the heartbeat's interval.
pub data Saved (before after : ConfigManager) : Type 0 where
  unchanged :
      get_forward after ≡ get_forward before
      → get_ddns_check_interval after ≡ get_ddns_check_interval before
      → Saved before after
  changed :
      (f : ForwardConfig)
      → get_forward after ≡ some f
      → IsValid f
      → is_negative (get_ddns_check_interval after) ≡ false
      → Saved before after

config-if :
    (b : Bool) (x y : App) (c : ConfigManager)
    → x.config ≡ c
    → y.config ≡ c
    → (if b then x else y).config ≡ c
config-if true x y c p q = p
config-if false x y c p q = q

restart_with_config-config :
    (f : ForwardConfig) (app : App) → (restart_with_config f app).config ≡ app.config
unfolding restart_with_config
restart_with_config-config f app = config-if app.ui.connect_busy app _ app.config refl refl

restart_tracked-config :
    (f : ForwardConfig) (app : App) → (restart_tracked f app).config ≡ app.config
restart_tracked-config f app =
    config-if (is_tracked app.tunnels.manager f.id) _ _ app.config (restart_with_config-config f _)
      refl

pub after_save-config : (f : ForwardConfig) (app : App) → (after_save f app).config ≡ app.config
unfolding after_save refresh_zone_forward_status_async
after_save-config f app = restart_tracked-config f _

pub save_app-config : (s : Saving) (app : App) → (save_app s app).0.config ≡ app.config
unfolding save_app
save_app-config s app = refl

module _ (f : ForwardConfig) (app : App) where
  apply_settings-forward : get_forward (apply_settings f app).config ≡ some f
  unfolding apply_settings get_forward set_forward set_api_key set_ddns_check_interval
      set_dns_resolver
  apply_settings-forward = refl

  apply_settings-interval :
      is_negative (get_ddns_check_interval (apply_settings f app).config) ≡ false
  unfolding apply_settings get_ddns_check_interval set_forward set_api_key set_ddns_check_interval
      set_dns_resolver
  apply_settings-interval = clamp-is_negative _

module _ (before : ConfigManager) (reason : Text) (app : App) where
  roll_back-forward : get_forward (roll_back before reason app).config ≡ get_forward before
  unfolding roll_back get_forward restore_app_state
  roll_back-forward = refl

  roll_back-interval :
      get_ddns_check_interval (roll_back before reason app).config ≡ get_ddns_check_interval before
  unfolding roll_back get_ddns_check_interval restore_app_state
  roll_back-interval = refl

finish_save-Saved :
    (s : Saving) (before : App) (r : App × Option StoreError)
    → form_error before.ui.form ≡ none
    → let f = updated_forward s.now (get_forward before.config) before.ui.form in
      r.0.config ≡ (apply_settings f before).config
      → Saved before.config (finish_save s before.config f r).config
finish_save-Saved s before (app, none) h e =
    let f = updated_forward s.now (get_forward before.config) before.ui.form in
    let same = after_save-config f app ∙ e in
    changed f (ap get_forward same ∙ apply_settings-forward f before)
      (updated_forward-IsValid s.now _ before.ui.form h)
      (ap (λ c. is_negative (get_ddns_check_interval c)) same ∙ apply_settings-interval f before)
finish_save-Saved s before (app, some err) h e =
    unchanged (roll_back-forward before.config _ app) (roll_back-interval before.config _ app)

-- A call of `saveSettings` either leaves the rule and the interval as they were, or it leaves a rule
-- whose two ports are between 1 and 65535, whose host, user, local host and name are not empty and whose
-- numbers of retries and of seconds between them are positive, and an interval that is not negative.
pub save_settings-Saved : (s : Saving) (app : App) → Saved app.config (save_settings s app).config
unfolding save_settings
save_settings-Saved s app = elim (Option-cases (form_error app.ui.form)) [
  | inr (msg, e) ↦ rw (e, save_settings) (unchanged refl refl)
  | inl n ↦
      let f = updated_forward s.now (get_forward app.config) app.ui.form in
      rw (n, save_settings)
        (finish_save-Saved s app (save_app s (apply_settings f app)) n (save_app-config s _))
]
