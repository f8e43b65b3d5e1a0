-- ===== src/Ui/Rollback.antt =====
-- ui.go: the two ends of `saveSettings`.
use mathlib.Core.Option.{none-ne-some}
use ssh_tunnel_manager.Common.{
  Option, sym, ◌∙◌, ap, Text, List, if◌then◌else◌, ◌≡◌, Bool, refl, true, false, none, some, [],
}
use ssh_tunnel_manager.Common.Duration.{seconds}
use ssh_tunnel_manager.Config.Store.{
  save, StoreError, restore_app_state, set_dns_resolver, set_api_key, get_api_key, set_forward,
  get_ddns_check_interval, get_dns_resolver, get_forward, set_ddns_check_interval,
}
use ssh_tunnel_manager.Manager.{is_tracked, SshManager}
use ssh_tunnel_manager.Manager.World.{step}
use ssh_tunnel_manager.Ui.{
  with_ui, refresh_zone_forward_status_async, FileSystem, ForwardConfig, set_test_result, Job, Ui,
  App,
}
use ssh_tunnel_manager.Ui.Settings.{
  finish_save, save_app, form_error, save_settings, updated_forward, Saving, after_save,
  restart_tracked, restart_with_config, effective_interval, load_config_to_form, apply_settings,
  roll_back,
}
use ssh_tunnel_manager.Manager

-- The running app uses the interval and the resolver that the configuration stands for; the rest of the
-- manager is `before`.
pub record IsLive (before : SshManager) (app : App) : Type 0 where
  pub interval :
      app.tunnels.manager
      ≡ Manager.set_ddns_check_interval
          (seconds (effective_interval (get_ddns_check_interval app.config)))
          before
  pub resolver : app.resolver ≡ get_dns_resolver app.config

pub record IsRolledBack (before after : App) : Type 0 where
  pub config :
      after.config
      ≡ record (before.config) { state = record (before.config.state) { forwards = [] } }
  pub live : IsLive before.tunnels.manager after
  pub form : after.ui.form ≡ load_config_to_form after.config before.ui.form
  pub jobs : after.jobs ≡ before.jobs
  pub expanded : after.ui.settings_expanded ≡ before.ui.settings_expanded
  pub told : after.ui.test_ok ≡ false

apply_settings-IsLive :
    (f : ForwardConfig) (app : App) → IsLive app.tunnels.manager (apply_settings f app)
unfolding apply_settings step get_dns_resolver get_ddns_check_interval set_forward set_api_key
    set_ddns_check_interval set_dns_resolver
apply_settings-IsLive f app = record { interval = refl; resolver = refl }

roll_back-IsRolledBack :
    (f : ForwardConfig) (fs : FileSystem) (reason : Text) (app : App)
    → IsRolledBack app (roll_back app.config reason (record (apply_settings f app) { files = fs }))
unfolding roll_back apply_settings step get_dns_resolver get_ddns_check_interval get_api_key
    get_forward set_forward set_api_key set_ddns_check_interval set_dns_resolver restore_app_state
    set_test_result load_config_to_form Manager.set_ddns_check_interval
roll_back-IsRolledBack f fs reason app = record {
  config = refl;
  live = record { interval = refl; resolver = refl };
  form = refl;
  jobs = refl;
  expanded = refl;
  told = refl;
}

-- What the end of a save that worked keeps.
record SameLive (a b : App) : Type 0 where
  config_kept : b.config ≡ a.config
  tunnels_kept : b.tunnels ≡ a.tunnels
  resolver_kept : b.resolver ≡ a.resolver

SameLive-if :
    (b : Bool) (a x y : App) → SameLive a x → SameLive a y → SameLive a (if b then x else y)
SameLive-if true a x y p q = p
SameLive-if false a x y p q = q

same_live : (a : App) (ui : Ui) (jobs : List Job) → SameLive a (record a { ui = ui; jobs = jobs })
same_live a ui jobs = record { config_kept = refl; tunnels_kept = refl; resolver_kept = refl }

restart_with_config-SameLive :
    (f : ForwardConfig) (a app : App) → SameLive a app → SameLive a (restart_with_config f app)
unfolding restart_with_config
restart_with_config-SameLive f a app k = SameLive-if app.ui.connect_busy a app _ k (record {
  config_kept = k.config_kept;
  tunnels_kept = k.tunnels_kept;
  resolver_kept = k.resolver_kept;
})

restart_tracked-SameLive : (f : ForwardConfig) (app : App) → SameLive app (restart_tracked f app)
restart_tracked-SameLive f app =
    SameLive-if (is_tracked app.tunnels.manager f.id) app _ _
      (restart_with_config-SameLive f app _ (same_live app _ app.jobs)) (same_live app _ app.jobs)

after_save-SameLive : (f : ForwardConfig) (app : App) → SameLive app (after_save f app)
unfolding after_save refresh_zone_forward_status_async
after_save-SameLive f app =
    let k =
      restart_tracked-SameLive f (with_ui (record (app.ui) { settings_expanded = false }) app) in
    record {
      config_kept = k.config_kept;
      tunnels_kept = k.tunnels_kept;
      resolver_kept = k.resolver_kept;
    }

SameLive-IsLive :
    {before : SshManager} {a b : App} → SameLive a b → IsLive before a → IsLive before b
SameLive-IsLive {before} k l = record {
  interval =
      ap (λ w. w.manager) k.tunnels_kept
      ∙ (l.interval
          ∙ ap
              (λ c.
                Manager.set_ddns_check_interval
                  (seconds (effective_interval (get_ddns_check_interval c))) before)
              (sym k.config_kept));
  resolver = k.resolver_kept ∙ (l.resolver ∙ ap get_dns_resolver (sym k.config_kept));
}

module _ (s : Saving) (app : App) where
  abbrev updated : ForwardConfig
  updated = updated_forward s.now (get_forward app.config) app.ui.form

  abbrev pub applied : App
  applied = apply_settings updated app

  finish_save-IsRolledBack :
      (r : App × Option StoreError) (fs : FileSystem) (e : StoreError)
      → r.0 ≡ record applied { files = fs }
      → r.1 ≡ some e
      → IsRolledBack app (finish_save s app.config updated r)
  finish_save-IsRolledBack (a, none) fs e same failed = absurd (none-ne-some e failed)
  finish_save-IsRolledBack (a, some err) fs e same failed =
      rw same (roll_back-IsRolledBack updated fs (s.wording err) app)

  finish_save-IsLive :
      (r : App × Option StoreError) (fs : FileSystem)
      → r.0 ≡ record applied { files = fs }
      → IsLive app.tunnels.manager (finish_save s app.config updated r)
  finish_save-IsLive (a, none) fs same = SameLive-IsLive (after_save-SameLive updated a) (
      rw same (record {
        interval = (apply_settings-IsLive updated app).interval;
        resolver = (apply_settings-IsLive updated app).resolver;
      }))
  finish_save-IsLive (a, some err) fs same =
      rw same (roll_back-IsRolledBack updated fs (s.wording err) app).live

  save_app-files :
      (a : App)
      → (save_app s a).0 ≡ record a {
        files = (save s.json s.crypto s.key_env s.nonce1 s.nonce2 s.disk a.config a.files).0;
      }
  unfolding save_app
  save_app-files a = refl

  -- A save that fails, after the tests of the form have passed, leaves the configuration as it was but for
  -- its legacy forwards, the running app on the interval and the resolver of that configuration, the form
  -- reloaded from it, no new goroutine, and an error message.
  pub save_settings-IsRolledBack :
      (e : StoreError)
      → form_error app.ui.form ≡ none
      → (save_app s applied).1 ≡ some e
      → IsRolledBack app (save_settings s app)
  unfolding save_settings
  save_settings-IsRolledBack e passed failed =
      rw (passed, save_settings)
        (finish_save-IsRolledBack (save_app s applied) _ e (save_app-files applied) failed)

  -- When the tests of the form pass, then after a save, whether it works or fails, the manager is as
  -- before but for its interval, and the interval and the resolver in use are those of the configuration
  -- as it then is.
  pub save_settings-IsLive :
      form_error app.ui.form ≡ none → IsLive app.tunnels.manager (save_settings s app)
  unfolding save_settings
  save_settings-IsLive passed =
      rw (passed, save_settings)
        (finish_save-IsLive (save_app s applied) _ (save_app-files applied))
