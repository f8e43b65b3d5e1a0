-- ===== src/Startup/Guarded.antt =====
-- main.go: what holds from the start on.
use ssh_tunnel_manager.Common.{
  is_positive, Bool-cases, refl, true, some, inl, inr, ◌≢◌, All, List, ◌≡◌, Bool, Text, ℤ, arith,
  ap, ◌∙◌, sym,
}
use ssh_tunnel_manager.Common.Duration.{seconds}
use ssh_tunnel_manager.Config.Save.{not_exist, not_readable, decode_failed, Json, LoadError}
use ssh_tunnel_manager.Config.Store.{
  ConfigManager, protected, load, new_config_manager, set_read_only, is_read_only, save,
}
use ssh_tunnel_manager.Crypto.{Cipher, KeyEnv}
use ssh_tunnel_manager.Files.{FileSystem}
use ssh_tunnel_manager.Manager.Reachable.{WorldInv, step-WorldInv, start-WorldInv}
use ssh_tunnel_manager.Manager.World.{World, start, sets_interval, registers}
use ssh_tunnel_manager.Startup.{
  loaded_app, launch, apply_config_settings, set_interval, register, new_ui, warned, first_window,
  guarded,
}
use ssh_tunnel_manager.Ui.{Form, set_test_result, App, empty_ui, auto_start}
use ssh_tunnel_manager.Ui.Dialog.{app_run-Fits, is_single}
use ssh_tunnel_manager.Ui.Effects.{
  no_action, same_rows, RowsOk, Effect, Effect-seq, Effect-ui, Effect-if, Effect-refl, Effect-spawn,
}
use ssh_tunnel_manager.Ui.Exclusive.{Fits, quiet-Fits}
use ssh_tunnel_manager.Ui.HandlerEffects.{refresh-Effect}
use ssh_tunnel_manager.Ui.Jobs.{AppEvent, app_run}
use ssh_tunnel_manager.Ui.Settings.{Saving, save_app}

set_interval-WorldInv : (z : ℤ) (w : World) → WorldInv w → WorldInv (set_interval z w)
set_interval-WorldInv z w v = elim (Bool-cases (is_positive z)) [
  | inl e ↦ rw e (step-WorldInv w (sets_interval (seconds z)) v)
  | inr e ↦ rw e v
]

warned-Effect : (app : App) → Effect 0 app (warned app)
unfolding set_test_result
warned-Effect app =
    Effect-if (is_read_only app.config) (Effect-ui _ app refl refl (same_rows refl refl refl))
      (Effect-refl app)

empty_rows : {form : Form} → RowsOk (record empty_ui { form = form })
empty_rows = record { shown = no_action refl refl; queued = tt }

new_ui-Effect : (app : App) → app.ui ≡ empty_ui → Effect 0 app (new_ui app)
unfolding new_ui
new_ui-Effect app h =
    Effect-ui _ app (sym (ap (λ u. u.conflict_busy) h)) (sym (ap (λ u. u.ui_cmd_q) h))
      (λ rows. empty_rows)

guarded-read_only :
    (e : LoadError) (cfg : ConfigManager) → e ≢ not_exist → (guarded (some e) cfg).read_only ≡ true
unfolding set_read_only
guarded-read_only not_exist cfg h = absurd (h refl)
guarded-read_only not_readable cfg h = refl
guarded-read_only decode_failed cfg h = refl

save_read_only :
    (s : Saving) (cfg : ConfigManager) (fs : FileSystem)
    → cfg.read_only ≡ true
    → save s.json s.crypto s.key_env s.nonce1 s.nonce2 s.disk cfg fs ≡ (fs, some protected)
unfolding save
save_read_only s cfg fs p = rw p refl

save_app_read_only :
    (s : Saving) (app : App) → app.config.read_only ≡ true → save_app s app ≡ (app, some protected)
unfolding save_app
save_app_read_only s app p =
    ap (λ r. (record app { files = r.0 }, r.1)) (save_read_only s app.config app.files p)

module _ (json : Json) (crypto : Cipher) (env : KeyEnv) (readable : Bool) (path : Text)
    (fs : FileSystem) where
  abbrev loaded : App
  loaded = loaded_app json crypto env readable path fs

  prepared-Fits : Fits loaded.config.read_only 0 (register (apply_config_settings loaded))
  unfolding loaded_app apply_config_settings
  prepared-Fits = record {
    sound = record {
      tunnels_inv =
          step-WorldInv _ (registers true true) (set_interval-WorldInv _ start start-WorldInv);
      resolver_synced = refl;
      rows_ok = empty_rows;
    };
    protection = refl;
    exclusive = omega arith;
  }

  pub launch-Fits : Fits loaded.config.read_only 0 (launch json crypto env readable path fs)
  unfolding launch first_window loaded_app apply_config_settings
  launch-Fits =
      quiet-Fits
        (Effect-seq (new_ui-Effect (register (apply_config_settings loaded)) refl) (
          Effect-seq (warned-Effect _) (Effect-seq (refresh-Effect _) (Effect-spawn auto_start _))))
        prepared-Fits

  -- From the start on, in every run whose frames click at most one of the two buttons of the conflict
  -- dialog: the flag `conflictBusy` is set exactly when one goroutine of the dialog is at work or its
  -- release is queued, and there is never a second one; the manager with its goroutines satisfies its
  -- invariant; the resolver in use is the configured one; the button of the zone row has the caption of its
  -- action, and no caption without an action; and the read-only protection is as the start has set it.
  pub launch-app_run :
      (es : List AppEvent)
      → All (λ e. is_single e ≡ true) es
      → Fits loaded.config.read_only 0 (app_run (launch json crypto env readable path fs) es)
  launch-app_run es single = app_run-Fits _ es single launch-Fits

  -- When the configuration file is there at the start but cannot be loaded, then at every moment of a run
  -- whose frames click at most one of the two buttons of the conflict dialog, a save changes nothing and
  -- returns the error of the read-only protection.
  pub launch-protected :
      (cfg : ConfigManager) (fs' : FileSystem) (e : LoadError) (es : List AppEvent) (s : Saving)
      → load json crypto env readable (new_config_manager path) fs ≡ (cfg, fs', some e)
      → e ≢ not_exist
      → All (λ e. is_single e ≡ true) es
      → let app = app_run (launch json crypto env readable path fs) es in
        save_app s app ≡ (app, some protected)
  launch-protected cfg fs' e es s failed other single =
      save_app_read_only s _ ((launch-app_run es single).protection ∙ start_read_only)
    where
      start_read_only : loaded.config.read_only ≡ true
      start_read_only =
          unfold loaded_app in
          ap (λ r. (guarded r.2 r.0).read_only) failed ∙ guarded-read_only e cfg other
