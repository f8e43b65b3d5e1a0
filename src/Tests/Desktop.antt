-- ===== src/Tests/Desktop.antt =====
-- The app with its UI at concrete inputs.
use ssh_tunnel_manager.Common.{refl, true, false, none, some, [], ◌∷◌, ◌≡◌, ◌≢◌, arith, text, ℤ}
use ssh_tunnel_manager.Common.Atoi.{atoi}
use ssh_tunnel_manager.Common.Maps.{lookup}
use ssh_tunnel_manager.Common.Strings.{trim_space, equal}
use ssh_tunnel_manager.Config.Save.{
  save_config, save_ops, Json, decode_failed, not_exist, load_config,
}
use ssh_tunnel_manager.Config.Store.{
  set_forward, set_api_key, set_ddns_check_interval, set_dns_resolver, encrypt_forward,
  encrypt_settings, protected, load, new_config_manager, get_forward, save, get_dns_resolver,
}
use ssh_tunnel_manager.Manager.Reachable.{start-WorldInv}
use ssh_tunnel_manager.Startup.{loaded_app, launch}
use ssh_tunnel_manager.Startup.Guarded.{launch-app_run, launch-protected}
use ssh_tunnel_manager.Tests.Home.{
  home, config, filled, saving, no_clicks, app_with, killed_once, home_json, home_files,
}
use ssh_tunnel_manager.Tests.Stored.{crypto, env, files, config_path}
use ssh_tunnel_manager.Ui.{
  call_connect, set_test_result, App, empty_ui, killing, connects_to, by_change, by_check,
}
use ssh_tunnel_manager.Ui.Effects.{no_action}
use ssh_tunnel_manager.Ui.Exclusive.{Fits}
use ssh_tunnel_manager.Ui.Handlers.{
  dialog_events, handle_kill_process, handle_change_port, new_port, drain_ui_cmds,
}
use ssh_tunnel_manager.Ui.Jobs.{killed, app_run, run_job, take_job}
use ssh_tunnel_manager.Ui.Release.{kill_fails, run_job-frees}
use ssh_tunnel_manager.Ui.Rollback.{IsRolledBack, save_settings-IsRolledBack, applied}
use ssh_tunnel_manager.Ui.Settings.{apply_settings, save_settings, save_app, form_error}
use ssh_tunnel_manager.Ui.Valid.{Saved, save_settings-Saved}

launch-app_run_example :
    Fits
      (loaded_app home_json crypto env true config_path home_files).config.read_only
      0
      (app_run (launch home_json crypto env true config_path home_files) killed_once)
launch-app_run_example =
    launch-app_run home_json crypto env true config_path home_files killed_once
      (refl, (refl, (refl, (refl, (refl, tt)))))

abbrev broken_json : Json
broken_json = record { encode = λ s. text "{}"; decode = λ t. none }

not_missing : decode_failed ≢ not_exist
not_missing e = ground (arith, e)

load_fails :
    load broken_json crypto env true
      (new_config_manager config_path)
      ((config_path, text "{") ∷ files)
    ≡ (new_config_manager config_path, (config_path, text "{") ∷ files, some decode_failed)
unfolding load load_config lookup equal new_config_manager
load_fails = refl

launch-protected_example :
    let app =
      app_run
        (launch broken_json crypto env true config_path ((config_path, text "{") ∷ files))
        killed_once in
    save_app saving app ≡ (app, some protected)
launch-protected_example =
    launch-protected broken_json crypto env true config_path ((config_path, text "{") ∷ files)
      (new_config_manager config_path) ((config_path, text "{") ∷ files) decode_failed killed_once
      saving load_fails not_missing (refl, (refl, (refl, (refl, (refl, tt)))))

abbrev at_kill : App
at_kill = record (app_with false) {
  ui = record empty_ui { conflict_busy = true; connect_busy = true };
  jobs = killing home ∷ [];
}

at_kill-Fits : Fits false 0 at_kill
unfolding get_dns_resolver
at_kill-Fits = record {
  sound = record {
    tunnels_inv = start-WorldInv;
    resolver_synced = refl;
    rows_ok = record { shown = no_action refl refl; queued = tt };
  };
  protection = refl;
  exclusive = omega arith;
}

at_kill-taken : take_job 0 at_kill.jobs ≡ some (killing home, [])
unfolding take_job
at_kill-taken = refl

run_job-frees_example :
    (drain_ui_cmds (run_job 0 (killed (some (text "denied"))) at_kill)).ui.conflict_busy ≡ false
run_job-frees_example =
    run_job-frees at_kill 0 (killing home) [] (killed (some (text "denied"))) at_kill-Fits
      at_kill-taken (kill_fails home (text "denied"))

save_settings-Saved_example : Saved (config false) (save_settings saving (app_with false)).config
save_settings-Saved_example = save_settings-Saved saving (app_with false)

form_passes : form_error filled ≡ none
unfolding form_error equal trim_space atoi
form_passes = refl

save_refused : (save_app saving (applied saving (app_with true))).1 ≡ some protected
unfolding save_app save apply_settings set_forward set_api_key set_ddns_check_interval
    set_dns_resolver
save_refused = refl

save_settings-IsRolledBack_example :
    IsRolledBack (app_with true) (save_settings saving (app_with true))
save_settings-IsRolledBack_example =
    save_settings-IsRolledBack saving (app_with true) protected form_passes save_refused

abbrev pub dialog_shown : App
dialog_shown = record (app_with false) {
  ui = record empty_ui {
    show_port_conflict_dialog = true;
    show_new_port_entry = true;
    form = record filled { new_port_entry = text "8082" };
    connect_busy = true;
  };
  jobs = connects_to by_check home ∷ [];
}

-- The button of the dialog looks at `conflictBusy` only, so its handler begins while a connect is in
-- flight.
kill_during_connect :
    (dialog_events (record no_clicks { kill_process_btn = true }) dialog_shown).jobs
    ≡ killing home ∷ connects_to by_check home ∷ []
unfolding dialog_events handle_kill_process get_forward
kill_during_connect = refl

-- Both buttons of the dialog in one frame start both handlers.
both_buttons :
    (dialog_events
      (record no_clicks { kill_process_btn = true; change_port_btn = true })
      dialog_shown).jobs
    ≡ connects_to by_change (record home { local_port = ℤ.pos 8082 })
      ∷ killing home
      ∷ connects_to by_check home
      ∷ []
unfolding dialog_events handle_kill_process handle_change_port new_port atoi trim_space get_forward
    set_forward save_app save encrypt_forward encrypt_settings save_config save_ops equal
    call_connect
both_buttons = refl

-- A port that cannot be saved stays in memory.
abbrev unsaved : App
unsaved = handle_change_port saving (record dialog_shown { config = config true })

unsaved_port : get_forward unsaved.config ≡ some (record home { local_port = ℤ.pos 8082 })
unfolding handle_change_port new_port atoi trim_space get_forward set_forward save_app save
    set_test_result
unsaved_port = refl
