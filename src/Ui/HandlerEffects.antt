-- ===== src/Ui/HandlerEffects.antt =====
-- ui.go: what the handlers of the main page keep, which do not belong to the conflict dialog.
use ssh_tunnel_manager.Common.{
  not, ◌&&◌, refl, false, equal, inr, none, true, inl, some, ◌||◌, ◌≡◌, Bool-cases, Option-cases,
  arith, Text, Bool, Option,
}
use ssh_tunnel_manager.Config.{ForwardConfig}
use ssh_tunnel_manager.Config.Store.{
  set_dns_resolver, set_ddns_check_interval, set_api_key, set_forward, restore_app_state,
  get_dns_resolver, get_forward, StoreError,
}
use ssh_tunnel_manager.Manager.{is_tracked}
use ssh_tunnel_manager.Manager.Reachable.{step-WorldInv}
use ssh_tunnel_manager.Ui.{
  by_check, checking, spawn, restart_start, status_text, test_start, zone_acting,
  current_forward_id, get_status, Ui, App, ConfigManager, Status, ZoneAction, set_test_result,
  refresh_zone_forward_status_async,
}
use ssh_tunnel_manager.Ui.Effects.{
  same_rows, Effect-seq, Effect-if, Effect-refl, Effect-spawn, Effect-ui, Effect,
}
use ssh_tunnel_manager.Ui.Handlers.{
  is_up, changed_status, start_action, when_clicked, Frame, check_port_and_connect, page_events,
  start_zone_forward_action, toggle_connection, update_hero_status,
}
use ssh_tunnel_manager.Ui.JobEffects.{
  clean_up-Effect, disconnect_forward-Effect, say-Effect, files-Effect,
}
use ssh_tunnel_manager.Ui.Settings.{
  form_error, finish_save, restart_tracked, Saving, after_save, apply_settings, restart_with_config,
  roll_back, save_app, save_settings,
}

check_port_and_connect-Effect :
    (fwd : ForwardConfig) (app : App) → Effect 0 app (check_port_and_connect fwd app)
unfolding check_port_and_connect
check_port_and_connect-Effect fwd app =
    Effect-if (app.ui.connect_busy || app.ui.conflict_busy) (Effect-refl app) (
      Effect-if (is_up (get_status app.tunnels.manager fwd.id))
        (disconnect_forward-Effect fwd.id app)
        (Effect-seq (clean_up-Effect _ fwd.id app) (
          Effect-seq (say-Effect _ true _) (
            Effect-seq (Effect-ui _ _ refl refl (same_rows refl refl refl))
              (Effect-spawn (checking by_check fwd) _)))))

toggle_connection-Effect : (app : App) → Effect 0 app (toggle_connection app)
unfolding toggle_connection
toggle_connection-Effect app = elim (Option-cases (get_forward app.config)) [
  | inl n ↦ rw (n, toggle_connection) (say-Effect _ false app)
  | inr (fwd, e) ↦ rw (e, toggle_connection) (check_port_and_connect-Effect fwd app)
]

pub refresh-Effect : (app : App) → Effect 0 app (refresh_zone_forward_status_async app)
unfolding refresh_zone_forward_status_async
refresh-Effect app =
    Effect-seq (Effect-ui _ app refl refl (same_rows refl refl refl)) (Effect-spawn _ _)

restart_with_config-Effect :
    (fwd : ForwardConfig) (app : App) → Effect 0 app (restart_with_config fwd app)
unfolding restart_with_config
restart_with_config-Effect fwd app = Effect-if app.ui.connect_busy (Effect-refl app) (
    Effect-seq (Effect-ui _ app refl refl (same_rows refl refl refl))
      (Effect-spawn (restart_start fwd) _))

restart_tracked-Effect : (fwd : ForwardConfig) (app : App) → Effect 0 app (restart_tracked fwd app)
restart_tracked-Effect fwd app =
    Effect-if (is_tracked app.tunnels.manager fwd.id)
      (Effect-seq (say-Effect _ true app) (restart_with_config-Effect fwd _))
      (say-Effect _ true app)

after_save-Effect : (fwd : ForwardConfig) (app : App) → Effect 0 app (after_save fwd app)
unfolding after_save
after_save-Effect fwd app =
    Effect-seq (Effect-ui _ app refl refl (same_rows refl refl refl))
      (Effect-seq (restart_tracked-Effect fwd _) (refresh-Effect _))

apply_settings-Effect : (fwd : ForwardConfig) (app : App) → Effect 0 app (apply_settings fwd app)
unfolding apply_settings set_dns_resolver set_ddns_check_interval set_api_key set_forward
apply_settings-Effect fwd app = record {
  busy_kept = refl;
  held = omega arith;
  sound_kept = λ s. record {
    tunnels_inv = step-WorldInv app.tunnels _ s.tunnels_inv;
    resolver_synced = unfold get_dns_resolver in unfold set_dns_resolver in refl;
    rows_ok = s.rows_ok;
  };
  protection_kept = refl;
}

roll_back-Effect :
    (before : ConfigManager) (reason : Text) (app : App)
    → Effect 0 app (roll_back before reason app)
unfolding roll_back set_test_result restore_app_state
roll_back-Effect before reason app = record {
  busy_kept = refl;
  held = omega arith;
  sound_kept = λ s. record {
    tunnels_inv = step-WorldInv app.tunnels _ s.tunnels_inv;
    resolver_synced = unfold get_dns_resolver in unfold restore_app_state in refl;
    rows_ok = same_rows refl refl refl s.rows_ok;
  };
  protection_kept = refl;
}

pub save_app-Effect : (s : Saving) (app : App) → Effect 0 app (save_app s app).0
unfolding save_app
save_app-Effect s app = files-Effect _ app

finish_save-Effect :
    (s : Saving) (before : ConfigManager) (fwd : ForwardConfig) (r : App × Option StoreError)
    → Effect 0 r.0 (finish_save s before fwd r)
finish_save-Effect s before fwd (app, none) = after_save-Effect fwd app
finish_save-Effect s before fwd (app, some e) = roll_back-Effect before _ app

save_settings-Effect : (s : Saving) (app : App) → Effect 0 app (save_settings s app)
unfolding save_settings
save_settings-Effect s app = elim (Option-cases (form_error app.ui.form)) [
  | inr (msg, e) ↦ rw (e, save_settings) (say-Effect msg false app)
  | inl n ↦
      rw (n, save_settings)
        (Effect-seq (apply_settings-Effect _ app)
          (Effect-seq (save_app-Effect s _) (finish_save-Effect s _ _ _)))
]

start_action-Effect : (o : Option ZoneAction) (app : App) → Effect 0 app (start_action o app)
start_action-Effect none app = Effect-refl app
start_action-Effect (some action) app =
    Effect-seq (Effect-ui _ app refl refl (same_rows refl refl refl))
      (Effect-spawn (zone_acting action) _)

start_zone_forward_action-Effect : (app : App) → Effect 0 app (start_zone_forward_action app)
unfolding start_zone_forward_action
start_zone_forward_action-Effect app =
    Effect-if app.ui.zone_busy (Effect-refl app) (start_action-Effect _ app)

when_clicked-Effect :
    (clicked : Bool) (handle : App → App) (app : App)
    → ((a : App) → Effect 0 a (handle a))
    → Effect 0 app (when_clicked clicked handle app)
when_clicked-Effect true handle app h = h app
when_clicked-Effect false handle app h = Effect-refl app

pub page_events-Effect :
    (frame : Frame) (testing : Bool) (app : App) → Effect 0 app (page_events frame testing app)
unfolding page_events
page_events-Effect frame testing app =
    Effect-seq (when_clicked-Effect frame.toggle_btn toggle_connection app toggle_connection-Effect)
      (Effect-seq
        (when_clicked-Effect (frame.test_btn && not testing) (spawn test_start) _
          (Effect-spawn test_start))
        (Effect-seq
          (when_clicked-Effect frame.save_btn (save_settings frame.saving) _
            (save_settings-Effect frame.saving))
          (when_clicked-Effect frame.zone_btn start_zone_forward_action _
            start_zone_forward_action-Effect)))

changed_status-busy :
    (status : Option Status) (ui : Ui)
    → ((changed_status status ui).conflict_busy ≡ ui.conflict_busy)
      × ((changed_status status ui).ui_cmd_q ≡ ui.ui_cmd_q)
      × ((changed_status status ui).zone_action_label ≡ ui.zone_action_label)
      × ((changed_status status ui).zone_pending ≡ ui.zone_pending)
changed_status-busy status ui = elim (Bool-cases (is_up status)) [
  | inl e ↦ rw e (unfold set_test_result in (refl, refl, refl, refl))
  | inr e ↦ rw e (refl, refl, refl, refl)
]

pub update_hero_status-Effect : (app : App) → Effect 0 app (update_hero_status app)
unfolding update_hero_status
update_hero_status-Effect app =
    let status = get_status app.tunnels.manager (current_forward_id app.config) in
    elim (Bool-cases (equal (status_text status) app.ui.last_shown_status)) [
      | inl e ↦ rw e (Effect-ui _ app refl refl (same_rows refl refl refl))
      | inr e ↦
          let (busy, q, l, p) = changed_status-busy status app.ui in
          rw e (Effect-ui _ app busy q (same_rows l p q))
    ]
