-- ===== src/Tests/Pages.antt =====
-- The pages, the tray and the whole program at concrete inputs.
use ssh_tunnel_manager.Common.{refl, true, false, none, some, [], ◌∷◌, ◌≡◌, text, List}
use ssh_tunnel_manager.Common.Strings.{equal, contains, to_lower, trim_suffix}
use ssh_tunnel_manager.Common.Maps.{lookup, insert}
use ssh_tunnel_manager.Config.Save.{load_config}
use ssh_tunnel_manager.Config.Store.{
  get_forward, load, is_read_only, new_config_manager, get_ddns_check_interval, decrypt_settings,
  decrypt_forward,
}
use ssh_tunnel_manager.BaiduDns.{derive_zone_and_sub}
use ssh_tunnel_manager.ZoneForward.{expected_zone_forward_content, zone_forward_status}
use ssh_tunnel_manager.Desktop.{
  Desktop, DeskEvent, opened, polls, clicks_show, clicks_toggle, clicks_quit, app_event,
  shell_event, disconnects, desk_run, desk_step, live_step, tray_status,
}
use ssh_tunnel_manager.Desktop.Leaves.{exit-quiet}
use ssh_tunnel_manager.Desktop.Quit.{clicks_quit-exits, teardown}
use ssh_tunnel_manager.Desktop.Shown.{Agrees, poll-Agrees}
use ssh_tunnel_manager.Manager.{get_status, connecting, new_ssh_manager, start_conn, publish_conn}
use ssh_tunnel_manager.Manager.Tasks.{
  go, network, dialed, started, prepare, advance, with_conn, with_tracked,
}
use ssh_tunnel_manager.Manager.World.{runs, start, step}
use ssh_tunnel_manager.Manager.Sections.{disconnect_all}
use ssh_tunnel_manager.Resolve.{resolve_connect_target}
use ssh_tunnel_manager.Tests.Tunnels.{net}
use ssh_tunnel_manager.Page.{Hover, toggle_btn, zone_btn}
use ssh_tunnel_manager.Page.Bounded.{Fitting, layout-Fitting}
use ssh_tunnel_manager.Page.Captions.{Toggled, caption_of, render_action_row-Toggled}
use ssh_tunnel_manager.Page.Controls.{layer_controls, has_zone_btn}
use ssh_tunnel_manager.Page.Distinct.{once, once-layout}
use ssh_tunnel_manager.Page.Main.{render_action_row}
use ssh_tunnel_manager.Page.Settings.{zone_forward_row}
use ssh_tunnel_manager.Page.Window.{layout}
use ssh_tunnel_manager.Page.ZoneRow.{ZoneClicked, launch-ZoneClicked}
use ssh_tunnel_manager.Shell.{
  shell_step, initial_shell, loops, closes, receives_quit, tears_down, exited, disconnecting,
}
use ssh_tunnel_manager.Startup.{launch, first_window, loaded_app, apply_config_settings, new_ui}
use ssh_tunnel_manager.Tests.Desktop.{dialog_shown}
use ssh_tunnel_manager.Tests.Home.{home, no_clicks, app_with, home_json, home_files}
use ssh_tunnel_manager.Tests.Network.{running_api}
use ssh_tunnel_manager.Tests.Stored.{crypto, env, config_path}
use ssh_tunnel_manager.Tests.Windows.{staging, polkit}
use ssh_tunnel_manager.Tray.{poll}
use ssh_tunnel_manager.Ui.{
  App, refresh_zone_forward_status_async, queue_ui_func, checking, by_restart, call_connect,
}
use ssh_tunnel_manager.Ui.Handlers.{
  toggle_connection, start_zone_forward_action, update_hero_status, handle_events, dialog_events,
  page_events, drain_ui_cmds, run_cmds, run_cmd,
}
use ssh_tunnel_manager.Ui.Jobs.{
  AppEvent, app_run, app_step, run_job, take_job, advance_job, draws, goes_on, looked_up, checked,
  tunnels_step, port_checked, manager_step, deliver,
}
use ssh_tunnel_manager.Ui.Zone.{Lookups, refresh_zone, zone_status}

abbrev nowhere : Hover
nowhere btn = false

layout-Fitting_example : Fitting (layout nowhere (text "1.0") dialog_shown)
layout-Fitting_example = layout-Fitting nowhere (text "1.0") dialog_shown

once-layout_example : once (layer_controls (layout nowhere (text "1.0") dialog_shown)) ≡ true
once-layout_example = once-layout nowhere (text "1.0") dialog_shown

home_there : get_forward (app_with false).config ≡ some home
unfolding get_forward
home_there = refl

render_action_row-Toggled_example :
    Toggled home
      (app_with false)
      (caption_of toggle_btn (render_action_row nowhere (app_with false)))
      (toggle_connection (app_with false))
render_action_row-Toggled_example =
    render_action_row-Toggled nowhere home (app_with false) home_there refl

-- The lookups of a host whose zone is not set up yet.
abbrev lookups : Lookups
lookups = record {
  api = record running_api { effective_tld_plus_one = λ name. some (text "example.com") };
  dns = record {
    lookup_ns = λ zone. some (text "ns1.example.com" ∷ []);
    lookup_host = λ host. some (text "203.0.113.53" ∷ []);
  };
  supported = true;
  drop_in = none;
  staging = staging;
  polkit = polkit;
  wording = λ e. text "error";
}

abbrev row_found : List AppEvent
row_found = goes_on 1 (looked_up lookups) ∷ draws no_clicks ∷ []

abbrev with_row : App
with_row = app_run (launch home_json crypto env true config_path home_files) row_found

row_has_button : has_zone_btn with_row.ui ≡ true
unfolding launch app_run app_step update_hero_status equal get_status lookup handle_events
    dialog_events page_events drain_ui_cmds run_cmds run_cmd run_job take_job first_window
    refresh_zone_forward_status_async advance_job refresh_zone queue_ui_func zone_status contains
    derive_zone_and_sub expected_zone_forward_content zone_forward_status loaded_app load
    load_config get_forward apply_config_settings new_ui is_read_only new_config_manager step
    get_ddns_check_interval decrypt_settings start decrypt_forward to_lower trim_suffix
row_has_button = refl

launch-ZoneClicked_example :
    ZoneClicked with_row
      (caption_of zone_btn (zone_forward_row nowhere with_row.ui))
      (start_zone_forward_action with_row)
launch-ZoneClicked_example =
    launch-ZoneClicked home_json crypto env true config_path home_files row_found nowhere with_row
      (refl, (refl, tt)) refl row_has_button

abbrev tray_clicked : List DeskEvent
tray_clicked = polls ∷ clicks_toggle ∷ app_event (draws no_clicks) ∷ []

poll-Agrees_example :
    let d = desk_run (opened (app_with false)) tray_clicked in
    Agrees d.app (poll (tray_status d.app) d.tray)
poll-Agrees_example = poll-Agrees (app_with false) tray_clicked

abbrev window_closed : List DeskEvent
window_closed = shell_event loops ∷ shell_event closes ∷ clicks_show ∷ []

clicks_quit-exits_example :
    (desk_run
      (desk_run (desk_step (opened (app_with false)) clicks_quit) window_closed)
      teardown).shell.shutdown
    ≡ exited
clicks_quit-exits_example = clicks_quit-exits (opened (app_with false)) window_closed refl

abbrev quit_clicked : List DeskEvent
quit_clicked = clicks_quit ∷ shell_event receives_quit ∷ []

abbrev quitting : Desktop
quitting = desk_run (opened (launch home_json crypto env true config_path home_files)) quit_clicked

quit_begun : quitting.shell.shutdown ≡ disconnecting
unfolding desk_run desk_step live_step initial_shell shell_step
quit_begun = refl

exit-quiet_example :
    let end = desk_run quitting (disconnects ∷ shell_event tears_down ∷ []) in
    (end.shell.shutdown ≡ exited) × (get_status end.app.tunnels.manager (text "fwd_1") ≡ none)
exit-quiet_example =
    exit-quiet home_json crypto env true config_path home_files quit_clicked quitting (text "fwd_1")
      (refl, (refl, tt)) refl quit_begun

-- A save has restarted the tunnel, and 退出 is clicked while its goroutine waits for the port. It goes on
-- between `DisconnectAll` and the exit: a process of ssh is left.
abbrev restarting : App
restarting = record (app_with false) { jobs = checking by_restart home ∷ [] }

abbrev quit_in_restart : List DeskEvent
quit_in_restart =
    clicks_quit
    ∷ shell_event receives_quit
    ∷ disconnects
    ∷ app_event (goes_on 0 (checked false []))
    ∷ app_event (tunnels_step (runs 0 go))
    ∷ app_event (tunnels_step (runs 0 (network net)))
    ∷ app_event (tunnels_step (runs 0 (dialed true)))
    ∷ app_event (tunnels_step (runs 0 (started true true (text "/known_hosts"))))
    ∷ app_event (tunnels_step (runs 0 go))
    ∷ shell_event tears_down
    ∷ []

abbrev left_behind : Desktop
left_behind = desk_run (opened restarting) quit_in_restart

tunnel_left_behind :
    (left_behind.shell.shutdown ≡ exited)
    × (get_status left_behind.app.tunnels.manager (text "fwd_1") ≡ some connecting)
unfolding desk_run desk_step live_step initial_shell shell_step app_step run_job take_job
    advance_job port_checked call_connect manager_step deliver get_status lookup insert
    new_ssh_manager start_conn publish_conn prepare start advance with_conn with_tracked
    resolve_connect_target equal step disconnect_all
tunnel_left_behind = (refl, refl)
