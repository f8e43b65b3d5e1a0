-- ===== src/Ui/Handlers.antt =====
-- ui.go: the handlers on the UI thread, and the events of a frame.
use ssh_tunnel_manager.Common.{
  equal, ℕ, Bool, true, false, not, ◌&&◌, ◌||◌, List, [], ◌∷◌, ◌++◌, Option, none, some, Text, text,
  ℤ, int_text, if◌then◌else◌, ◌==◌,
}
use ssh_tunnel_manager.Common.Atoi.{atoi}
use ssh_tunnel_manager.Common.Strings.{trim_space}
use ssh_tunnel_manager.Config.{ForwardConfig}
use ssh_tunnel_manager.Config.Store.{StoreError, get_forward, set_forward}
use ssh_tunnel_manager.Manager.{Status, running, connecting, get_status, is_running}
use ssh_tunnel_manager.Theme.{Nrgba, color_green, color_yellow, color_gray}
use ssh_tunnel_manager.Ui.{
  status_text, ZoneAction, UiCmd, release_connect, release_conflict, show_conflict, show_message,
  kill_failed, process_killed, zone_row, zone_done, Ui, by_check, by_change, checking, killing,
  test_start, zone_acting, Form, App, with_ui, spawn, set_test_result, disconnect_forward,
  call_connect, close_dialog, release_both, take_both, show_conflict_dialog_internal,
  dismiss_conflict_dialog, refresh_zone_forward_status_async, current_forward_id,
}
use ssh_tunnel_manager.Ui.Settings.{Saving, save_app, is_port, reload_form, save_settings}

abbrev pub say : Text → Bool → App → App
say msg ok app = with_ui (set_test_result msg ok app.ui) app

-- Any status but "not_found" is cleaned up before a new attempt.
abbrev pub clean_up : Option Status → Text → App → App
clean_up none id app = app
clean_up (some status) id app = disconnect_forward id app

abbrev pub is_up : Option Status → Bool
is_up none = false
is_up (some status) = is_running status

-- `checkPortAndConnect` up to its goroutine.
unfoldable pub check_port_and_connect : ForwardConfig → App → App
check_port_and_connect fwd app =
    if app.ui.connect_busy || app.ui.conflict_busy
    then app
    else (let status = get_status app.tunnels.manager fwd.id in
        if is_up status
        then disconnect_forward fwd.id app
        else (let told = say (text "连接中...") true (clean_up status fwd.id app) in
            spawn (checking by_check fwd)
              (with_ui (record (told.ui) { connect_busy = true }) told)))

unfoldable pub toggle_connection : App → App
toggle_connection app = elim (get_forward app.config) [
  | none ↦ say (text "✗ 未配置转发规则，请先在设置中添加") false app
  | some fwd ↦ check_port_and_connect fwd app
]

abbrev pub give_back : App → App
give_back app = with_ui (release_both app.ui) app

abbrev pub close_and_give_back : App → App
close_and_give_back app = with_ui (release_both (close_dialog app.ui)) app

-- `handleKillProcess` up to its goroutine.
unfoldable pub handle_kill_process : App → App
handle_kill_process app = elim (get_forward app.config) [
  | none ↦ close_and_give_back app
  | some fwd ↦ spawn (killing fwd) app
]

-- The new port, `none` for an error of `Atoi` and for a number that is no port.
unfoldable pub new_port : Text → Option ℤ
new_port t = let (port, ok) = atoi (trim_space t) in if ok && is_port port then some port else none

abbrev pub finish_change : Saving → ForwardConfig → App × Option StoreError → App
finish_change s fwd (app, some e) =
    close_and_give_back (say (text "保存配置失败: " ++ s.wording e) false app)
finish_change s fwd (app, none) =
    let told = say (text "端口已更改为 " ++ (int_text fwd.local_port ++ text "，正在连接...")) true app in
    call_connect by_change fwd (reload_form (with_ui (close_dialog told.ui) told))

-- `handleChangePort` up to its goroutine.
unfoldable pub handle_change_port : Saving → App → App
handle_change_port s app = elim (get_forward app.config) [
  | none ↦ close_and_give_back app
  | some fwd ↦ elim (new_port app.ui.form.new_port_entry) [
    | none ↦ give_back (say (text "无效的端口号") false app)
    | some port ↦
        let moved = record fwd { local_port = port } in
        finish_change s moved (save_app s (record app { config = set_forward moved app.config }))
  ]
]

abbrev pub start_action : Option ZoneAction → App → App
start_action none app = app
start_action (some action) app =
    spawn (zone_acting action) (with_ui (record (app.ui) { zone_busy = true }) app)

-- `startZoneForwardAction` up to its goroutine.
unfoldable pub start_zone_forward_action : App → App
start_zone_forward_action app =
    if app.ui.zone_busy then app else start_action app.ui.zone_pending app

abbrev pub show_row : ℕ → Text → Text → Option ZoneAction → Ui → Ui
show_row gen status action pending ui =
    if ui.zone_refresh_gen == gen
    then record ui {
      zone_supported = true;
      zone_status_text = status;
      zone_action_label = action;
      zone_pending = pending;
    }
    else ui

abbrev pub action_message : Option Text → App → App
action_message none app = say (text "✓ 域名解析优化设置已更新") true app
action_message (some e) app = say (text "✗ 域名解析优化：" ++ e) false app

-- One closure of the queue, on the UI thread.
unfoldable pub run_cmd : UiCmd → App → App
run_cmd release_connect app = with_ui (record (app.ui) { connect_busy = false }) app
run_cmd release_conflict app = give_back app
run_cmd (show_conflict port process) app =
    with_ui (show_conflict_dialog_internal port process false app.ui) app
run_cmd (show_message msg ok) app = say msg ok app
run_cmd (kill_failed e) app = give_back (say (text "结束进程失败: " ++ e) false app)
run_cmd process_killed app =
    let told = say (text "进程已结束，正在连接...") true app in with_ui (close_dialog told.ui) told
run_cmd (zone_row gen status action pending) app =
    with_ui (show_row gen status action pending app.ui) app
run_cmd (zone_done failure) app =
    refresh_zone_forward_status_async
      (action_message failure (with_ui (record (app.ui) { zone_busy = false }) app))

unfoldable pub run_cmds : List UiCmd → App → App
run_cmds [] app = app
run_cmds (f ∷ fs) app = run_cmds fs (run_cmd f app)

unfoldable pub drain_ui_cmds : App → App
drain_ui_cmds app = run_cmds app.ui.ui_cmd_q (with_ui (record (app.ui) { ui_cmd_q = [] }) app)

-- What the user has done since the last frame: the clicks on the buttons, and what the editors and
-- switches have become. `saving` and `changing` answer the saves of the two handlers.
pub record Frame : Type 0 where
  pub max_btn : Bool
  pub typed : Form → Form
  pub settings_toggle : Bool
  pub toggle_btn : Bool
  pub test_btn : Bool
  pub save_btn : Bool
  pub zone_btn : Bool
  pub kill_process_btn : Bool
  pub change_port_btn : Bool
  pub overlay_btn : Bool
  pub saving : Saving
  pub changing : Saving

abbrev pub when_clicked : Bool → (App → App) → App → App
when_clicked clicked handle app = if clicked then handle app else app

abbrev pub press_kill : App → App
press_kill app = handle_kill_process (with_ui (take_both app.ui) app)

abbrev pub dismiss : App → App
dismiss app = with_ui (dismiss_conflict_dialog app.ui) app

-- 更换端口: the first press reveals the editor and ends the frame's events.
abbrev pub press_change_port : Frame → App → App
press_change_port frame app =
    if frame.change_port_btn
    then (if app.ui.show_new_port_entry
        then when_clicked frame.overlay_btn dismiss
            (handle_change_port frame.changing (with_ui (take_both app.ui) app))
        else with_ui (record (app.ui) { show_new_port_entry = true }) app)
    else when_clicked frame.overlay_btn dismiss app

unfoldable pub dialog_events : Frame → App → App
dialog_events frame app =
    if app.ui.show_port_conflict_dialog && not app.ui.conflict_busy
    then press_change_port frame (when_clicked frame.kill_process_btn press_kill app)
    else app

-- The buttons of the main page; `testing` is read before them.
unfoldable pub page_events : Frame → Bool → App → App
page_events frame testing app =
    let toggled = when_clicked frame.toggle_btn toggle_connection app in
    let tested = when_clicked (frame.test_btn && not testing) (spawn test_start) toggled in
    let saved = when_clicked frame.save_btn (save_settings frame.saving) tested in
    when_clicked frame.zone_btn start_zone_forward_action saved

abbrev pub edited : Frame → Ui → Ui
edited frame ui = record ui {
  maximized = if frame.max_btn then not ui.maximized else ui.maximized;
  form = frame.typed ui.form;
  settings_expanded =
      if frame.settings_toggle then not ui.settings_expanded else ui.settings_expanded;
}

unfoldable pub handle_events : Frame → App → App
handle_events frame app =
    let drained = drain_ui_cmds app in
    dialog_events frame
      (page_events frame drained.ui.testing (with_ui (edited frame drained.ui) drained))

abbrev pub hero_text : Option Status → Text
hero_text (some running) = text "已连接"
hero_text (some connecting) = text "连接中..."
hero_text _ = text "未连接"

abbrev pub hero_color : Option Status → Nrgba
hero_color (some running) = color_green
hero_color (some connecting) = color_yellow
hero_color _ = color_gray

abbrev pub changed_status : Option Status → Ui → Ui
changed_status status ui = record (if is_up status then set_test_result [] true ui else ui) {
  last_shown_status = status_text status;
}

-- `updateHeroStatus` of page_main.go.
unfoldable pub update_hero_status : App → App
update_hero_status app =
    let status = get_status app.tunnels.manager (current_forward_id app.config) in
    let ui =
      if equal (status_text status) app.ui.last_shown_status
      then app.ui
      else changed_status status app.ui in
    with_ui (record ui { hero_status_text = hero_text status; hero_dot_color = hero_color status })
      app
