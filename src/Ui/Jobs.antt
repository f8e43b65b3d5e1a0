-- ===== src/Ui/Jobs.antt =====
-- ui.go and main.go: the goroutines that handlers start, and the app under a schedule. A call of
-- `Connect` is a task of the manager's own schedule; the goroutine that calls it goes on when the task
-- is done.
use ssh_tunnel_manager.Common.{
  drop, ℕ, zero, suc, Bool, true, false, ◌&&◌, List, [], ◌∷◌, ◌++◌, Option, none, some, Text, text,
  equal, ltb, if◌then◌else◌, length,
}
use ssh_tunnel_manager.Config.{ForwardConfig}
use ssh_tunnel_manager.Config.Store.{get_forward, get_api_key}
use ssh_tunnel_manager.Manager.{
  terminal_failure, status_changed, Callback, Status, ConnectError, get_status, connecting,
}
use ssh_tunnel_manager.Manager.Tasks.{Task, connect_done}
use ssh_tunnel_manager.Manager.World.{disconnects_all, Event, step}
use ssh_tunnel_manager.TestApi.{test_request, response_message}
use ssh_tunnel_manager.Ui.{
  terminal_failure_text, current_forward_id, UiCmd, release_connect, release_conflict,
  show_conflict, show_message, kill_failed, process_killed, zone_done, Caller, by_check, by_kill,
  by_change, by_restart, by_auto, by_tray, Job, auto_start, tray_start, test_start, restart_start,
  checking, polling, killing, connects_to, refreshing, zone_acting, test_dialing, test_requesting,
  App, with_ui, spawn, queue_ui_func, disconnect_forward, call_connect,
}
use ssh_tunnel_manager.Ui.Handlers.{say, clean_up, is_up, Frame, handle_events, update_hero_status}
use ssh_tunnel_manager.Ui.Zone.{Lookups, refresh_zone, zone_forward_action}

-- What a goroutine waits for. `returned k` is the return of the call of `Connect` whose task is `k`;
-- errors come with their texts.
pub data JobAnswer : Type 0 where
  go : JobAnswer
  checked : Bool → Text → JobAnswer
  check_failed : JobAnswer
  killed : Option Text → JobAnswer
  returned : ℕ → (ConnectError → Text) → JobAnswer
  looked_up : Lookups → JobAnswer
  dialed : Option Text → JobAnswer
  not_built : Text → JobAnswer
  no_response : Text → JobAnswer
  responded : ℕ → Text → JobAnswer

abbrev pub queue : UiCmd → App → App
queue f app = with_ui (queue_ui_func f app.ui) app

abbrev connect_failed : Text → Text
connect_failed e = text "连接失败: " ++ e

-- After `Connect` without an error.
abbrev pub connect_ended : Caller → App → App
connect_ended by_check app = queue release_connect app
connect_ended by_restart app = queue release_connect app
connect_ended by_kill app = queue release_conflict app
connect_ended by_change app = queue release_conflict app
connect_ended by_auto app = app
connect_ended by_tray app = app

-- The report of an error of `Connect`.
abbrev pub report : Caller → Text → App → App
report by_check e app = say (connect_failed e) false app
report by_restart e app = say (text "✗ 重启隧道失败: " ++ e) false app
report _ e app = queue (show_message (connect_failed e) false) app

unfoldable pub connect_returned : Caller → Option Text → App → App
connect_returned by none app = connect_ended by app
connect_returned by (some e) app = connect_ended by (report by e app)

-- The callers that hold `connectBusy` until they return.
abbrev pub checked_in_use : Caller → ForwardConfig → Text → App → App
checked_in_use by fwd process app =
    connect_ended by (queue (show_conflict fwd.local_port process) app)

unfoldable pub port_checked : Caller → ForwardConfig → Bool → Text → App → App
port_checked by fwd in_use process app =
    if in_use then checked_in_use by fwd process app else call_connect by fwd app

-- An error of the port checker.
unfoldable pub port_check_failed : Caller → ForwardConfig → App → App
port_check_failed by_check fwd app = queue release_connect (say (text "端口检查失败") false app)
port_check_failed by_restart fwd app = call_connect by_restart fwd app
port_check_failed by fwd app = connect_ended by app

abbrev pub restart_polls : ℕ
restart_polls = 20

-- The loop of `restartWithConfig`: poll `i` has found the port in use or not.
unfoldable pub port_polled : ForwardConfig → ℕ → Bool → App → App
port_polled fwd i in_use app =
    if in_use && ltb (suc i) restart_polls
    then spawn (polling fwd (suc i)) app
    else spawn (checking by_restart fwd) app

-- `handleKillProcess` after the kill.
unfoldable pub process_kill_ended : ForwardConfig → Option Text → App → App
process_kill_ended fwd (some e) app = queue (kill_failed e) app
process_kill_ended fwd none app = call_connect by_kill fwd (queue process_killed app)

-- `autoConnect` up to the port check.
abbrev pub auto_connect : Option ForwardConfig → App → App
auto_connect none app = app
auto_connect (some fwd) app = spawn (checking by_auto fwd) app

abbrev pub tray_clean_up : ForwardConfig → Option Status → App → App
tray_clean_up fwd (some connecting) app = app
tray_clean_up fwd status app =
    if is_up status
    then disconnect_forward fwd.id app
    else spawn (checking by_tray fwd) (clean_up status fwd.id app)

-- The goroutine of `trayConnect` up to the port check.
abbrev pub tray_connect : Option ForwardConfig → App → App
tray_connect none app = app
tray_connect (some fwd) app = tray_clean_up fwd (get_status app.tunnels.manager fwd.id) app

abbrev pub test_connected : Option ForwardConfig → App → App
test_connected none app = say (text "未配置转发规则") false app
test_connected (some fwd) app =
    if is_up (get_status app.tunnels.manager fwd.id)
    then spawn (test_dialing fwd) app
    else say (text "✗ SSH隧道未连接，请先连接") false app

-- `testAPI` up to the dial.
unfoldable pub test_api : App → App
test_api app =
    test_connected (get_forward app.config) (
      with_ui (record (app.ui) { testing = true; test_result = text "测试中..."; test_ok = false })
        app)

abbrev pub queue_all : Option UiCmd → App → App
queue_all none app = app
queue_all (some f) app = queue f app

abbrev pub connect_error : (ConnectError → Text) → Option ConnectError → Option Text
connect_error wording none = none
connect_error wording (some e) = some (wording e)

abbrev pub done_of : Text → Task → Option (Option ConnectError)
done_of id (connect_done id' failure) = if equal id id' then some failure else none
done_of id t = none

-- The result of task `k`, if it is a finished `Connect` of the forward, and the other tasks.
unfoldable pub take_done : Text → ℕ → List Task → Option (Option ConnectError × List Task)
take_done id k [] = none
take_done id zero (t ∷ ts) = elim (done_of id t) [ none ↦ none | some r ↦ some (r, ts) ]
take_done id (suc k) (t ∷ ts) = elim (take_done id k ts) [
  | none ↦ none
  | some (r, us) ↦ some (r, t ∷ us)
]

abbrev pub with_tasks : List Task → App → App
with_tasks ts app = record app { tunnels = record (app.tunnels) { tasks = ts } }

-- One step of a goroutine that has been taken off the list. One whose answer is another than it waits
-- for goes on waiting.
unfoldable pub advance_job : Job → JobAnswer → App → App
advance_job auto_start go app = auto_connect (get_forward app.config) app
advance_job tray_start go app = tray_connect (get_forward app.config) app
advance_job test_start go app = test_api app
advance_job (restart_start fwd) go app = spawn (polling fwd 0) (disconnect_forward fwd.id app)
advance_job (checking by fwd) (checked in_use process) app = port_checked by fwd in_use process app
advance_job (checking by fwd) check_failed app = port_check_failed by fwd app
advance_job (polling fwd i) (checked in_use process) app = port_polled fwd i in_use app
advance_job (polling fwd i) check_failed app = spawn (checking by_restart fwd) app
advance_job (killing fwd) (killed failure) app = process_kill_ended fwd failure app
advance_job (connects_to by fwd) (returned k wording) app =
    elim (take_done fwd.id k app.tunnels.tasks) [
      | none ↦ spawn (connects_to by fwd) app
      | some (r, ts) ↦ connect_returned by (connect_error wording r) (with_tasks ts app)
    ]
advance_job (refreshing gen forward) (looked_up l) app = queue_all (refresh_zone l gen forward) app
advance_job (zone_acting action) (looked_up l) app =
    let (fs, failure) = zone_forward_action l action (get_forward app.config) app.files in
    queue (zone_done failure) (record app { files = fs })
advance_job (test_dialing fwd) (dialed none) app =
    spawn (test_requesting (test_request fwd (get_api_key app.config))) app
advance_job (test_dialing fwd) (dialed (some e)) app = say (text "✗ 端口不可达: " ++ e) false app
advance_job (test_requesting request) (not_built e) app = say (text "✗ 构建请求失败: " ++ e) false app
advance_job (test_requesting request) (no_response e) app = say (text "✗ 请求失败: " ++ e) false app
advance_job (test_requesting request) (responded code body) app =
    let (msg, ok) = response_message code body in say msg ok app
advance_job job answer app = spawn job app

-- Goroutine `k` taken off the list.
unfoldable pub take_job : ℕ → List Job → Option (Job × List Job)
take_job k [] = none
take_job zero (j ∷ js) = some (j, js)
take_job (suc k) (j ∷ js) = elim (take_job k js) [ none ↦ none | some (i, is) ↦ some (i, j ∷ is) ]

unfoldable pub run_job : ℕ → JobAnswer → App → App
run_job k answer app = elim (take_job k app.jobs) [
  | none ↦ app
  | some (job, rest) ↦ advance_job job answer (record app { jobs = rest })
]

pub data AppEvent : Type 0 where
  -- A frame of the window.
  draws : Frame → AppEvent
  -- Goroutine `k` goes on.
  goes_on : ℕ → JobAnswer → AppEvent
  -- The manager's own schedule.
  tunnels_step : Event → AppEvent
  -- A click on 连接 or 断开 in the tray.
  tray_toggle : AppEvent

-- The callback of `SetOnTerminalFailure` in main.go; the one of `SetOnStatusChange` only repaints.
abbrev pub failure_message : Option Text → App → App
failure_message none app = app
failure_message (some msg) app = queue (show_message msg false) app

abbrev pub called_back : Callback → App → App
called_back (status_changed id status) app = app
called_back (terminal_failure id status) app = failure_message (terminal_failure_text status) app

unfoldable pub deliver : List Callback → App → App
deliver [] app = app
deliver (c ∷ cs) app = deliver cs (called_back c app)

-- A step of the manager's schedule, with the callbacks that its dispatcher has made.
unfoldable pub manager_step : Event → App → App
manager_step e app =
    let tunnels = step app.tunnels e in
    deliver (drop (length app.tunnels.called) tunnels.called) (record app { tunnels = tunnels })

-- The toggle of the tray menu in tray.go, with the callbacks that main.go gives it.
unfoldable pub tray_toggled : App → App
tray_toggled app =
    if is_up (get_status app.tunnels.manager (current_forward_id app.config))
    then record app { tunnels = step app.tunnels disconnects_all }
    else spawn tray_start app

unfoldable pub app_step : App → AppEvent → App
app_step app (draws frame) = update_hero_status (handle_events frame app)
app_step app (goes_on k answer) = run_job k answer app
app_step app (tunnels_step e) = manager_step e app
app_step app tray_toggle = tray_toggled app

unfoldable pub app_run : App → List AppEvent → App
app_run app [] = app
app_run app (e ∷ es) = app_run (app_step app e) es
