-- ===== src/Desktop.antt =====
-- main.go: the whole program after its start: the app, the window loop with its channels, and the tray,
-- as steps in any order. A step of the app may come at any moment, also a frame of the window.
pub mod Shown
pub mod Quit
pub mod Leaves
pub mod Induction
pub mod Projection
pub mod Conflict
use ssh_tunnel_manager.Common.{Bool, true, false, List, [], ◌∷◌, Option, some, Text, if◌then◌else◌}
use ssh_tunnel_manager.Manager.{get_status}
use ssh_tunnel_manager.Manager.World.{step, disconnects_all}
use ssh_tunnel_manager.Shell.{
  Shell, ShellEvent, asks, consumes, loops, closes, quits, receives_quit, signals, tears_down,
  shell_step, initial_shell, Shutdown, not_begun, disconnecting, exited,
}
use ssh_tunnel_manager.Tray.{Tray, poll, initial_tray}
use ssh_tunnel_manager.Ui.{App, Job, checking, by_tray, status_text, current_forward_id}
use ssh_tunnel_manager.Ui.Jobs.{AppEvent, goes_on, checked, take_job, app_step, tray_toggle}

-- `tray_open`: the goroutine of the tray's menu has not returned. `torn`: `DisconnectAll` of `shutdown` has
-- returned, and `quitProcess` runs.
pub record Desktop : Type 0 where
  pub app : App
  pub shell : Shell
  pub tray : Tray
  pub tray_open : Bool
  pub torn : Bool

abbrev pub opened : App → Desktop
opened app = record {
  app = app;
  shell = initial_shell;
  tray = initial_tray;
  tray_open = true;
  torn = false;
}

pub data DeskEvent : Type 0 where
  -- The tray polls the status, and the clicks on its menu.
  polls : DeskEvent
  clicks_show clicks_toggle clicks_quit : DeskEvent
  app_event : AppEvent → DeskEvent
  shell_event : ShellEvent → DeskEvent
  -- `DisconnectAll` of `shutdown`.
  disconnects : DeskEvent

-- The callback `Status` of the tray.
unfoldable pub tray_status : App → Text
tray_status app = status_text (get_status app.tunnels.manager (current_forward_id app.config))

abbrev shell_does : ShellEvent → Desktop → Desktop
shell_does e d = record d { shell = shell_step d.shell e }

abbrev pub finds_conflict : Option (Job × List Job) → Bool
finds_conflict (some (checking by_tray fwd, rest)) = true
finds_conflict _ = false

-- The goroutine of `trayConnect` asks for the window when the port is in use.
abbrev pub asks_for_window : App → AppEvent → Bool
asks_for_window app (goes_on k (checked true process)) = finds_conflict (take_job k app.jobs)
asks_for_window app e = false

abbrev app_does : AppEvent → Desktop → Desktop
app_does e d = record d { app = app_step d.app e }

abbrev all_disconnected : Desktop → Desktop
all_disconnected d = record d {
  app = record (d.app) { tunnels = step d.app.tunnels disconnects_all };
  torn = true;
}

abbrev pub disconnects_in : Shutdown → Desktop → Desktop
disconnects_in disconnecting d = all_disconnected d
disconnects_in _ d = d

-- A step while the process lives. `systray.Quit` and the return of the menu's goroutine follow the click on
-- 退出.
unfoldable pub live_step : Desktop → DeskEvent → Desktop
live_step d polls = record d { tray = poll (tray_status d.app) d.tray }
live_step d clicks_show = if d.tray_open then shell_does asks d else d
live_step d clicks_toggle = if d.tray_open then record d { app = app_step d.app tray_toggle } else d
live_step d clicks_quit =
    if d.tray_open then record d { shell = shell_step d.shell quits; tray_open = false } else d
live_step d (app_event e) =
    if asks_for_window d.app e then shell_does asks (app_does e d) else app_does e d
live_step d (shell_event tears_down) = if d.torn then shell_does tears_down d else d
live_step d (shell_event asks) = shell_does asks d
live_step d (shell_event consumes) = shell_does consumes d
live_step d (shell_event loops) = shell_does loops d
live_step d (shell_event closes) = shell_does closes d
live_step d (shell_event quits) = shell_does quits d
live_step d (shell_event receives_quit) = shell_does receives_quit d
live_step d (shell_event signals) = shell_does signals d
live_step d disconnects = disconnects_in d.shell.shutdown d

abbrev pub step_in : Shutdown → Desktop → DeskEvent → Desktop
step_in exited d e = d
step_in _ d e = live_step d e

unfoldable pub desk_step : Desktop → DeskEvent → Desktop
desk_step d e = step_in d.shell.shutdown d e

unfoldable pub desk_run : Desktop → List DeskEvent → Desktop
desk_run d [] = d
desk_run d (e ∷ es) = desk_run (desk_step d e) es
