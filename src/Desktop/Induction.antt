-- ===== src/Desktop/Induction.antt =====
-- main.go: what the app and the tray keep in every step, they keep in every run of the program.
use ssh_tunnel_manager.Common.{Bool, true, false, All, List, [], ◌∷◌, if◌then◌else◌}
use ssh_tunnel_manager.Desktop.{
  Desktop, DeskEvent, polls, clicks_show, clicks_toggle, clicks_quit, app_event, shell_event,
  disconnects, tray_status, asks_for_window, live_step, disconnects_in, step_in, desk_step,
  desk_run,
}
use ssh_tunnel_manager.Manager.World.{step, disconnects_all}
use ssh_tunnel_manager.Shell.{
  asks, consumes, loops, closes, quits, receives_quit, signals, tears_down, Shutdown, not_begun,
  disconnecting, exited,
}
use ssh_tunnel_manager.Tray.{Tray, poll}
use ssh_tunnel_manager.Ui.{App}
use ssh_tunnel_manager.Ui.Jobs.{AppEvent, app_step, tray_toggle}

-- A predicate that the polls of the tray, the allowed steps of the app, a toggle in the tray and
-- `DisconnectAll` keep.
module _ (P : App → Tray → Type 0) (Allowed : DeskEvent → Type 0)
    (polled : (app : App) (tray : Tray) → P app tray → P app (poll (tray_status app) tray))
    (stepped : (e : AppEvent) (app : App) (tray : Tray)
      → Allowed (app_event e)
      → P app tray
      → P (app_step app e) tray)
    (toggled : (app : App) (tray : Tray) → P app tray → P (app_step app tray_toggle) tray)
    (ended : (app : App) (tray : Tray)
      → P app tray
      → P (record app { tunnels = step app.tunnels disconnects_all }) tray) where
  abbrev HoldsIn : Desktop → Type 0
  HoldsIn d = P d.app d.tray

  if-HoldsIn : (b : Bool) (d d' : Desktop) → HoldsIn d → HoldsIn d' → HoldsIn (if b then d' else d)
  if-HoldsIn true d d' p p' = p'
  if-HoldsIn false d d' p p' = p

  disconnects_in-HoldsIn : (s : Shutdown) (d : Desktop) → HoldsIn d → HoldsIn (disconnects_in s d)
  disconnects_in-HoldsIn not_begun d p = p
  disconnects_in-HoldsIn disconnecting d p = ended d.app d.tray p
  disconnects_in-HoldsIn exited d p = p

  live_step-HoldsIn :
      (d : Desktop) (e : DeskEvent) → Allowed e → HoldsIn d → HoldsIn (live_step d e)
  unfolding live_step
  live_step-HoldsIn d polls ok p = polled d.app d.tray p
  live_step-HoldsIn d clicks_show ok p = if-HoldsIn d.tray_open d _ p p
  live_step-HoldsIn d clicks_toggle ok p = if-HoldsIn d.tray_open d _ p (toggled d.app d.tray p)
  live_step-HoldsIn d clicks_quit ok p = if-HoldsIn d.tray_open d _ p p
  live_step-HoldsIn d (app_event e) ok p =
      let kept = stepped e d.app d.tray ok p in
      if-HoldsIn (asks_for_window d.app e) (record d { app = app_step d.app e }) _ kept kept
  live_step-HoldsIn d (shell_event tears_down) ok p = if-HoldsIn d.torn d _ p p
  live_step-HoldsIn d (shell_event asks) ok p = p
  live_step-HoldsIn d (shell_event consumes) ok p = p
  live_step-HoldsIn d (shell_event loops) ok p = p
  live_step-HoldsIn d (shell_event closes) ok p = p
  live_step-HoldsIn d (shell_event quits) ok p = p
  live_step-HoldsIn d (shell_event receives_quit) ok p = p
  live_step-HoldsIn d (shell_event signals) ok p = p
  live_step-HoldsIn d disconnects ok p = disconnects_in-HoldsIn d.shell.shutdown d p

  step_in-HoldsIn :
      (s : Shutdown) (d : Desktop) (e : DeskEvent) → Allowed e → HoldsIn d → HoldsIn (step_in s d e)
  step_in-HoldsIn not_begun d e ok p = live_step-HoldsIn d e ok p
  step_in-HoldsIn disconnecting d e ok p = live_step-HoldsIn d e ok p
  step_in-HoldsIn exited d e ok p = p

  pub desk_run-HoldsIn :
      (es : List DeskEvent) (d : Desktop) → All Allowed es → HoldsIn d → HoldsIn (desk_run d es)
  unfolding desk_run desk_step
  desk_run-HoldsIn [] d ok p = p
  desk_run-HoldsIn (e ∷ es) d (ok, others) p =
      desk_run-HoldsIn es _ others (step_in-HoldsIn d.shell.shutdown d e ok p)
