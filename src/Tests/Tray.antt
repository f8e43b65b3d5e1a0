-- ===== src/Tests/Tray.antt =====
-- A click in the tray that finds the port in use, as main.go handles it.
use ssh_tunnel_manager.Common.{refl, true, false, some, [], ◌∷◌, ◌≡◌, text, List, map}
use ssh_tunnel_manager.Desktop.{
  Desktop, DeskEvent, opened, clicks_toggle, app_event, shell_event, desk_run, desk_step, live_step,
}
use ssh_tunnel_manager.Desktop.Conflict.{tray_conflict-AsksUser, AsksUser}
use ssh_tunnel_manager.Common.Maps.{lookup}
use ssh_tunnel_manager.Config.Store.{get_forward}
use ssh_tunnel_manager.Manager.{get_status}
use ssh_tunnel_manager.Manager.World.{start}
use ssh_tunnel_manager.Shell.{shell_step, initial_shell, loops, closes, not_begun, waiting}
use ssh_tunnel_manager.Shell.Window.{turns}
use ssh_tunnel_manager.Tests.Home.{home, app_with}
use ssh_tunnel_manager.Ui.{checking, by_tray}
use ssh_tunnel_manager.Ui.Jobs.{
  go, goes_on, checked, take_job, app_step, run_job, tray_toggled, advance_job,
}

-- The window has been closed, and 连接 in the tray was clicked.
abbrev to_port_check : List DeskEvent
to_port_check =
    shell_event loops
    ∷ shell_event closes
    ∷ shell_event loops
    ∷ clicks_toggle
    ∷ app_event (goes_on 0 go)
    ∷ []

abbrev at_port_check : Desktop
at_port_check = desk_run (opened (app_with false)) to_port_check

no_window : (at_port_check.shell.shutdown ≡ not_begun) × (at_port_check.shell.loop ≡ waiting)
unfolding desk_run desk_step live_step initial_shell shell_step
no_window = (refl, refl)

checks_port : take_job 0 at_port_check.app.jobs ≡ some (checking by_tray home, [])
unfolding desk_run desk_step live_step initial_shell shell_step app_step take_job run_job
    tray_toggled get_status lookup start advance_job get_forward
checks_port = refl

tray_conflict-AsksUser_example : AsksUser home (text "ssh") (
    desk_run
      (desk_step at_port_check (app_event (goes_on 0 (checked true (text "ssh")))))
      (map shell_event turns))
tray_conflict-AsksUser_example =
    tray_conflict-AsksUser (app_with false) to_port_check at_port_check 0 home (text "ssh") [] refl
      no_window.0 no_window.1 checks_port
