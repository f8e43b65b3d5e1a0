-- ===== src/Desktop/Quit.antt =====
-- main.go: a quit from the tray ends the process, and the tunnels before it.
use mathlib.Core.Path.{subst}
use ssh_tunnel_manager.Common.{◌≡◌, refl, Bool, true, false, ◌||◌, List, [], ◌∷◌, arith}
use ssh_tunnel_manager.Desktop.{
  Desktop, DeskEvent, clicks_quit, shell_event, disconnects, live_step, desk_step, desk_run,
}
use ssh_tunnel_manager.Desktop.Projection.{desk_run-Reaches}
use ssh_tunnel_manager.Shell.{
  shell_run, asks, consumes, loops, closes, quits, receives_quit, signals, tears_down, ShellEvent,
  Shutdown, Shell, not_begun, disconnecting, exited, shell_step, consume, loop_step, close_window,
  shut_down, signal_quit,
}

abbrev is_begun : Shutdown → Bool
is_begun not_begun = false
is_begun disconnecting = true
is_begun exited = true

-- A request to quit is in its channel, or the shutdown has begun.
abbrev Asked : Shell → Type 0
Asked s = (s.quit_ch || is_begun s.shutdown) ≡ true

shell_step-Asked : (s : Shell) (e : ShellEvent) → Asked s → Asked (shell_step s e)
unfolding shell_step
shell_step-Asked s asks h = h
shell_step-Asked s consumes h = unfold consume in ground arith
shell_step-Asked s loops h = unfold loop_step in ground arith
shell_step-Asked s closes h = unfold close_window in ground arith
shell_step-Asked s quits h = unfold signal_quit in refl
shell_step-Asked s receives_quit h = unfold shut_down in ground arith
shell_step-Asked s signals h = unfold shut_down in ground arith
shell_step-Asked s tears_down h = ground arith

shell_run-Asked : (s : Shell) (es : List ShellEvent) → Asked s → Asked (shell_run s es)
unfolding shell_run
shell_run-Asked s [] h = h
shell_run-Asked s (e ∷ es) h = shell_run-Asked _ es (shell_step-Asked s e h)

desk_run-Asked : (es : List DeskEvent) (d : Desktop) → Asked d.shell → Asked (desk_run d es).shell
desk_run-Asked es d h =
    let (steps, e) = desk_run-Reaches es d in subst Asked e (shell_run-Asked d.shell steps h)

-- The three steps of the quit goroutine.
abbrev pub teardown : List DeskEvent
teardown = shell_event receives_quit ∷ disconnects ∷ shell_event tears_down ∷ []

teardown_exits : (d : Desktop) → Asked d.shell → (desk_run d teardown).shell.shutdown ≡ exited
unfolding desk_run desk_step live_step shell_step shut_down
teardown_exits d h = ground arith

quit-Asked : (d : Desktop) → d.tray_open ≡ true → Asked (desk_step d clicks_quit).shell
unfolding desk_step live_step shell_step signal_quit
quit-Asked d open_yet = ground arith

-- When the menu of the tray is still there and 退出 is clicked, then, whatever the program does after that
-- and however long it takes, the next three steps of the quit goroutine end the process: its receive,
-- `DisconnectAll`, and the exit.
pub clicks_quit-exits :
    (d : Desktop) (es : List DeskEvent)
    → d.tray_open ≡ true
    → (desk_run (desk_run (desk_step d clicks_quit) es) teardown).shell.shutdown ≡ exited
clicks_quit-exits d es open_yet = teardown_exits _ (desk_run-Asked es _ (quit-Asked d open_yet))
