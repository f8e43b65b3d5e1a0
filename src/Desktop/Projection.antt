-- ===== src/Desktop/Projection.antt =====
-- main.go: the window and its channels in the whole program take the steps of the window loop alone.
use ssh_tunnel_manager.Common.{
  ◌≡◌, refl, ap, ◌∙◌, Bool, true, false, List, [], ◌∷◌, ◌++◌, if◌then◌else◌,
}
use ssh_tunnel_manager.Desktop.{
  Desktop, DeskEvent, polls, clicks_show, clicks_toggle, clicks_quit, app_event, shell_event,
  disconnects, asks_for_window, live_step, disconnects_in, step_in, desk_step, desk_run,
}
use ssh_tunnel_manager.Shell.{
  asks, consumes, loops, closes, quits, receives_quit, signals, tears_down, ShellEvent, Shutdown,
  Shell, not_begun, disconnecting, exited, shell_step, shell_run,
}
use ssh_tunnel_manager.Ui.Jobs.{app_step}

-- Some steps of the window loop lead from one state to the other.
abbrev pub Reaches : Shell → Shell → Type 0
Reaches s s' = (ss : List ShellEvent) × (shell_run s ss ≡ s')

Reaches-same : (s : Shell) → Reaches s s
unfolding shell_run
Reaches-same s = ([], refl)

pub Reaches-next : (s : Shell) (e : ShellEvent) → Reaches s (shell_step s e)
unfolding shell_run
Reaches-next s e = (e ∷ [], refl)

shell_run-append :
    (s : Shell) (es fs : List ShellEvent) → shell_run s (es ++ fs) ≡ shell_run (shell_run s es) fs
unfolding shell_run
shell_run-append s [] fs = refl
shell_run-append s (e ∷ es) fs = shell_run-append (shell_step s e) es fs

pub Reaches-both : (s s' s'' : Shell) → Reaches s s' → Reaches s' s'' → Reaches s s''
Reaches-both s s' s'' (es, p) (fs, q) =
    (es ++ fs, shell_run-append s es fs ∙ ap (λ t. shell_run t fs) p ∙ q)

if-Reaches :
    (b : Bool) (s : Shell) (d d' : Desktop)
    → Reaches s d.shell
    → Reaches s d'.shell
    → Reaches s (if b then d' else d).shell
if-Reaches true s d d' r r' = r'
if-Reaches false s d d' r r' = r

disconnects_in-Reaches : (s : Shutdown) (d : Desktop) → Reaches d.shell (disconnects_in s d).shell
disconnects_in-Reaches not_begun d = Reaches-same d.shell
disconnects_in-Reaches disconnecting d = Reaches-same d.shell
disconnects_in-Reaches exited d = Reaches-same d.shell

live_step-Reaches : (d : Desktop) (e : DeskEvent) → Reaches d.shell (live_step d e).shell
unfolding live_step
live_step-Reaches d polls = Reaches-same d.shell
live_step-Reaches d clicks_show =
    if-Reaches d.tray_open d.shell d _ (Reaches-same d.shell) (Reaches-next d.shell asks)
live_step-Reaches d clicks_toggle =
    if-Reaches d.tray_open d.shell d _ (Reaches-same d.shell) (Reaches-same d.shell)
live_step-Reaches d clicks_quit =
    if-Reaches d.tray_open d.shell d _ (Reaches-same d.shell) (Reaches-next d.shell quits)
live_step-Reaches d (app_event e) =
    if-Reaches (asks_for_window d.app e) d.shell (record d { app = app_step d.app e }) _
      (Reaches-same d.shell) (Reaches-next d.shell asks)
live_step-Reaches d (shell_event tears_down) =
    if-Reaches d.torn d.shell d _ (Reaches-same d.shell) (Reaches-next d.shell tears_down)
live_step-Reaches d (shell_event asks) = Reaches-next d.shell asks
live_step-Reaches d (shell_event consumes) = Reaches-next d.shell consumes
live_step-Reaches d (shell_event loops) = Reaches-next d.shell loops
live_step-Reaches d (shell_event closes) = Reaches-next d.shell closes
live_step-Reaches d (shell_event quits) = Reaches-next d.shell quits
live_step-Reaches d (shell_event receives_quit) = Reaches-next d.shell receives_quit
live_step-Reaches d (shell_event signals) = Reaches-next d.shell signals
live_step-Reaches d disconnects = disconnects_in-Reaches d.shell.shutdown d

step_in-Reaches :
    (s : Shutdown) (d : Desktop) (e : DeskEvent) → Reaches d.shell (step_in s d e).shell
step_in-Reaches not_begun d e = live_step-Reaches d e
step_in-Reaches disconnecting d e = live_step-Reaches d e
step_in-Reaches exited d e = Reaches-same d.shell

-- Whatever the app and the tray do, the window and its channels take only steps of the window loop.
pub desk_run-Reaches : (es : List DeskEvent) (d : Desktop) → Reaches d.shell (desk_run d es).shell
unfolding desk_run desk_step
desk_run-Reaches [] d = Reaches-same d.shell
desk_run-Reaches (e ∷ es) d =
    Reaches-both d.shell _ _ (step_in-Reaches d.shell.shutdown d e) (desk_run-Reaches es _)
