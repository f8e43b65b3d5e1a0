-- ===== src/Desktop/Conflict.antt =====
-- main.go: what comes of a port conflict that trayConnect finds.
use mathlib.Core.Path.{subst}
use ssh_tunnel_manager.Common.{
  ◌≡◌, refl, sym, ap, ◌∙◌, true, List, [], ◌∷◌, ◌++◌, map, All, some, Text, ℕ, arith, if◌then◌else◌,
}
use ssh_tunnel_manager.Config.{ForwardConfig}
use ssh_tunnel_manager.Desktop.{
  Desktop, DeskEvent, app_event, shell_event, opened, asks_for_window, finds_conflict, live_step,
  step_in, desk_step, desk_run,
}
use ssh_tunnel_manager.Desktop.Projection.{Reaches, Reaches-next, Reaches-both, desk_run-Reaches}
use ssh_tunnel_manager.Shell.{
  asks, consumes, loops, Shell, ShellEvent, not_begun, waiting, in_window, shell_step, shell_run,
  initial_shell, consume, loop_step,
}
use ssh_tunnel_manager.Shell.Window.{request-answered, turns, is_pending}
use ssh_tunnel_manager.Ui.{
  App, UiCmd, Job, checking, by_tray, show_conflict, show_conflict_dialog_internal, queue_ui_func,
}
use ssh_tunnel_manager.Ui.Handlers.{drain_ui_cmds, run_cmds, run_cmd}
use ssh_tunnel_manager.Ui.Jobs.{
  goes_on, checked, take_job, run_job, advance_job, app_step, port_checked, queue,
}

-- The window is on the screen, and the next frame begins with the conflict dialog for this port and process.
pub record AsksUser (fwd : ForwardConfig) (process : Text) (d : Desktop) : Type 0 where
  pub in_front : d.shell.loop ≡ in_window
  pub dialog : (drain_ui_cmds d.app).ui.show_port_conflict_dialog ≡ true
  pub port : (drain_ui_cmds d.app).ui.port_conflict_port ≡ fwd.local_port
  pub holder : (drain_ui_cmds d.app).ui.port_conflict_process ≡ process

run_cmds-append :
    (fs gs : List UiCmd) (app : App) → run_cmds (fs ++ gs) app ≡ run_cmds gs (run_cmds fs app)
unfolding run_cmds
run_cmds-append [] gs app = refl
run_cmds-append (f ∷ fs) gs app = run_cmds-append fs gs (run_cmd f app)

-- The closures that were queued before run first.
drain-queue : (f : UiCmd) (app : App) → drain_ui_cmds (queue f app) ≡ run_cmd f (drain_ui_cmds app)
unfolding drain_ui_cmds queue_ui_func run_cmds
drain-queue f app = run_cmds-append app.ui.ui_cmd_q (f ∷ []) _

data Turn : ShellEvent → Type 0 where
  consumer_turn : Turn consumes
  loop_turn : Turn loops

Turn-shutdown : (s : Shell) {e : ShellEvent} → Turn e → (shell_step s e).shutdown ≡ s.shutdown
unfolding shell_step
Turn-shutdown s consumer_turn = unfold consume in ground arith
Turn-shutdown s loop_turn = unfold loop_step in ground arith

desk_step-Turn :
    (d : Desktop) {e : ShellEvent}
    → Turn e
    → d.shell.shutdown ≡ not_begun
    → desk_step d (shell_event e) ≡ record d { shell = shell_step d.shell e }
unfolding desk_step live_step
desk_step-Turn d consumer_turn h = ap (λ s. step_in s d (shell_event consumes)) h
desk_step-Turn d loop_turn h = ap (λ s. step_in s d (shell_event loops)) h

-- Turns of the consumer and of the loop change only the window and its channels.
desk_run-turns :
    (es : List ShellEvent) (d : Desktop)
    → All Turn es
    → d.shell.shutdown ≡ not_begun
    → desk_run d (map shell_event es) ≡ record d { shell = shell_run d.shell es }
unfolding desk_run shell_run
desk_run-turns [] d all_turns h = refl
desk_run-turns (e ∷ es) d (t, others) h =
    ap (λ next. desk_run next (map shell_event es)) (desk_step-Turn d t h)
    ∙ desk_run-turns es _ others (Turn-shutdown d.shell t ∙ h)

module _ (k : ℕ) (fwd : ForwardConfig) (process : Text) (rest : List Job) where
  conflict_step :
      (app : App)
      → take_job k app.jobs ≡ some (checking by_tray fwd, rest)
      → app_step app (goes_on k (checked true process))
        ≡ queue (show_conflict fwd.local_port process) (record app { jobs = rest })
  unfolding app_step run_job advance_job port_checked
  conflict_step app found = rw (found, run_job) refl

  asking :
      (app : App)
      → take_job k app.jobs ≡ some (checking by_tray fwd, rest)
      → asks_for_window app (goes_on k (checked true process)) ≡ true
  asking app found = ap finds_conflict found

  -- The state after the check.
  abbrev found_in : Desktop → Desktop
  found_in d = record d {
    app = queue (show_conflict fwd.local_port process) (record (d.app) { jobs = rest });
    shell = shell_step d.shell asks;
  }

  desk_step-found_in :
      (d : Desktop)
      → d.shell.shutdown ≡ not_begun
      → take_job k d.app.jobs ≡ some (checking by_tray fwd, rest)
      → desk_step d (app_event (goes_on k (checked true process))) ≡ found_in d
  unfolding desk_step live_step
  desk_step-found_in d begun found =
      let e = goes_on k (checked true process) in
      let next = record d { app = app_step d.app e } in
      ap (λ s. step_in s d (app_event e)) begun
      ∙ ap (λ b. if b then record next { shell = shell_step d.shell asks } else next)
          (asking d.app found)
      ∙ ap (λ a. record d { app = a; shell = shell_step d.shell asks }) (conflict_step d.app found)

  found_in-AsksUser :
      (d : Desktop) (s : Shell)
      → s.loop ≡ in_window
      → AsksUser fwd process (record (found_in d) { shell = s })
  unfolding run_cmd show_conflict_dialog_internal
  found_in-AsksUser d s h =
      let drained =
        drain-queue (show_conflict fwd.local_port process) (record (d.app) { jobs = rest }) in
      record {
        in_front = h;
        dialog = ap (λ a. a.ui.show_port_conflict_dialog) drained;
        port = ap (λ a. a.ui.port_conflict_port) drained;
        holder = ap (λ a. a.ui.port_conflict_process) drained;
      }

  turns_open :
      (d : Desktop)
      → Reaches initial_shell d.shell
      → d.shell.loop ≡ waiting
      → (shell_run (shell_step d.shell asks) turns).loop ≡ in_window
  unfolding shell_step
  turns_open d reached idle =
      let (steps, e) = Reaches-both initial_shell d.shell _ reached (Reaches-next d.shell asks) in
      subst (λ s. (shell_run s turns).loop ≡ in_window) e
        (request-answered steps (ap (λ s. s.loop) e ∙ idle) (ap is_pending e)).1

-- In every run of the program that has not begun to shut down, while there is no window: when the goroutine
-- of a click on 连接 in the tray finds the port in use, then three turns of the consumer and two of the loop
-- open a window, and its next frame begins with the conflict dialog for the port of the forward and the
-- process that holds it.
pub tray_conflict-AsksUser :
    (app : App) (es : List DeskEvent) (d : Desktop) (k : ℕ) (fwd : ForwardConfig) (process : Text)
    (rest : List Job)
    → desk_run (opened app) es ≡ d
    → d.shell.shutdown ≡ not_begun
    → d.shell.loop ≡ waiting
    → take_job k d.app.jobs ≡ some (checking by_tray fwd, rest)
    → let found = desk_step d (app_event (goes_on k (checked true process))) in
      AsksUser fwd process (desk_run found (map shell_event turns))
unfolding shell_step
tray_conflict-AsksUser app es d k fwd process rest reached begun idle waits =
    let reaches : Reaches initial_shell d.shell =
      subst (λ e. Reaches initial_shell e.shell) reached (desk_run-Reaches es (opened app)) in
    let d' = found_in k fwd process rest d in
    subst (λ e. AsksUser fwd process (desk_run e (map shell_event turns)))
      (sym (desk_step-found_in k fwd process rest d begun waits))
      (subst (AsksUser fwd process)
        (sym (
          desk_run-turns turns d'
            (consumer_turn, (consumer_turn, (consumer_turn, (loop_turn, (loop_turn, tt))))) begun))
        (found_in-AsksUser k fwd process rest d _ (turns_open k fwd process rest d reaches idle)))
