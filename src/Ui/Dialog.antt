-- ===== src/Ui/Dialog.antt =====
-- ui.go: the conflict dialog under every schedule.
use mathlib.Core.Bool.{false≢true}
use mathlib.Core.Option.{none-ne-some, some-injective}
use ssh_tunnel_manager.Common.{
  int_text, ◌++◌, text, All, Bool, Bool-cases, List, Option, Option-cases, Text, [], ap, arith,
  false, if◌then◌else◌, inl, inr, none, not, refl, some, suc, sym, true, zero, ℕ, ◌&&◌, ◌+◌, ◌∙◌,
  ◌∷◌, ◌≡◌,
}
use ssh_tunnel_manager.Config.Store.{StoreError, get_dns_resolver, set_forward}
use ssh_tunnel_manager.Manager.{get_status, Callback, status_changed, terminal_failure}
use ssh_tunnel_manager.Manager.World.{Event, disconnects_all}
use ssh_tunnel_manager.Ui.{
  current_forward_id, terminal_failure_text, App, ForwardConfig, Job, by_change, close_dialog,
  dismiss_conflict_dialog, get_forward, killing, show_message, take_both, tray_start, with_ui,
}
use ssh_tunnel_manager.Ui.Effects.{
  same_rows, Effect-step, Effect-if, Effect-queue, Effect, Effect-call_connect, Effect-refl,
  Effect-seq, Effect-spawn, Effect-ui, held_jobs, holds,
}
use ssh_tunnel_manager.Ui.Exclusive.{
  count_of, drain_ui_cmds-Fits, Fits-eq, Effect-Fits, quiet-Fits, release-Fits, Fits,
}
use ssh_tunnel_manager.Ui.HandlerEffects.{
  page_events-Effect, update_hero_status-Effect, save_app-Effect,
}
use ssh_tunnel_manager.Ui.Handlers.{
  is_up, say, handle_events, Frame, close_and_give_back, dialog_events, dismiss, drain_ui_cmds,
  finish_change, handle_change_port, handle_kill_process, new_port, press_change_port, when_clicked,
}
use ssh_tunnel_manager.Ui.JobEffects.{advance_job-Effect, say-Effect}
use ssh_tunnel_manager.Ui.Jobs.{
  app_run, deliver, failure_message, manager_step, tray_toggled, AppEvent, JobAnswer, app_step,
  draws, goes_on, run_job, take_job, tray_toggle, tunnels_step,
}
use ssh_tunnel_manager.Ui.Settings.{load_config_to_form, Saving}

-- The two buttons that start a handler are not clicked in the same frame.
abbrev pub is_single : AppEvent → Bool
is_single (draws frame) = not (frame.kill_process_btn && frame.change_port_btn)
is_single _ = true

set_forward-Effect :
    (fwd : ForwardConfig) (app : App)
    → Effect 0 app (record app { config = set_forward fwd app.config })
unfolding set_forward
set_forward-Effect fwd app = record {
  busy_kept = refl;
  held = omega arith;
  sound_kept = λ s. record {
    tunnels_inv = s.tunnels_inv;
    resolver_synced = s.resolver_synced ∙ (unfold get_dns_resolver in unfold set_forward in refl);
    rows_ok = s.rows_ok;
  };
  protection_kept = refl;
}

dismiss-Effect : (clicked : Bool) (app : App) → Effect 0 app (when_clicked clicked dismiss app)
dismiss-Effect true app =
    unfold dismiss_conflict_dialog in Effect-ui _ app refl refl (same_rows refl refl refl)
dismiss-Effect false app = Effect-refl app

pub take_job-holds :
    (k : ℕ) (js rest : List Job) (j : Job)
    → take_job k js ≡ some (j, rest)
    → held_jobs js ≡ holds j + held_jobs rest
unfolding take_job
take_job-holds k [] rest j h = absurd (none-ne-some _ h)
take_job-holds zero (i ∷ js) rest j h =
    let same = some-injective _ _ h in omega (arith, ap (λ p. holds p.0 + held_jobs p.1) same)
take_job-holds (suc k) (i ∷ js) rest j h = elim (Option-cases (take_job k js)) [
  | inl n ↦
      let none_left : take_job (suc k) (i ∷ js) ≡ none = rw (n, take_job) refl in
      absurd (none-ne-some (j, rest) (sym none_left ∙ h))
  | inr ((j', rest'), e) ↦
      let taken : take_job (suc k) (i ∷ js) ≡ some (j', i ∷ rest') = rw (e, take_job) refl in
      let same = some-injective _ _ (sym taken ∙ h) in
      omega (arith, ap (λ p. holds p.0 + held_jobs p.1) same, take_job-holds k js rest' j' e)
]

failure_message-Effect : (o : Option Text) (app : App) → Effect 0 app (failure_message o app)
failure_message-Effect none app = Effect-refl app
failure_message-Effect (some msg) app = Effect-queue (show_message msg false) app tt

deliver-Effect : (cs : List Callback) (app : App) → Effect 0 app (deliver cs app)
unfolding deliver
deliver-Effect [] app = Effect-refl app
deliver-Effect (status_changed id status ∷ cs) app = deliver-Effect cs app
deliver-Effect (terminal_failure id status ∷ cs) app =
    Effect-seq (failure_message-Effect (terminal_failure_text status) app) (deliver-Effect cs _)

manager_step-Effect : (e : Event) (app : App) → Effect 0 app (manager_step e app)
unfolding manager_step
manager_step-Effect e app = Effect-seq (Effect-step e app) (deliver-Effect _ _)

tray_toggled-Effect : (app : App) → Effect 0 app (tray_toggled app)
unfolding tray_toggled
tray_toggled-Effect app =
    Effect-if (is_up (get_status app.tunnels.manager (current_forward_id app.config)))
      (Effect-step disconnects_all app) (Effect-spawn tray_start app)

module _ {ro : Bool} where
  take_both-Fits :
      (app : App)
      → app.ui.conflict_busy ≡ false
      → Fits ro 0 app
      → Fits ro 1 (with_ui (take_both app.ui) app)
  take_both-Fits app e f = record {
    sound = record {
      tunnels_inv = f.sound.tunnels_inv;
      resolver_synced = f.sound.resolver_synced;
      rows_ok = same_rows refl refl refl f.sound.rows_ok;
    };
    protection = f.protection;
    exclusive = omega (arith, f.exclusive ∙ ap count_of e);
  }

  close_and_give_back-Fits : (app : App) → Fits ro 1 app → Fits ro 0 (close_and_give_back app)
  close_and_give_back-Fits app f =
      release-Fits 0 (with_ui (close_dialog app.ui) app) (
        Fits-eq (omega arith) (quiet-Fits (Effect-ui _ app refl refl (same_rows refl refl refl)) f))

  handle_kill_process-Fits : (app : App) → Fits ro 1 app → Fits ro 0 (handle_kill_process app)
  unfolding handle_kill_process
  handle_kill_process-Fits app f = elim (Option-cases (get_forward app.config)) [
    | inl n ↦ rw (n, handle_kill_process) (close_and_give_back-Fits app f)
    | inr (fwd, e) ↦
        rw (e, handle_kill_process)
          (Effect-Fits (Effect-spawn (killing fwd) app) (Fits-eq (omega arith) f))
  ]

  finish_change-Fits :
      (s : Saving) (fwd : ForwardConfig) (r : App × Option StoreError)
      → Fits ro 1 r.0
      → Fits ro 0 (finish_change s fwd r)
  finish_change-Fits s fwd (app, some e) f =
      close_and_give_back-Fits _ (quiet-Fits (say-Effect _ false app) f)
  finish_change-Fits s fwd (app, none) f =
      let told = say (text "端口已更改为 " ++ (int_text fwd.local_port ++ text "，正在连接...")) true app in
      let closed = with_ui (close_dialog told.ui) told in
      Effect-Fits (Effect-call_connect by_change fwd _) (
        Fits-eq (omega arith) (
          quiet-Fits
            (Effect-seq (say-Effect _ true app) (
              Effect-seq
                (Effect-ui (close_dialog told.ui) told refl refl (same_rows refl refl refl))
                (Effect-ui
                  (record (closed.ui) { form = load_config_to_form closed.config closed.ui.form })
                  closed refl refl (same_rows refl refl refl))))
            f))

  handle_change_port-Fits :
      (s : Saving) (app : App) → Fits ro 1 app → Fits ro 0 (handle_change_port s app)
  unfolding handle_change_port
  handle_change_port-Fits s app f = elim (Option-cases (get_forward app.config)) [
    | inl n ↦ rw (n, handle_change_port) (close_and_give_back-Fits app f)
    | inr (fwd, e) ↦ elim (Option-cases (new_port app.ui.form.new_port_entry)) [
      | inl n ↦
          rw (e, handle_change_port, n)
            (release-Fits 0 _ (Fits-eq (omega arith) (quiet-Fits (say-Effect _ false app) f)))
      | inr (port, p) ↦
          rw (e, handle_change_port, p)
            (finish_change-Fits s _ _
              (quiet-Fits (Effect-seq (set_forward-Effect _ app) (save_app-Effect s _)) f))
    ]
  ]

  pub Fits-if :
      (b : Bool) {n : ℕ} {x y : App}
      → (b ≡ true → Fits ro n x)
      → (b ≡ false → Fits ro n y)
      → Fits ro n (if b then x else y)
  Fits-if true p q = p refl
  Fits-if false p q = q refl

  press_change_port-Fits :
      (frame : Frame) (app : App)
      → app.ui.conflict_busy ≡ false
      → Fits ro 0 app
      → Fits ro 0 (press_change_port frame app)
  press_change_port-Fits frame app e f =
      Fits-if frame.change_port_btn
        (λ _.
          Fits-if app.ui.show_new_port_entry
            (λ _.
              quiet-Fits (dismiss-Effect frame.overlay_btn _)
                (handle_change_port-Fits frame.changing _ (take_both-Fits app e f)))
            (λ _. quiet-Fits (Effect-ui _ app refl refl (same_rows refl refl refl)) f))
        (λ _. quiet-Fits (dismiss-Effect frame.overlay_btn app) f)

  no_change_port-Fits :
      (frame : Frame) (app : App)
      → frame.change_port_btn ≡ false
      → Fits ro 0 app
      → Fits ro 0 (press_change_port frame app)
  no_change_port-Fits frame app h f =
      Fits-if frame.change_port_btn (λ t. absurd (false≢true (sym h ∙ t)))
        (λ _. quiet-Fits (dismiss-Effect frame.overlay_btn app) f)

  dialog_events-Fits :
      (frame : Frame) (app : App)
      → is_single (draws frame) ≡ true
      → Fits ro 0 app
      → Fits ro 0 (dialog_events frame app)
  unfolding dialog_events
  dialog_events-Fits frame app single f =
      Fits-if (app.ui.show_port_conflict_dialog && not app.ui.conflict_busy)
        (λ shown.
          let free : app.ui.conflict_busy ≡ false = ground (arith, shown) in
          elim (Bool-cases frame.kill_process_btn) [
            | inl k ↦
                let other : frame.change_port_btn ≡ false = ground (arith, k, single) in
                rw k (
                  no_change_port-Fits frame _ other
                    (handle_kill_process-Fits _ (take_both-Fits app free f)))
            | inr k ↦ rw k (press_change_port-Fits frame app free f)
          ])
        (λ _. f)

  pub run_job-Fits :
      (k : ℕ) (answer : JobAnswer) (app : App) → Fits ro 0 app → Fits ro 0 (run_job k answer app)
  unfolding run_job
  run_job-Fits k answer app f = elim (Option-cases (take_job k app.jobs)) [
    | inl n ↦ rw (n, run_job) f
    | inr ((job, rest), e) ↦
        rw (e, run_job)
          (Effect-Fits (advance_job-Effect job answer _) (record {
            sound = record {
              tunnels_inv = f.sound.tunnels_inv;
              resolver_synced = f.sound.resolver_synced;
              rows_ok = f.sound.rows_ok;
            };
            protection = f.protection;
            exclusive = omega (arith, f.exclusive, take_job-holds k app.jobs rest job e);
          }))
  ]

  handle_events-Fits :
      (frame : Frame) (app : App)
      → is_single (draws frame) ≡ true
      → Fits ro 0 app
      → Fits ro 0 (handle_events frame app)
  unfolding handle_events
  handle_events-Fits frame app single f = dialog_events-Fits frame _ single (
      quiet-Fits
        (Effect-seq (Effect-ui _ (drain_ui_cmds app) refl refl (same_rows refl refl refl))
          (page_events-Effect frame _ _))
        (drain_ui_cmds-Fits app f))

  pub app_step-Fits :
      (app : App) (e : AppEvent) → is_single e ≡ true → Fits ro 0 app → Fits ro 0 (app_step app e)
  unfolding app_step
  app_step-Fits app (draws frame) single f =
      quiet-Fits (update_hero_status-Effect _) (handle_events-Fits frame app single f)
  app_step-Fits app (goes_on k answer) single f = run_job-Fits k answer app f
  app_step-Fits app (tunnels_step e) single f = quiet-Fits (manager_step-Effect e app) f
  app_step-Fits app tray_toggle single f = quiet-Fits (tray_toggled-Effect app) f

  -- In every run whose frames click at most one of the two buttons of the conflict dialog, and from every
  -- state with these properties: the flag `conflictBusy` is set exactly when one goroutine of the dialog is
  -- at work or its release is queued, and there is never a second one; the manager with its goroutines
  -- satisfies its invariant; the resolver in use is the configured one; and the zone row and those queued
  -- have the caption of their action.
  pub app_run-Fits :
      (app : App) (es : List AppEvent)
      → All (λ e. is_single e ≡ true) es
      → Fits ro 0 app
      → Fits ro 0 (app_run app es)
  unfolding app_run
  app_run-Fits app [] single f = f
  app_run-Fits app (e ∷ es) (single, others) f =
      app_run-Fits (app_step app e) es others (app_step-Fits app e single f)
