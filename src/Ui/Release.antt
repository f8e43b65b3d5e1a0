-- ===== src/Ui/Release.antt =====
-- ui.go: the goroutines of the conflict dialog give `conflictBusy` back.
use ssh_tunnel_manager.Common.{
  ap, arith, ◌==◌, Bool-cases, ℕ, Bool, ◌≡◌, List, Text, ◌∙◌, Option, refl, true, false, none, some,
  [], ◌∷◌, inl, inr,
}
use ssh_tunnel_manager.Manager.{ConnectError}
use ssh_tunnel_manager.Manager.Tasks.{Task}
use ssh_tunnel_manager.Ui.{
  refresh_zone_forward_status_async, with_ui, ForwardConfig, show_conflict_dialog_internal, UiCmd,
  App, Caller, Job, set_test_result, release_connect, release_conflict, show_conflict, show_message,
  kill_failed, process_killed, zone_row, zone_done, killing, connects_to, by_check, by_kill,
  by_change, by_restart, by_auto, by_tray,
}
use ssh_tunnel_manager.Ui.Dialog.{run_job-Fits, take_job-holds}
use ssh_tunnel_manager.Ui.Effects.{holds_by, held_cmds, holds, held_jobs}
use ssh_tunnel_manager.Ui.Exclusive.{count_of, drain_ui_cmds-Fits, Fits}
use ssh_tunnel_manager.Ui.Handlers.{say, action_message, drain_ui_cmds, run_cmd, run_cmds}
use ssh_tunnel_manager.Ui.Jobs.{
  run_job, process_kill_ended, take_job, take_done, connect_error, with_tasks, report, advance_job,
  connect_returned, JobAnswer, connect_ended, killed, returned,
}

-- The answers with which a goroutine of the dialog comes to its end: the kill has failed, or the call of
-- `Connect` has returned.
pub data Ends (app : App) : Job → JobAnswer → Type 0 where
  kill_fails : (fwd : ForwardConfig) (e : Text) → Ends app (killing fwd) (killed (some e))
  connect_returns :
      (by : Caller) (fwd : ForwardConfig) (j : ℕ) (wording : ConnectError → Text)
      (r : Option ConnectError) (ts : List Task)
      → holds_by by ≡ 1
      → take_done fwd.id j app.tunnels.tasks ≡ some (r, ts)
      → Ends app (connects_to by fwd) (returned j wording)

-- What running a closure leaves to run.
record Rest (app app' : App) : Type 0 where
  jobs_kept : held_jobs app'.jobs ≡ held_jobs app.jobs
  queue_kept : app'.ui.ui_cmd_q ≡ app.ui.ui_cmd_q

Rest-trans : {a b c : App} → Rest a b → Rest b c → Rest a c
Rest-trans p q = record {
  jobs_kept = q.jobs_kept ∙ p.jobs_kept;
  queue_kept = q.queue_kept ∙ p.queue_kept;
}

say-Rest : (msg : Text) (ok : Bool) (app : App) → Rest app (say msg ok app)
unfolding set_test_result
say-Rest msg ok app = record { jobs_kept = refl; queue_kept = refl }

action_message-Rest : (o : Option Text) (app : App) → Rest app (action_message o app)
action_message-Rest none app = say-Rest _ true app
action_message-Rest (some e) app = say-Rest _ false app

run_cmd-Rest : (c : UiCmd) (app : App) → Rest app (run_cmd c app)
unfolding run_cmd
run_cmd-Rest release_connect app = record { jobs_kept = refl; queue_kept = refl }
run_cmd-Rest release_conflict app = record { jobs_kept = refl; queue_kept = refl }
run_cmd-Rest (show_conflict port process) app =
    unfold show_conflict_dialog_internal in record { jobs_kept = refl; queue_kept = refl }
run_cmd-Rest (show_message msg ok) app = say-Rest msg ok app
run_cmd-Rest (kill_failed e) app =
    unfold set_test_result in record { jobs_kept = refl; queue_kept = refl }
run_cmd-Rest process_killed app =
    unfold set_test_result in record { jobs_kept = refl; queue_kept = refl }
run_cmd-Rest (zone_row gen status action pending) app =
    elim (Bool-cases (app.ui.zone_refresh_gen == gen)) [
      | inl e ↦ rw e (record { jobs_kept = refl; queue_kept = refl })
      | inr e ↦ rw e (record { jobs_kept = refl; queue_kept = refl })
    ]
run_cmd-Rest (zone_done failure) app =
    let waiting : App = with_ui (record (app.ui) { zone_busy = false }) app in
    let told = action_message-Rest failure waiting in
    unfold refresh_zone_forward_status_async in
    record { jobs_kept = omega (arith, told.jobs_kept); queue_kept = told.queue_kept }

run_cmds-Rest : (cs : List UiCmd) (app : App) → Rest app (run_cmds cs app)
unfolding run_cmds
run_cmds-Rest [] app = record { jobs_kept = refl; queue_kept = refl }
run_cmds-Rest (c ∷ cs) app = Rest-trans (run_cmd-Rest c app) (run_cmds-Rest cs _)

-- When no goroutine of the dialog is at work, the next frame finds the flag free.
drain_ui_cmds-free :
    {ro : Bool} (app : App)
    → Fits ro 0 app
    → held_jobs app.jobs ≡ 0
    → (drain_ui_cmds app).ui.conflict_busy ≡ false
unfolding drain_ui_cmds
drain_ui_cmds-free app f none_left =
    let drained = drain_ui_cmds-Fits app f in
    let rest = run_cmds-Rest app.ui.ui_cmd_q (with_ui (record (app.ui) { ui_cmd_q = [] }) app) in
    let zero_held : held_cmds (drain_ui_cmds app).ui.ui_cmd_q ≡ 0 = ap held_cmds rest.queue_kept in
    elim (Bool-cases (drain_ui_cmds app).ui.conflict_busy) [
      | inr e ↦ e
      | inl e ↦
          absurd
            (omega (arith, drained.exclusive ∙ ap count_of e, rest.jobs_kept, none_left, zero_held))
    ]

connect_ended-jobs : (by : Caller) (app : App) → (connect_ended by app).jobs ≡ app.jobs
connect_ended-jobs by_check app = refl
connect_ended-jobs by_kill app = refl
connect_ended-jobs by_change app = refl
connect_ended-jobs by_restart app = refl
connect_ended-jobs by_auto app = refl
connect_ended-jobs by_tray app = refl

report-jobs : (by : Caller) (e : Text) (app : App) → (report by e app).jobs ≡ app.jobs
report-jobs by_check e app = refl
report-jobs by_kill e app = refl
report-jobs by_change e app = refl
report-jobs by_restart e app = refl
report-jobs by_auto e app = refl
report-jobs by_tray e app = refl

connect_returned-jobs :
    (by : Caller) (o : Option Text) (app : App) → (connect_returned by o app).jobs ≡ app.jobs
unfolding connect_returned
connect_returned-jobs by none app = connect_ended-jobs by app
connect_returned-jobs by (some e) app = connect_ended-jobs by _ ∙ report-jobs by e app

advance_job-jobs :
    (job : Job) (answer : JobAnswer) (app : App)
    → Ends app job answer
    → (advance_job job answer app).jobs ≡ app.jobs
unfolding advance_job
advance_job-jobs _ _ app (kill_fails fwd e) = unfold process_kill_ended in refl
advance_job-jobs _ _ app (connect_returns by fwd j wording r ts h e) =
    rw (e, advance_job) (connect_returned-jobs by (connect_error wording r) (with_tasks ts app))

holds-Ends : (app : App) (job : Job) (answer : JobAnswer) → Ends app job answer → holds job ≡ 1
holds-Ends app _ _ (kill_fails fwd e) = refl
holds-Ends app _ _ (connect_returns by fwd j wording r ts h e) = h

-- When a goroutine of the conflict dialog comes to its end, by a kill that fails or a call of `Connect`
-- that returns with any result, the next frame finds `conflictBusy` free, in every state with the
-- properties that every run keeps.
pub run_job-frees :
    {ro : Bool} (app : App) (k : ℕ) (job : Job) (rest : List Job) (answer : JobAnswer)
    → Fits ro 0 app
    → take_job k app.jobs ≡ some (job, rest)
    → Ends (record app { jobs = rest }) job answer
    → (drain_ui_cmds (run_job k answer app)).ui.conflict_busy ≡ false
run_job-frees app k job rest answer f taken e =
    drain_ui_cmds-free (run_job k answer app) (run_job-Fits k answer app f) (
      unfold run_job in
      rw (taken, run_job)
        (ap held_jobs (advance_job-jobs job answer (record app { jobs = rest }) e) ∙ none_left))
  where
    none_left : held_jobs rest ≡ 0
    none_left = elim (Bool-cases app.ui.conflict_busy) [
      | inl b ↦ omega (
        arith,
        f.exclusive ∙ ap count_of b,
        take_job-holds k app.jobs rest job taken,
        holds-Ends _ job answer e,
      )
      | inr b ↦ omega (
        arith,
        f.exclusive ∙ ap count_of b,
        take_job-holds k app.jobs rest job taken,
        holds-Ends _ job answer e,
      )
    ]
