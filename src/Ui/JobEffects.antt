-- ===== src/Ui/JobEffects.antt =====
-- ui.go and main.go: what the steps of the goroutines keep.
use mathlib.Core.Option.{some-injective, none-ne-some}
use ssh_tunnel_manager.Common.{
  ap, ◌∙◌, sym, ◌≡◌, Option-cases, ltb, Bool-cases, if◌then◌else◌, List, ℕ, suc, inl, inr, ◌&&◌,
  zero, [], ◌∷◌, refl, true, false, none, some, arith, Bool, Option, Text,
}
use ssh_tunnel_manager.Manager.{
  get_status, ConnectError, Status, connecting, running, disconnected, port_in_use,
  connection_refused, auth_failed, unreachable, stopped,
}
use ssh_tunnel_manager.Manager.Pool.{pends, pending}
use ssh_tunnel_manager.Manager.Tasks.{connect_publish, Task}
use ssh_tunnel_manager.Ui.{
  spawn, Job, FileSystem, auto_start, tray_start, test_start, restart_start, checking, polling,
  killing, connects_to, refreshing, zone_acting, test_dialing, test_requesting, kill_failed,
  process_killed, set_test_result, by_check, by_kill, by_change, by_restart, by_auto, by_tray,
  release_connect, release_conflict, disconnects, disconnect_forward, App, ForwardConfig, Caller,
}
use ssh_tunnel_manager.Ui.Effects.{
  same_rows, holds, Effect-spawn, Effect, Effect-refl, Effect-trans, Effect-ui, Effect-step,
  Effect-queue, Effect-call_connect, holds_by,
}
use ssh_tunnel_manager.Ui.Handlers.{is_up, clean_up, say}
use ssh_tunnel_manager.Ui.Jobs.{
  done_of, with_tasks, restart_polls, JobAnswer, queue_all, take_done, tray_clean_up, advance_job,
  auto_connect, port_polled, process_kill_ended, test_api, test_connected, tray_connect, go,
  checked, check_failed, killed, returned, looked_up, dialed, no_response, not_built, responded,
  connect_ended, report, connect_returned, port_check_failed, port_checked,
}
use ssh_tunnel_manager.Ui.Zone.{Lookups, refresh_zone}
use ssh_tunnel_manager.Ui.ZoneStatus.{zone_status-RowShows}

pub say-Effect : (msg : Text) (ok : Bool) (app : App) → Effect 0 app (say msg ok app)
unfolding set_test_result
say-Effect msg ok app = Effect-ui _ app refl refl (same_rows refl refl refl)

pub disconnect_forward-Effect : (id : Text) (app : App) → Effect 0 app (disconnect_forward id app)
disconnect_forward-Effect id app = Effect-step (disconnects id) app

connect_ended-Effect : (by : Caller) (app : App) → Effect (holds_by by) app (connect_ended by app)
connect_ended-Effect by_check app = Effect-queue release_connect app tt
connect_ended-Effect by_restart app = Effect-queue release_connect app tt
connect_ended-Effect by_kill app = Effect-queue release_conflict app tt
connect_ended-Effect by_change app = Effect-queue release_conflict app tt
connect_ended-Effect by_auto app = Effect-refl app
connect_ended-Effect by_tray app = Effect-refl app

report-Effect : (by : Caller) (e : Text) (app : App) → Effect 0 app (report by e app)
report-Effect by_check e app = say-Effect _ false app
report-Effect by_restart e app = say-Effect _ false app
report-Effect by_kill e app = Effect-queue _ app tt
report-Effect by_change e app = Effect-queue _ app tt
report-Effect by_auto e app = Effect-queue _ app tt
report-Effect by_tray e app = Effect-queue _ app tt

connect_returned-Effect :
    (by : Caller) (failure : Option Text) (app : App)
    → Effect (holds_by by) app (connect_returned by failure app)
unfolding connect_returned
connect_returned-Effect by none app = connect_ended-Effect by app
connect_returned-Effect by (some e) app =
    Effect-trans (omega arith) (report-Effect by e app) (connect_ended-Effect by _)

port_checked-Effect :
    (by : Caller) (fwd : ForwardConfig) (in_use : Bool) (process : Text) (app : App)
    → Effect (holds_by by) app (port_checked by fwd in_use process app)
unfolding port_checked
port_checked-Effect by fwd true process app =
    Effect-trans (omega arith) (Effect-queue _ app tt) (connect_ended-Effect by _)
port_checked-Effect by fwd false process app = Effect-call_connect by fwd app

port_check_failed-Effect :
    (by : Caller) (fwd : ForwardConfig) (app : App)
    → Effect (holds_by by) app (port_check_failed by fwd app)
unfolding port_check_failed
port_check_failed-Effect by_check fwd app =
    Effect-trans (omega arith) (say-Effect _ false app) (Effect-queue release_connect _ tt)
port_check_failed-Effect by_restart fwd app = Effect-call_connect by_restart fwd app
port_check_failed-Effect by_kill fwd app = connect_ended-Effect by_kill app
port_check_failed-Effect by_change fwd app = connect_ended-Effect by_change app
port_check_failed-Effect by_auto fwd app = connect_ended-Effect by_auto app
port_check_failed-Effect by_tray fwd app = connect_ended-Effect by_tray app

port_polled-Effect :
    (fwd : ForwardConfig) (i : ℕ) (in_use : Bool) (app : App)
    → Effect 0 app (port_polled fwd i in_use app)
unfolding port_polled
port_polled-Effect fwd i in_use app = elim (Bool-cases (in_use && ltb (suc i) restart_polls)) [
  | inl e ↦ rw e (Effect-spawn (polling fwd (suc i)) app)
  | inr e ↦ rw e (Effect-spawn (checking by_restart fwd) app)
]

process_kill_ended-Effect :
    (fwd : ForwardConfig) (failure : Option Text) (app : App)
    → Effect 1 app (process_kill_ended fwd failure app)
unfolding process_kill_ended
process_kill_ended-Effect fwd (some e) app = Effect-queue (kill_failed e) app tt
process_kill_ended-Effect fwd none app =
    Effect-trans (omega arith) (Effect-queue process_killed app tt)
      (Effect-call_connect by_kill fwd _)

auto_connect-Effect : (f : Option ForwardConfig) (app : App) → Effect 0 app (auto_connect f app)
auto_connect-Effect none app = Effect-refl app
auto_connect-Effect (some fwd) app = Effect-spawn (checking by_auto fwd) app

pub clean_up-Effect :
    (status : Option Status) (id : Text) (app : App) → Effect 0 app (clean_up status id app)
clean_up-Effect none id app = Effect-refl app
clean_up-Effect (some s) id app = disconnect_forward-Effect id app

tray_attempt-Effect :
    (fwd : ForwardConfig) (status : Option Status) (app : App)
    → Effect 0 app (
        if is_up status
        then disconnect_forward fwd.id app
        else spawn (checking by_tray fwd) (clean_up status fwd.id app))
tray_attempt-Effect fwd status app = elim (Bool-cases (is_up status)) [
  | inl e ↦ rw e (disconnect_forward-Effect fwd.id app)
  | inr e ↦ rw e (
      Effect-trans (omega arith) (clean_up-Effect status fwd.id app)
        (Effect-spawn (checking by_tray fwd) _))
]

tray_clean_up-Effect :
    (fwd : ForwardConfig) (status : Option Status) (app : App)
    → Effect 0 app (tray_clean_up fwd status app)
tray_clean_up-Effect fwd none app = tray_attempt-Effect fwd none app
tray_clean_up-Effect fwd (some connecting) app = Effect-refl app
tray_clean_up-Effect fwd (some running) app = tray_attempt-Effect fwd (some running) app
tray_clean_up-Effect fwd (some disconnected) app = tray_attempt-Effect fwd (some disconnected) app
tray_clean_up-Effect fwd (some port_in_use) app = tray_attempt-Effect fwd (some port_in_use) app
tray_clean_up-Effect fwd (some connection_refused) app =
    tray_attempt-Effect fwd (some connection_refused) app
tray_clean_up-Effect fwd (some auth_failed) app = tray_attempt-Effect fwd (some auth_failed) app
tray_clean_up-Effect fwd (some unreachable) app = tray_attempt-Effect fwd (some unreachable) app
tray_clean_up-Effect fwd (some stopped) app = tray_attempt-Effect fwd (some stopped) app

tray_connect-Effect : (f : Option ForwardConfig) (app : App) → Effect 0 app (tray_connect f app)
tray_connect-Effect none app = Effect-refl app
tray_connect-Effect (some fwd) app = tray_clean_up-Effect fwd _ app

test_connected-Effect : (f : Option ForwardConfig) (app : App) → Effect 0 app (test_connected f app)
test_connected-Effect none app = say-Effect _ false app
test_connected-Effect (some fwd) app =
    elim (Bool-cases (is_up (get_status app.tunnels.manager fwd.id))) [
      | inl e ↦ rw e (Effect-spawn (test_dialing fwd) app)
      | inr e ↦ rw e (say-Effect _ false app)
    ]

test_api-Effect : (app : App) → Effect 0 app (test_api app)
unfolding test_api
test_api-Effect app =
    Effect-trans (omega arith) (Effect-ui _ app refl refl (same_rows refl refl refl))
      (test_connected-Effect _ _)

queue_all-Effect :
    (l : Lookups) (gen : ℕ) (f : Option ForwardConfig) (app : App)
    → Effect 0 app (queue_all (refresh_zone l gen f) app)
unfolding refresh_zone
queue_all-Effect l gen f app = elim (Bool-cases l.supported) [
  | inl e ↦ rw e (Effect-queue _ app (zone_status-RowShows _ _))
  | inr e ↦ rw e (Effect-refl app)
]

pends-done_of :
    (ref : ℕ) (id : Text) (t : Task) (r : Option ConnectError)
    → done_of id t ≡ some r
    → pends ref t ≡ 0
pends-done_of ref id (connect_publish k) r h = absurd (none-ne-some _ h)
pends-done_of ref id t r h = refl

-- The task that is taken off is about to publish nothing.
pending-take_done :
    (ref : ℕ) (id : Text) (k : ℕ) (ts us : List Task) (r : Option ConnectError)
    → take_done id k ts ≡ some (r, us)
    → pending ref us ≡ pending ref ts
unfolding take_done
pending-take_done ref id k [] us r h = absurd (none-ne-some _ h)
pending-take_done ref id zero (t ∷ ts) us r h = elim (Option-cases (done_of id t)) [
  | inl n ↦
      let none_left : take_done id zero (t ∷ ts) ≡ none = rw (n, take_done) refl in
      absurd (none-ne-some (r, us) (sym none_left ∙ h))
  | inr (r', e) ↦
      let taken : take_done id zero (t ∷ ts) ≡ some (r', ts) = rw (e, take_done) refl in
      let same = ap (λ p. p.1) (some-injective _ _ (sym taken ∙ h)) in
      rw (← same) (omega (arith, pends-done_of ref id t r' e))
]
pending-take_done ref id (suc k) (t ∷ ts) us r h = elim (Option-cases (take_done id k ts)) [
  | inl n ↦
      let none_left : take_done id (suc k) (t ∷ ts) ≡ none = rw (n, take_done) refl in
      absurd (none-ne-some (r, us) (sym none_left ∙ h))
  | inr ((r', vs), e) ↦
      let taken : take_done id (suc k) (t ∷ ts) ≡ some (r', t ∷ vs) = rw (e, take_done) refl in
      let same = ap (λ p. p.1) (some-injective _ _ (sym taken ∙ h)) in
      rw (← same) (omega (arith, pending-take_done ref id k ts vs r' e))
]

with_tasks-Effect :
    (ts : List Task) (app : App)
    → ((ref : ℕ) → pending ref ts ≡ pending ref app.tunnels.tasks)
    → Effect 0 app (with_tasks ts app)
with_tasks-Effect ts app h = record {
  busy_kept = refl;
  held = omega arith;
  sound_kept = λ s. record {
    tunnels_inv = record {
      manager_inv = s.tunnels_inv.manager_inv;
      owned = λ ref. rw (h ref) (s.tunnels_inv.owned ref);
    };
    resolver_synced = s.resolver_synced;
    rows_ok = s.rows_ok;
  };
  protection_kept = refl;
}

pub files-Effect : (fs : FileSystem) (app : App) → Effect 0 app (record app { files = fs })
files-Effect fs app = record {
  busy_kept = refl;
  held = omega arith;
  sound_kept = λ s. record {
    tunnels_inv = s.tunnels_inv;
    resolver_synced = s.resolver_synced;
    rows_ok = s.rows_ok;
  };
  protection_kept = refl;
}

connects_to-Effect :
    (by : Caller) (fwd : ForwardConfig) (k : ℕ) (wording : ConnectError → Text) (app : App)
    → Effect (holds_by by) app (advance_job (connects_to by fwd) (returned k wording) app)
unfolding advance_job
connects_to-Effect by fwd k wording app =
    elim (Option-cases (take_done fwd.id k app.tunnels.tasks)) [
      | inl n ↦ rw (n, advance_job) (Effect-spawn (connects_to by fwd) app)
      | inr ((r, ts), e) ↦
          rw (e, advance_job)
            (Effect-trans (omega arith)
              (with_tasks-Effect ts app (λ ref. pending-take_done ref fwd.id k _ ts r e))
              (connect_returned-Effect by _ _))
    ]

-- A step of a goroutine gives its share of `conflictBusy` on, and no more.
pub advance_job-Effect :
    (job : Job) (answer : JobAnswer) (app : App)
    → Effect (holds job) app (advance_job job answer app)
unfolding advance_job
advance_job-Effect auto_start go app = auto_connect-Effect _ app
advance_job-Effect tray_start go app = tray_connect-Effect _ app
advance_job-Effect test_start go app = test_api-Effect app
advance_job-Effect (restart_start fwd) go app =
    Effect-trans (omega arith) (disconnect_forward-Effect fwd.id app)
      (Effect-spawn (polling fwd 0) _)
advance_job-Effect (checking by fwd) (checked in_use process) app =
    port_checked-Effect by fwd in_use process app
advance_job-Effect (checking by fwd) check_failed app = port_check_failed-Effect by fwd app
advance_job-Effect (polling fwd i) (checked in_use process) app =
    port_polled-Effect fwd i in_use app
advance_job-Effect (polling fwd i) check_failed app = Effect-spawn (checking by_restart fwd) app
advance_job-Effect (killing fwd) (killed failure) app = process_kill_ended-Effect fwd failure app
advance_job-Effect (connects_to by fwd) (returned k wording) app =
    connects_to-Effect by fwd k wording app
advance_job-Effect (refreshing gen forward) (looked_up l) app = queue_all-Effect l gen forward app
advance_job-Effect (zone_acting action) (looked_up l) app =
    Effect-trans (omega arith) (files-Effect _ app) (Effect-queue _ _ tt)
advance_job-Effect (test_dialing fwd) (dialed none) app = Effect-spawn (test_requesting _) app
advance_job-Effect (test_dialing fwd) (dialed (some e)) app = say-Effect _ false app
advance_job-Effect (test_requesting request) (not_built e) app = say-Effect _ false app
advance_job-Effect (test_requesting request) (no_response e) app = say-Effect _ false app
advance_job-Effect (test_requesting request) (responded code body) app = say-Effect _ _ app
advance_job-Effect job answer app = Effect-spawn job app
