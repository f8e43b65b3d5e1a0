-- ===== src/Manager/Reachable.antt =====
-- The invariant of ssh.go's manager after any schedule of its goroutines, of the calls of the UI and
-- of what the ssh processes do.
use mathlib.Core.Option.{none-ne-some}
use native.Mathlib.Decide.{ℕ_discrete}
use ssh_tunnel_manager.Common.{
  false, sym, zero, ◌+◌, suc, ◌∷◌, ℕ, ◌≤◌, ◌≡◌, ◌≢◌, ◌∙◌, refl, inl, inr, List, [], none, some,
  Option, Text, arith, Bool-cases, Option-cases,
}
use ssh_tunnel_manager.Common.Maps.{lookup-nil}
use ssh_tunnel_manager.Manager.{notify_status, connecting, Callback, ConnectError, SshManager}
use ssh_tunnel_manager.Manager.Fresh.{
  Change-Owned, Keeps-Owned, IsFresh, Owned, Change, kept, dropped, Keeps-Change, start_conn-Change,
  publish_conn-IsFresh, publish_conn-Inv,
}
use ssh_tunnel_manager.Manager.Invariant.{Inv, Keeps-Inv}
use ssh_tunnel_manager.Manager.Keeps.{
  notify_status_kind-Keeps, kill-Keeps, Keeps-same, Keeps, Keeps-refl, start_conn-Keeps,
}
use ssh_tunnel_manager.Manager.Pool.{
  pending-append, pends, pending, with_conn_lem, pending-advance_monitor, pending-advance_heartbeat,
  pending-advance_retry,
}
use ssh_tunnel_manager.Manager.Preserve.{
  write_stderr-Keeps, dispatch-Keeps, disconnect_all-Keeps, disconnect-Keeps,
}
use ssh_tunnel_manager.Manager.Steps.{
  advance_monitor-Keeps, advance_heartbeat-Keeps, advance_retry-Keeps,
}
use ssh_tunnel_manager.Manager.Tasks.{
  connect_notify, published_tasks, advance_monitor, advance_heartbeat, advance_retry, Task, Answer,
  go, network, dialed, started, connect_check, connect_resolve, connect_dial, connect_start,
  connect_publish, advance_connect, advance, prepare, Part, part_of, connect_part, monitor_part,
  heartbeat_part, retry_part,
}
use ssh_tunnel_manager.Manager.World.{
  dispatches, disconnects_all, writes, exits, registers, sets_interval, disconnects, connects, runs,
  Event, run, run_task, start, step, World,
}

-- What one step of a task does.
record IsStep (m : SshManager) (t : Task) (r : SshManager × List Task) : Type 0 where
  change : (ref : ℕ) → Change m r.0 ref (pends ref t) (pending ref r.1)
  inv : ((ref : ℕ) → 1 ≤ pends ref t → IsFresh m ref) → Inv r.0

-- Steps that publish nothing.
IsStep-of_Keeps :
    (m : SshManager) (t : Task) (r : SshManager × List Task)
    → Inv m
    → Keeps m r.0
    → ((ref : ℕ) → pending ref r.1 ≡ pends ref t)
    → IsStep m t r
IsStep-of_Keeps m t r v k e = record {
  change = λ ref. Keeps-Change k (e ref);
  inv = λ _. Keeps-Inv k v;
}

module _ (m : SshManager) (v : Inv m) where
  -- A conn that nobody else is about to publish, with the tasks that its publication leaves.
  publish-IsStep :
      (r : ℕ) (m' : SshManager) (ts : List Task)
      → ((ref : ℕ) → r ≢ ref → IsFresh m ref → IsFresh m' ref)
      → ((ref : ℕ) → pending ref ts ≡ 0)
      → (IsFresh m r → Inv m')
      → IsStep m (connect_publish r) (m', ts)
  publish-IsStep r m' ts others zeros published = record {
    change = λ ref. elim (ℕ_discrete r ref) [
      | yes p ↦ dropped (ground arith) (zeros ref)
      | no p ↦ kept (zeros ref ∙ ground arith) (others ref p)
    ];
    inv = λ f. published (f r (ground arith));
  }

  pending-published_tasks :
      (ref : ℕ) (id : Text) (failure : Option ConnectError)
      → pending ref (published_tasks id failure) ≡ 0
  pending-published_tasks ref id none = refl
  pending-published_tasks ref id (some e) = refl

  advance_connect-IsStep : (t : Task) (a : Answer) → IsStep m t (advance_connect t a m)
  unfolding advance_connect
  advance_connect-IsStep (connect_check cfg) go =
      IsStep-of_Keeps m _ _ v (Keeps-refl m) (λ ref. ground arith)
  advance_connect-IsStep (connect_resolve cfg) (network net) =
      IsStep-of_Keeps m _ _ v (Keeps-refl m) (λ ref. ground arith)
  advance_connect-IsStep (connect_dial cfg host ip) (dialed reachable) =
      IsStep-of_Keeps m _ _ v (Keeps-refl m) (λ ref. ground arith)
  advance_connect-IsStep (connect_start cfg host ip) (started pipe start_works known) =
      elim (Option-cases (prepare pipe known cfg host)) [
        | inl n ↦ rw (n, advance_connect) (IsStep-of_Keeps m _ _ v (Keeps-refl m) (λ ref. refl))
        | inr (cmd, e) ↦
            rw (e, advance_connect)
              (elim (Bool-cases start_works) [
                | inl y ↦ rw y (record {
                  change = λ ref. start_conn-Change cfg cmd ip m ref v;
                  inv = λ _. Keeps-Inv (start_conn-Keeps cfg cmd ip m) v;
                })
                | inr f ↦ rw f (IsStep-of_Keeps m _ _ v (Keeps-refl m) (λ ref. refl))
              ])
      ]
  advance_connect-IsStep (connect_publish r) go =
      with_conn_lem m (IsStep m (connect_publish r))
        (publish-IsStep r m [] (λ ref ne f. f) (λ ref. refl) (λ f. v)) r _
        (λ c e.
          publish-IsStep r _ _ (λ ref ne. publish_conn-IsFresh r ref c m ne)
            (λ ref. pending-published_tasks ref c.config.id _) (λ f. publish_conn-Inv r c m e f v))
  advance_connect-IsStep (connect_notify id) go =
      IsStep-of_Keeps m _ _ v
        (unfold notify_status in notify_status_kind-Keeps id connecting false m) (λ ref. refl)
  advance_connect-IsStep t a = IsStep-of_Keeps m _ _ v (Keeps-refl m) (λ ref. omega arith)

  advance-IsStep : (t : Task) (a : Answer) → IsStep m t (advance t a m)
  unfolding advance
  advance-IsStep t a = by_part (part_of t)
    where
      by_part :
          (p : Part)
          → IsStep m t (elim p [
            | connect_part ↦ advance_connect t a m
            | monitor_part ↦ advance_monitor t a m
            | heartbeat_part ↦ advance_heartbeat t a m
            | retry_part ↦ advance_retry t a m
          ])
      by_part connect_part = advance_connect-IsStep t a
      by_part monitor_part =
          IsStep-of_Keeps m t _ v (advance_monitor-Keeps m t a)
            (λ ref. pending-advance_monitor ref m t a)
      by_part heartbeat_part =
          IsStep-of_Keeps m t _ v (advance_heartbeat-Keeps m t a)
            (λ ref. pending-advance_heartbeat ref m t a)
      by_part retry_part =
          IsStep-of_Keeps m t _ v (advance_retry-Keeps m t a)
            (λ ref. pending-advance_retry ref m t a)

-- The invariant of the manager together with its goroutines.
pub record WorldInv (w : World) : Type 0 where
  pub manager_inv : Inv w.manager
  pub owned : (ref : ℕ) → Owned w.manager ref (pending ref w.tasks)

Owned-eq : {m : SshManager} {ref n n' : ℕ} → n ≡ n' → Owned m ref n → Owned m ref n'
Owned-eq e (inl z) = inl (omega arith)
Owned-eq e (inr (o, f)) = inr (omega arith, f)

run_task-Owned :
    (k : ℕ) (a : Answer) (m : SshManager) (ts : List Task) (ref rest : ℕ)
    → Inv m
    → Owned m ref (pending ref ts + rest)
    → Owned (run_task k a m ts).0 ref (pending ref (run_task k a m ts).1 + rest)
unfolding run_task
run_task-Owned k a m [] ref rest v o = o
run_task-Owned zero a m (t ∷ ts) ref rest v o =
    Owned-eq (omega (arith, pending-append ref (advance t a m).1 ts)) (
      Change-Owned (pending ref ts + rest) ((advance-IsStep m v t a).change ref)
        (Owned-eq (omega arith) o))
run_task-Owned (suc k) a m (t ∷ ts) ref rest v o =
    Owned-eq (omega arith)
      (run_task-Owned k a m ts ref (pends ref t + rest) v (Owned-eq (omega arith) o))

run_task-Inv :
    (k : ℕ) (a : Answer) (m : SshManager) (ts : List Task)
    → Inv m
    → ((ref : ℕ) → 1 ≤ pending ref ts → IsFresh m ref)
    → Inv (run_task k a m ts).0
unfolding run_task
run_task-Inv k a m [] v f = v
run_task-Inv zero a m (t ∷ ts) v f = (advance-IsStep m v t a).inv (λ ref h. f ref (omega arith))
run_task-Inv (suc k) a m (t ∷ ts) v f = run_task-Inv k a m ts v (λ ref h. f ref (omega arith))

Owned-IsFresh : {m : SshManager} {ref n : ℕ} → Owned m ref n → 1 ≤ n → IsFresh m ref
Owned-IsFresh (inl z) h = absurd (omega arith)
Owned-IsFresh (inr (o, f)) h = f

Keeps-WorldInv :
    {m m' : SshManager} {ts : List Task} (calls calls' : List Callback)
    → Keeps m m'
    → WorldInv (record { manager = m; tasks = ts; called = calls })
    → WorldInv (record { manager = m'; tasks = ts; called = calls' })
Keeps-WorldInv calls calls' k v = record {
  manager_inv = Keeps-Inv k v.manager_inv;
  owned = λ ref. Keeps-Owned k (v.owned ref);
}

pub step-WorldInv : (w : World) (e : Event) → WorldInv w → WorldInv (step w e)
unfolding step
step-WorldInv w (runs k a) v = record {
  manager_inv =
      run_task-Inv k a w.manager w.tasks v.manager_inv (λ ref. Owned-IsFresh (v.owned ref));
  owned = λ ref. Owned-eq (omega arith) (
      run_task-Owned k a w.manager w.tasks ref 0 v.manager_inv
        (Owned-eq (omega arith) (v.owned ref)));
}
step-WorldInv w (connects cfg) v = record {
  manager_inv = v.manager_inv;
  owned = λ ref. Owned-eq (omega arith) (v.owned ref);
}
step-WorldInv w (disconnects id) v =
    Keeps-WorldInv w.called w.called (disconnect-Keeps id w.manager) v
step-WorldInv w disconnects_all v =
    Keeps-WorldInv w.called w.called (disconnect_all-Keeps w.manager) v
step-WorldInv w (sets_interval d) v =
    Keeps-WorldInv w.called w.called (Keeps-same refl refl (λ h. h)) v
step-WorldInv w (registers s t) v =
    Keeps-WorldInv w.called w.called (Keeps-same refl refl (λ h. h)) v
step-WorldInv w dispatches v = Keeps-WorldInv w.called _ (dispatch-Keeps w.manager) v
step-WorldInv w (exits p) v = Keeps-WorldInv w.called w.called (kill-Keeps p w.manager) v
step-WorldInv w (writes ref bytes) v =
    Keeps-WorldInv w.called w.called (write_stderr-Keeps ref bytes w.manager) v

pub start-WorldInv : WorldInv start
unfolding start
start-WorldInv = record {
  manager_inv = record {
    tracked = λ id ref h. absurd (none-ne-some ref (sym (lookup-nil id) ∙ h));
    bounded = omega arith;
  };
  owned = λ ref. inl refl;
}

run-WorldInv : (w : World) (es : List Event) → WorldInv w → WorldInv (run w es)
unfolding run
run-WorldInv w [] v = v
run-WorldInv w (e ∷ es) v = run-WorldInv (step w e) es (step-WorldInv w e v)

-- After any schedule, whatever the network answers and the ssh processes do, each forward of the map
-- leads to a conn that was built for it, whose stop channel is open and whose status is not "stopped";
-- and the notification channel is within its capacity.
pub run-start-Inv : (es : List Event) → Inv (run start es).manager
run-start-Inv es = (run-WorldInv start es start-WorldInv).manager_inv
