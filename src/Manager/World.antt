-- ===== src/Manager/World.antt =====
-- ssh.go: the manager with all of its goroutines, as a step function over a schedule.
use ssh_tunnel_manager.Common.{ℕ, zero, suc, List, [], ◌∷◌, ◌++◌, Text, ℤ, Bool}
use ssh_tunnel_manager.Config.{ForwardConfig}
use ssh_tunnel_manager.Manager.{
  SshManager, Callback, new_ssh_manager, dispatch, kill, write_stderr, set_ddns_check_interval,
  set_on_status_change, set_on_terminal_failure,
}
use ssh_tunnel_manager.Manager.Sections.{disconnect, disconnect_all}
use ssh_tunnel_manager.Manager.Tasks.{Task, Answer, advance, connect_check}

pub record World : Type 0 where
  pub manager : SshManager
  pub tasks : List Task
  pub called : List Callback

pub data Event : Type 0 where
  -- Goroutine `k` goes on.
  runs : ℕ → Answer → Event
  -- The calls of the UI and of main.
  connects : ForwardConfig → Event
  disconnects : Text → Event
  disconnects_all : Event
  sets_interval : ℤ → Event
  registers : Bool → Bool → Event
  -- The dispatcher of `NewSSHManager`.
  dispatches : Event
  -- The ssh processes.
  exits : ℕ → Event
  writes : ℕ → Text → Event

-- Task `k` runs and is replaced by the tasks that it leaves; the other tasks stay.
unfoldable pub run_task : ℕ → Answer → SshManager → List Task → SshManager × List Task
unfolding advance
run_task k a m [] = (m, [])
run_task zero a m (t ∷ ts) = let (m', after) = advance t a m in (m', after ++ ts)
run_task (suc k) a m (t ∷ ts) = let (m', after) = run_task k a m ts in (m', t ∷ after)

unfoldable pub step : World → Event → World
unfolding run_task dispatch kill write_stderr set_ddns_check_interval set_on_status_change
    set_on_terminal_failure
step w (runs k a) =
    let (m', ts) = run_task k a w.manager w.tasks in record w { manager = m'; tasks = ts }
step w (connects cfg) = record w { tasks = connect_check cfg ∷ w.tasks }
step w (disconnects id) = record w { manager = (disconnect id w.manager).0 }
step w disconnects_all = record w { manager = disconnect_all w.manager }
step w (sets_interval d) = record w { manager = set_ddns_check_interval d w.manager }
step w (registers status terminal) = record w {
  manager = set_on_terminal_failure terminal (set_on_status_change status w.manager);
}
step w dispatches =
    let (m', calls) = dispatch w.manager in record w { manager = m'; called = w.called ++ calls }
step w (exits p) = record w { manager = kill p w.manager }
step w (writes ref bytes) = record w { manager = write_stderr ref bytes w.manager }

unfoldable pub run : World → List Event → World
unfolding step
run w [] = w
run w (e ∷ es) = run (step w e) es

unfoldable pub start : World
unfolding new_ssh_manager
start = record { manager = new_ssh_manager; tasks = []; called = [] }
