-- ===== src/Instance.antt =====
-- singleinstance_unix.go, with the use of it in main.go: the lock file, and the socket that wakes the
-- running instance. Processes are numbers.
pub mod Single
use mathlib.Core.Option.{none-ne-some}
use mathlib.Core.Path.{subst}
use ssh_tunnel_manager.Common.{
  sym, ◌∙◌, Option-cases, ap, ℕ, zero, suc, ◌≤◌, ◌≡◌, refl, arith, Bool, true, false, List, [], ◌∷◌,
  Option, none, some, ◌==◌, if◌then◌else◌, length, Bool-cases, inl, inr,
}

pub data LockError : Type 0 where
  no_config_dir dir_not_created lock_not_opened already_running : LockError

-- Whether the directory is known, can be made, and the lock file can be opened.
pub record Attempt : Type 0 where
  pub dir_known : Bool
  pub creates : Bool
  pub opens : Bool

-- `lock`: who holds the flock; `socket`: who listens; `show_ch`: the channel of that process is full.
pub record Machine : Type 0 where
  pub lock : Option ℕ
  pub socket : Option ℕ
  pub show_ch : Bool
  pub instances : List ℕ

unfoldable pub acquire_single_instance_lock : Attempt → ℕ → Machine → Machine × Option LockError
acquire_single_instance_lock a p m =
    if a.dir_known
    then (if a.creates
        then (if a.opens
            then elim m.lock [
              | none ↦ (record m { lock = some p }, none)
              | some holder ↦ (m, some already_running)
            ]
            else (m, some lock_not_opened))
        else (m, some dir_not_created))
    else (m, some no_config_dir)

-- `notifyRunningInstance`, with the send that the listener makes and gives up when the channel is full.
unfoldable pub notify_running_instance : Machine → Machine × Bool
notify_running_instance m = elim m.socket [
  | none ↦ (m, false)
  | some p ↦ (record m { show_ch = true }, true)
]

pub data Launched : Type 0 where
  runs woke_other : Launched
  refused : LockError → Launched

abbrev pub poked : LockError → Machine × Bool → Machine × Launched
poked e (m, true) = (m, woke_other)
poked e (m, false) = (m, refused e)

abbrev pub acquired : ℕ → Machine × Option LockError → Machine × Launched
acquired p (m, none) = (record m { instances = p ∷ m.instances }, runs)
acquired p (m, some e) = poked e (notify_running_instance m)

-- The first lines of `main`.
unfoldable pub launch_instance : Attempt → ℕ → Machine → Machine × Launched
unfolding acquire_single_instance_lock notify_running_instance
launch_instance a p m = acquired p (acquire_single_instance_lock a p m)

-- `listenForShowRequests` of the holder of the lock.
unfoldable pub listen_for_show_requests : Bool → Machine → Machine
listen_for_show_requests works m = record m { socket = if works then m.lock else none }

abbrev pub without : ℕ → List ℕ → List ℕ
without p [] = []
without p (q ∷ qs) = elim (p == q) [ true ↦ without p qs | false ↦ q ∷ without p qs ]

abbrev pub unless : ℕ → Option ℕ → Option ℕ
unless p none = none
unless p (some q) = if p == q then none else some q

-- The end of a process, by `quitProcess` or a crash: the system takes the lock and the listener back.
unfoldable pub end_process : ℕ → Machine → Machine
end_process p m = record m {
  lock = unless p m.lock;
  socket = unless p m.socket;
  instances = without p m.instances;
}

pub data MachineEvent : Type 0 where
  launches : Attempt → ℕ → MachineEvent
  listens : Bool → MachineEvent
  ends : ℕ → MachineEvent
  shows : MachineEvent

unfoldable pub machine_step : Machine → MachineEvent → Machine
unfolding launch_instance listen_for_show_requests end_process
machine_step m (launches a p) = (launch_instance a p m).0
machine_step m (listens works) = listen_for_show_requests works m
machine_step m (ends p) = end_process p m
machine_step m shows = record m { show_ch = false }

unfoldable pub machine_run : Machine → List MachineEvent → Machine
unfolding machine_step
machine_run m [] = m
machine_run m (e ∷ es) = machine_run (machine_step m e) es

unfoldable pub no_instance : Machine
no_instance = record { lock = none; socket = none; show_ch = false; instances = [] }
