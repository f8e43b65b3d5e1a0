-- ===== src/Manager/Tasks.antt =====
-- ssh.go: the goroutines. A `Task` is a goroutine (or a call of `Connect`) at the point where it next
-- touches the shared state or waits; `advance` runs it up to the next such point. What the network,
-- the clock and the operating system answer is in `Answer`.
use ssh_tunnel_manager.Common.{
  ℕ, zero, suc, Bool, true, false, ◌&&◌, List, [], ◌∷◌, Option, none, some, Text, ℤ, ltb,
  is_positive, rounds, if◌then◌else◌, length,
}
use ssh_tunnel_manager.Common.Maps.{lookup}
use ssh_tunnel_manager.Config.{ForwardConfig}
use ssh_tunnel_manager.Manager.{
  SshManager, SshConn, get_conn, is_tracked, is_alive, kill, ConnectError, already_exists,
  resolve_failed, dial_failed, pipe_failed, start_failed, start_conn, publish_conn, confirm_running,
  heartbeat_current, notify_status, connecting,
}
use ssh_tunnel_manager.Manager.Sections.{
  handle_process_exit, Verdict, retire, keep, restart, heartbeat_decide, clear_stderr, start_again,
  republish, give_up,
}
use ssh_tunnel_manager.Resolve.{Net, target, unresolved, resolve_connect_target, fresh_ips}
use ssh_tunnel_manager.SshCommand.{Command, build_ssh_command, attach_password_pipe, is_empty}

-- The variables of the loop of `autoReconnect` that do not change: `retry_interval` in seconds.
pub record Retry : Type 0 where
  pub id : Text
  pub ref : ℕ
  pub ddns_triggered : Bool
  pub max_retries : ℕ
  pub retry_interval : ℤ

pub data Task : Type 0 where
  -- `Connect`, and its result.
  connect_check connect_resolve : ForwardConfig → Task
  connect_dial connect_start : ForwardConfig → Text → Text → Task
  connect_publish : ℕ → Task
  connect_notify : Text → Task
  connect_done : Text → Option ConnectError → Task
  -- `monitorProcess`: before its snapshot, in the confirmation window, before the section that
  -- publishes "running", waiting for the exit, before the test of `StopCh`, before
  -- `handleProcessExit`; and the wait for the exit of a conn that was stopped in the window.
  monitor : Text → Task
  monitor_window monitor_confirm monitor_running : Text → ℕ → ℕ → Task
  monitor_exited monitor_exit : Text → ℕ → Task
  monitor_drain : ℕ → Task
  -- The goroutine of `startDDNSMonitor`: waiting for the ticker, in the network call, before its second
  -- section, before the kill.
  heartbeat : ℕ → Text → ℕ → Task
  heartbeat_query : ℕ → Text → ℕ → Text → Task
  heartbeat_checked : ℕ → Text → ℕ → Text → List Text → Task
  heartbeat_kill : ℕ → Task
  -- `autoReconnect`: before its snapshot, at the head of round `i`, before the test of `StopCh`, in the
  -- network call, before the start, before the publication, after the last round.
  reconnect : Text → Bool → Task
  retry_wait retry_stop retry_resolve : Retry → ℕ → Task
  retry_start : Retry → ℕ → Text → Text → Task
  retry_publish : Retry → ℕ → Text → Task
  retry_exhausted : Text → Task

pub data Part : Type 0 where
  connect_part monitor_part heartbeat_part retry_part : Part

-- The function of the source that a task is in.
abbrev pub part_of : Task → Part
part_of (monitor _) = monitor_part
part_of (monitor_window _ _ _) = monitor_part
part_of (monitor_confirm _ _ _) = monitor_part
part_of (monitor_running _ _ _) = monitor_part
part_of (monitor_exited _ _) = monitor_part
part_of (monitor_exit _ _) = monitor_part
part_of (monitor_drain _) = monitor_part
part_of (heartbeat _ _ _) = heartbeat_part
part_of (heartbeat_query _ _ _ _) = heartbeat_part
part_of (heartbeat_checked _ _ _ _ _) = heartbeat_part
part_of (heartbeat_kill _) = heartbeat_part
part_of (reconnect _ _) = retry_part
part_of (retry_wait _ _) = retry_part
part_of (retry_stop _ _) = retry_part
part_of (retry_resolve _ _) = retry_part
part_of (retry_start _ _ _ _) = retry_part
part_of (retry_publish _ _ _) = retry_part
part_of (retry_exhausted _) = retry_part
part_of _ = connect_part

-- What a task waits for. `go` lets a task run that waits for nothing.
pub data Answer : Type 0 where
  go : Answer
  stop_received exit_received timer_fired : Answer
  network : Net → Answer
  dialed : Bool → Answer
  -- Whether the pipe and the start work, and `knownHostsPath()`.
  started : Bool → Bool → Text → Answer

-- The command of a tunnel, with the password pipe that a password wants.
unfoldable pub prepare : Bool → Text → ForwardConfig → Text → Option Command
unfolding build_ssh_command attach_password_pipe
prepare pipe_works known_hosts cfg host =
    let cmd = build_ssh_command known_hosts cfg host in
    if is_empty cfg.ssh_password
    then some cmd
    else attach_password_pipe pipe_works cmd cfg.ssh_password

-- A read through a pointer; `none` would be a pointer that leads nowhere.
unfoldable pub with_conn :
    SshManager → ℕ → (SshConn → SshManager × List Task) → SshManager × List Task
with_conn m ref k = elim (get_conn m ref) [ none ↦ (m, []) | some c ↦ k c ]

-- `sshConn, exists := m.conns[id]`, and a return when it is not there.
unfoldable pub with_tracked :
    SshManager → Text → (ℕ → SshConn → SshManager × List Task) → SshManager × List Task
unfolding with_conn
with_tracked m id k = elim (lookup id m.conns) [
  | none ↦ (m, [])
  | some ref ↦ with_conn m ref (k ref)
]

abbrev connect_failed : ForwardConfig → ConnectError → List Task
connect_failed cfg e = connect_done cfg.id (some e) ∷ []

abbrev pub published_tasks : Text → Option ConnectError → List Task
published_tasks id none = connect_notify id ∷ []
published_tasks id (some e) = connect_done id (some e) ∷ []

unfoldable pub advance_connect : Task → Answer → SshManager → SshManager × List Task
advance_connect (connect_check cfg) go m =
    (m, if is_tracked m cfg.id then connect_failed cfg already_exists else connect_resolve cfg ∷ [])
advance_connect (connect_resolve cfg) (network net) m = (
  m,
  elim (resolve_connect_target net cfg.remote_host) [
    | target host ip ↦ connect_dial cfg host ip ∷ []
    | unresolved _ ↦ connect_failed cfg resolve_failed
  ],
)
advance_connect (connect_dial cfg host ip) (dialed reachable) m =
    (m, if reachable then connect_start cfg host ip ∷ [] else connect_failed cfg dial_failed)
advance_connect (connect_start cfg host ip) (started pipe_works start_works known_hosts) m =
    elim (prepare pipe_works known_hosts cfg host) [
      | none ↦ (m, connect_failed cfg pipe_failed)
      | some cmd ↦
          if start_works
          then (start_conn cfg cmd ip m, connect_publish (length m.heap) ∷ [])
          else (m, connect_failed cfg start_failed)
    ]
advance_connect (connect_publish ref) go m =
    with_conn m ref
      λ c. let (m', failure) = publish_conn ref c m in (m', published_tasks c.config.id failure)
advance_connect (connect_notify id) go m =
    (notify_status id connecting m, connect_done id none ∷ monitor id ∷ [])
advance_connect t _ m = (m, t ∷ [])

-- The tasks after the section that publishes "running".
abbrev pub confirmed : Text → ℕ → SshConn → ℕ → ℕ → List Task
confirmed id ref c p zero = []
confirmed id ref c p (suc n) =
    heartbeat ref c.config.remote_host (suc n) ∷ monitor_running id ref p ∷ []

abbrev pub exit_tasks : Text → Option Bool → List Task
exit_tasks id none = []
exit_tasks id (some ddns_triggered) = reconnect id ddns_triggered ∷ []

unfoldable pub advance_monitor : Task → Answer → SshManager → SshManager × List Task
advance_monitor (monitor id) go m =
    with_tracked m id λ ref c. (m, monitor_window id ref c.process ∷ [])
advance_monitor (monitor_window id ref p) stop_received m =
    with_conn m ref
      λ c. (m, if c.stop_closed then monitor_drain p ∷ [] else monitor_window id ref p ∷ [])
advance_monitor (monitor_window id ref p) exit_received m =
    (m, if is_alive m p then monitor_window id ref p ∷ [] else monitor_exited id ref ∷ [])
advance_monitor (monitor_window id ref p) timer_fired m = (m, monitor_confirm id ref p ∷ [])
advance_monitor (monitor_confirm id ref p) go m =
    with_conn m ref
      λ c. let (m', gen) = confirm_running id ref c m in (m', confirmed id ref c p gen)
advance_monitor (monitor_running id ref p) exit_received m =
    (m, if is_alive m p then monitor_running id ref p ∷ [] else monitor_exited id ref ∷ [])
advance_monitor (monitor_exited id ref) go m =
    with_conn m ref λ c. (m, if c.stop_closed then [] else monitor_exit id ref ∷ [])
advance_monitor (monitor_exit id ref) go m =
    with_conn m ref
      λ c. let (m', again) = handle_process_exit id ref c m in (m', exit_tasks id again)
advance_monitor (monitor_drain p) exit_received m =
    (m, if is_alive m p then monitor_drain p ∷ [] else [])
advance_monitor t _ m = (m, t ∷ [])

abbrev pub verdict_tasks : Task → Verdict → List Task
verdict_tasks waiting retire = []
verdict_tasks waiting keep = waiting ∷ []
verdict_tasks waiting (restart p) = heartbeat_kill p ∷ []

unfoldable pub advance_heartbeat : Task → Answer → SshManager → SshManager × List Task
advance_heartbeat (heartbeat ref host gen) stop_received m =
    with_conn m ref λ c. (m, if c.stop_closed then [] else heartbeat ref host gen ∷ [])
advance_heartbeat (heartbeat ref host gen) timer_fired m =
    with_conn m ref λ c.
      (m, if heartbeat_current c gen then heartbeat_query ref host gen c.current_ip ∷ [] else [])
advance_heartbeat (heartbeat_query ref host gen ip) (network net) m = (
  m,
  elim (fresh_ips net host) [
    | none ↦ heartbeat ref host gen ∷ []
    | some ips ↦ heartbeat_checked ref host gen ip ips ∷ []
  ],
)
advance_heartbeat (heartbeat_checked ref host gen ip ips) go m = with_conn m ref λ c.
    let (m', verdict) = heartbeat_decide ref c gen ip ips m in
    (m', verdict_tasks (heartbeat ref host gen) verdict)
advance_heartbeat (heartbeat_kill p) go m = (kill p m, [])
advance_heartbeat t _ m = (m, t ∷ [])

-- `maxRetries` and `retryInterval`, with the defaults for values that are not positive.
unfoldable pub retry_of : Text → ℕ → SshConn → Bool → Retry
retry_of id ref c ddns_triggered = record {
  id = id;
  ref = ref;
  ddns_triggered = ddns_triggered;
  max_retries = if is_positive c.config.max_retries then rounds c.config.max_retries else 3;
  retry_interval = if is_positive c.config.retry_interval then c.config.retry_interval else ℤ.pos 5;
}

abbrev is_zero : ℕ → Bool
is_zero zero = true
is_zero (suc n) = false

-- The head of the loop: round `i` begins if it is below the bound. The first round of a restart
-- that the heartbeat asked for does not wait.
unfoldable pub round : Retry → ℕ → Task
round r i =
    if ltb i r.max_retries
    then (if r.ddns_triggered && is_zero i then retry_stop r i else retry_wait r i)
    else retry_exhausted r.id

unfoldable pub advance_retry : Task → Answer → SshManager → SshManager × List Task
advance_retry (reconnect id ddns_triggered) go m =
    with_tracked m id λ ref c. (m, round (retry_of id ref c ddns_triggered) 0 ∷ [])
advance_retry (retry_wait r i) timer_fired m = (m, retry_stop r i ∷ [])
advance_retry (retry_stop r i) go m =
    with_conn m r.ref λ c. (m, if c.stop_closed then [] else retry_resolve r i ∷ [])
advance_retry (retry_resolve r i) (network net) m = with_conn m r.ref λ c. (
  m,
  elim (resolve_connect_target net c.config.remote_host) [
    | target host ip ↦ retry_start r i host ip ∷ []
    | unresolved _ ↦ round r (suc i) ∷ []
  ],
)
advance_retry (retry_start r i host ip) (started pipe_works start_works known_hosts) m =
    with_conn m r.ref λ c.
      let cleared = clear_stderr r.ref c m in
      elim (prepare pipe_works known_hosts c.config host) [
        | none ↦ (cleared, round r (suc i) ∷ [])
        | some cmd ↦
            if start_works
            then (let (m', p) = start_again r.ref cmd cleared in (m', retry_publish r p ip ∷ []))
            else (cleared, round r (suc i) ∷ [])
      ]
advance_retry (retry_publish r p ip) go m = with_conn m r.ref λ c.
    let (m', published) = republish r.id r.ref c p ip m in
    (m', if published then monitor r.id ∷ [] else [])
advance_retry (retry_exhausted id) go m = (give_up id m, [])
advance_retry t _ m = (m, t ∷ [])

-- One step of a task. A task whose answer is another than the one it waits for goes on waiting.
unfoldable pub advance : Task → Answer → SshManager → SshManager × List Task
unfolding advance_connect advance_monitor advance_heartbeat advance_retry
advance t a m = elim (part_of t) [
  | connect_part ↦ advance_connect t a m
  | monitor_part ↦ advance_monitor t a m
  | heartbeat_part ↦ advance_heartbeat t a m
  | retry_part ↦ advance_retry t a m
]
