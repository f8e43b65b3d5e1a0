-- ===== src/Manager/Sections.antt =====
-- ssh.go: the sections under the lock that end a process, restart it or remove a conn.
use ssh_tunnel_manager.Common.{
  ℕ, Bool, true, false, not, ◌&&◌, List, [], ◌∷◌, Option, none, some, Text, equal, ◌==◌,
  if◌then◌else◌, any, length,
}
use ssh_tunnel_manager.Common.Maps.{lookup, erase, keys}
use ssh_tunnel_manager.Manager.{
  SshManager, SshConn, connecting, disconnected, stopped, get_conn, put_conn, kill, notify_status,
  notify_status_kind, notify_terminal_status, is_tracked, heartbeat_current, classify,
  start_process,
}
use ssh_tunnel_manager.SshCommand.{Command}

-- `handleProcessExit`, with the flag `ddnsTriggered` of the `autoReconnect` that it starts, if it
-- starts one.
unfoldable pub handle_process_exit : Text → ℕ → SshConn → SshManager → SshManager × Option Bool
unfolding notify_status_kind
handle_process_exit id ref c m =
    if not (is_tracked m id)
    then (m, none)
    else (let (status, should_reconnect) = classify c.stderr in
        let reconnect_coming = should_reconnect && c.config.auto_reconnect in
        let restart = if reconnect_coming then false else c.ddns_restart in
        let m' =
          notify_status_kind id status (not reconnect_coming)
            (put_conn ref (record c { status = status; ddns_restart = restart }) m) in
        (m', if reconnect_coming then some c.ddns_restart else none))

-- What the second section of the heartbeat decides.
pub data Verdict : Type 0 where
  retire keep : Verdict
  restart : ℕ → Verdict

-- `slices.Contains(ips, ip)`
abbrev pub has_ip : List Text → Text → Bool
has_ip ips ip = any (λ x. equal x ip) ips

-- The second section of the heartbeat, after the network call: `current_ip` is the address of the
-- snapshot, `ips` the fresh ones.
unfoldable pub heartbeat_decide :
    ℕ → SshConn → ℕ → Text → List Text → SshManager → SshManager × Verdict
heartbeat_decide ref c gen current_ip ips m =
    if not (heartbeat_current c gen && equal c.current_ip current_ip)
    then (m, retire)
    else if has_ip ips current_ip
    then (m, keep)
    else (put_conn ref (record c { ddns_restart = true }) m, restart c.process)

-- The start of a process in a round of `autoReconnect`, with its index. The buffer is cleared first,
-- also when the pipe or the start then fails.
unfoldable pub clear_stderr : ℕ → SshConn → SshManager → SshManager
clear_stderr ref c m = put_conn ref (record c { stderr = [] }) m

unfoldable pub start_again : ℕ → Command → SshManager → SshManager × ℕ
start_again ref cmd m = (start_process cmd ref m, length m.processes)

abbrev pub is_at : SshManager → Text → ℕ → Bool
is_at m id ref = elim (lookup id m.conns) [ none ↦ false | some cur ↦ cur == ref ]

-- The publication in `autoReconnect`, and whether it took place. The process of a conn that is gone or
-- replaced is killed.
unfoldable pub republish : Text → ℕ → SshConn → ℕ → Text → SshManager → SshManager × Bool
unfolding kill notify_status
republish id ref c p ip m =
    if is_at m id ref
    then (
      notify_status id connecting
          (put_conn ref (record c { process = p; status = connecting; current_ip = ip }) m),
      true,
    )
    else (kill p m, false)

-- The end of `autoReconnect` when all attempts have failed. It writes to whatever conn has the ID.
unfoldable pub give_up : Text → SshManager → SshManager
unfolding notify_terminal_status
give_up id m = elim (lookup id m.conns) [
  | none ↦ m
  | some ref ↦ elim (get_conn m ref) [
    | none ↦ m
    | some c ↦
        notify_terminal_status id disconnected (put_conn ref (record c { status = disconnected }) m)
  ]
]

-- `Disconnect`; `false` is the error "not found". Closing a channel twice is avoided by the source,
-- so `stop_closed` is set once and for all.
unfoldable pub disconnect : Text → SshManager → SshManager × Bool
unfolding kill notify_status
disconnect id m = elim (lookup id m.conns) [
  | none ↦ (m, false)
  | some ref ↦ elim (get_conn m ref) [
    | none ↦ (m, false)
    | some c ↦
        let stopping = kill c.process m in
        let stopped_conn = record c { status = stopped; stop_closed = true } in
        let told = notify_status id stopped (put_conn ref stopped_conn stopping) in
        (record told { conns = erase id told.conns }, true)
  ]
]

unfoldable pub disconnect_ids : List Text → SshManager → SshManager
unfolding disconnect
disconnect_ids [] m = m
disconnect_ids (id ∷ ids) m = disconnect_ids ids (disconnect id m).0

-- `DisconnectAll` when nothing else runs between its calls of `Disconnect`.
unfoldable pub disconnect_all : SshManager → SshManager
unfolding disconnect_ids
disconnect_all m = disconnect_ids (keys m.conns) m
