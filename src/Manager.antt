-- ===== src/Manager.antt =====
-- ssh.go: the state of `SSHManager`, and each section of its code that runs under the lock `mu` (or
-- touches the state once) as a function on that state. A `*SSHConn` is an index into `heap`, a
-- started process an index into `processes`. The goroutines are in Manager/Tasks.antt.
pub mod Sections
pub mod Tasks
pub mod World
pub mod Notify
pub mod Keeps
pub mod Preserve
pub mod Steps
pub mod Pool
pub mod Invariant
pub mod Stop
pub mod Races
pub mod Fresh
pub mod Reachable
pub mod Secrecy
pub mod Line
pub mod Exits
pub mod Retries
pub mod Delivery
use ssh_tunnel_manager.Common.{
  ℕ, ◌+◌, ◌%◌, ◌^◌, Bool, true, false, ◌&&◌, List, [], ◌∷◌, ◌++◌, Option, none, some, Text, text, ℤ,
  length, get_elem?, set, drop, ◌==◌, ltb, if◌then◌else◌,
}
use ssh_tunnel_manager.Common.Duration.{seconds}
use ssh_tunnel_manager.Common.Maps.{Dict, lookup, insert}
use ssh_tunnel_manager.Common.Strings.{contains}
use ssh_tunnel_manager.Config.{ForwardConfig}
use ssh_tunnel_manager.SshCommand.{Command}

-- The strings that the source gives to `Status`.
pub data Status : Type 0 where
  connecting running disconnected port_in_use connection_refused : Status
  auth_failed unreachable stopped : Status

-- `stop_closed`: `StopCh` has been closed. `ddns_gen` is a uint64.
pub record SshConn : Type 0 where
  pub config : ForwardConfig
  pub process : ℕ
  pub status : Status
  pub current_ip : Text
  pub stderr : Text
  pub ddns_gen : ℕ
  pub ddns_restart : Bool
  pub stop_closed : Bool

-- A started `exec.Cmd`. `sink` is the conn whose `Stderr` buffer it writes to.
pub record Process : Type 0 where
  pub command : Command
  pub sink : ℕ
  pub alive : Bool

pub record NotifyMsg : Type 0 where
  pub id : Text
  pub status : Status
  pub terminal : Bool

-- `on_status_change` and `on_terminal_failure` tell whether a callback is registered.
pub record SshManager : Type 0 where
  pub conns : Dict ℕ
  pub heap : List SshConn
  pub processes : List Process
  pub notify_ch : List NotifyMsg
  pub on_status_change : Bool
  pub on_terminal_failure : Bool
  -- A `time.Duration`.
  pub ddns_check_interval : ℤ

abbrev pub default_ddns_interval_seconds : ℤ
default_ddns_interval_seconds = ℤ.pos 15

abbrev pub notify_capacity : ℕ
notify_capacity = 64

unfoldable pub new_ssh_manager : SshManager
new_ssh_manager = record {
  conns = [];
  heap = [];
  processes = [];
  notify_ch = [];
  on_status_change = false;
  on_terminal_failure = false;
  ddns_check_interval = seconds default_ddns_interval_seconds;
}

unfoldable pub set_ddns_check_interval : ℤ → SshManager → SshManager
set_ddns_check_interval d m = record m { ddns_check_interval = d }

unfoldable pub set_on_status_change : Bool → SshManager → SshManager
set_on_status_change fn m = record m { on_status_change = fn }

unfoldable pub set_on_terminal_failure : Bool → SshManager → SshManager
set_on_terminal_failure fn m = record m { on_terminal_failure = fn }

-- A send on the channel that gives up when the buffer is full.
abbrev pub try_send : NotifyMsg → List NotifyMsg → Option (List NotifyMsg)
try_send msg ch = if ltb (length ch) notify_capacity then some (ch ++ (msg ∷ [])) else none

-- The second `select` after a receive that drops the oldest message.
abbrev pub send_or_drop : NotifyMsg → List NotifyMsg → List NotifyMsg
send_or_drop msg ch = elim (try_send msg ch) [
  | some ch' ↦ ch'
  | none ↦
      let shorter = drop 1 ch in elim (try_send msg shorter) [ some ch' ↦ ch' | none ↦ shorter ]
]

unfoldable pub notify_status_kind : Text → Status → Bool → SshManager → SshManager
notify_status_kind id status terminal m = record m {
  notify_ch = send_or_drop (record { id = id; status = status; terminal = terminal }) m.notify_ch;
}

unfoldable pub notify_status : Text → Status → SshManager → SshManager
unfolding notify_status_kind
notify_status id status = notify_status_kind id status false

unfoldable pub notify_terminal_status : Text → Status → SshManager → SshManager
unfolding notify_status_kind
notify_terminal_status id status = notify_status_kind id status true

pub data Callback : Type 0 where
  status_changed terminal_failure : Text → Status → Callback

abbrev pub callbacks : SshManager → NotifyMsg → List Callback
callbacks m msg =
    (if m.on_status_change then status_changed msg.id msg.status ∷ [] else [])
    ++ (if msg.terminal && m.on_terminal_failure
        then terminal_failure msg.id msg.status ∷ []
        else [])

-- One round of the dispatcher goroutine: it takes the oldest message, if there is one.
unfoldable pub dispatch : SshManager → SshManager × List Callback
dispatch m = elim m.notify_ch [
  | [] ↦ (m, [])
  | msg ∷ rest ↦ (record m { notify_ch = rest }, callbacks m msg)
]

-- Reads and writes through pointers.
abbrev pub get_conn : SshManager → ℕ → Option SshConn
get_conn m ref = get_elem? m.heap ref

abbrev pub put_conn : ℕ → SshConn → SshManager → SshManager
put_conn ref c m = record m { heap = set m.heap ref c }

abbrev kill_in : List Process → ℕ → List Process
kill_in ps p = elim (get_elem? ps p) [
  | none ↦ ps
  | some proc ↦ set ps p (record proc { alive = false })
]

-- `Process.Kill()`, and the end of a process by itself.
unfoldable pub kill : ℕ → SshManager → SshManager
kill p m = record m { processes = kill_in m.processes p }

abbrev pub is_alive : SshManager → ℕ → Bool
is_alive m p = elim (get_elem? m.processes p) [ none ↦ false | some proc ↦ proc.alive ]

-- What a process writes to its standard error.
unfoldable pub write_stderr : ℕ → Text → SshManager → SshManager
write_stderr ref bytes m = elim (get_conn m ref) [
  | none ↦ m
  | some c ↦ put_conn ref (record c { stderr = c.stderr ++ bytes }) m
]

-- `cmd.Start()`: the process writes to the buffer of `sink`.
abbrev pub start_process : Command → ℕ → SshManager → SshManager
start_process cmd sink m = record m {
  processes = m.processes ++ (record { command = cmd; sink = sink; alive = true } ∷ []);
}

-- `none` is "not_found".
unfoldable pub get_status : SshManager → Text → Option Status
get_status m id = elim (lookup id m.conns) [
  | none ↦ none
  | some ref ↦ elim (get_conn m ref) [ none ↦ none | some c ↦ some c.status ]
]

unfoldable pub get_connection : SshManager → Text → Option ℕ
get_connection m id = lookup id m.conns

-- The first test of `Connect`.
abbrev pub is_tracked : SshManager → Text → Bool
is_tracked m id = elim (lookup id m.conns) [ none ↦ false | some _ ↦ true ]

pub data ConnectError : Type 0 where
  already_exists resolve_failed dial_failed pipe_failed start_failed : ConnectError

-- The `SSHConn` of `Connect` with its started process: both are new.
unfoldable pub start_conn : ForwardConfig → Command → Text → SshManager → SshManager
start_conn cfg cmd ip m = record (start_process cmd (length m.heap) m) {
  heap =
      m.heap
      ++ (record {
        config = cfg;
        process = length m.processes;
        status = connecting;
        current_ip = ip;
        stderr = [];
        ddns_gen = 0;
        ddns_restart = false;
        stop_closed = false;
      }
          ∷ []);
}

-- The end of `Connect`: store the conn, or kill its process when another one has the ID by now. The
-- message "connecting" follows after the lock is released.
unfoldable pub publish_conn : ℕ → SshConn → SshManager → SshManager × Option ConnectError
unfolding kill
publish_conn ref c m =
    if is_tracked m c.config.id
    then (kill c.process m, some already_exists)
    else (record m { conns = insert c.config.id ref m.conns }, none)

-- The section of `monitorProcess` after the confirmation window, with the generation that it claims.
unfoldable pub confirm_running : Text → ℕ → SshConn → SshManager → SshManager × ℕ
unfolding notify_status
confirm_running id ref c m =
    if is_tracked m id
    then (let gen = (c.ddns_gen + 1) % 2 ^ 64 in
        (
          notify_status id running (put_conn ref (record c { status = running; ddns_gen = gen }) m),
          gen,
        ))
    else (m, 0)

abbrev pub is_running : Status → Bool
is_running running = true
is_running _ = false

-- The tests of the two sections of the heartbeat: on the state as it is at each.
abbrev pub heartbeat_current : SshConn → ℕ → Bool
heartbeat_current c gen = (c.ddns_gen == gen) && is_running c.status

-- The classification of an exit by the whole standard error, and whether a retry makes sense.
unfoldable pub classify : Text → Status × Bool
classify stderr =
    if contains stderr (text "Address already in use")
    then (port_in_use, false)
    else if contains stderr (text "Connection refused")
    then (connection_refused, true)
    else if contains stderr (text "Permission denied")
    then (auth_failed, false)
    else if contains stderr (text "No route to host")
    then (unreachable, true)
    else (disconnected, true)
