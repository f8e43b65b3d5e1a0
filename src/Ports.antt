-- ===== src/Ports.antt =====
-- ssh.go: the helpers for a local port that is in use.
pub mod Digits
pub mod Kill
use mathlib.Core.List.{reverse}
use ssh_tunnel_manager.Common.{
  ◌&&◌, ◌||◌, Bool, true, false, List, [], ◌∷◌, ◌++◌, Option, none, some, Text, text, ◌==◌, leb,
  if◌then◌else◌, ℕ,
}
use ssh_tunnel_manager.Common.Strings.{split, cut, contains, trim_space}
use ssh_tunnel_manager.SshCommand.{is_empty}

abbrev pub is_digit : ℕ → Bool
is_digit c = leb b'0' c && leb c b'9'

-- `rest[:end]`: the digits at the front.
unfoldable pub leading_digits : Text → Text
leading_digits [] = []
leading_digits (c ∷ s) = let rest = leading_digits s in if is_digit c then c ∷ rest else []

-- The PID in a line, empty when there is none.
unfoldable pub line_pid : Text → Text
line_pid line = elim (cut (text "pid=") line) [
  | none ↦ []
  | some (before, rest) ↦ trim_space (leading_digits rest)
]

unfoldable pub first_pid : List Text → Text
first_pid [] = []
first_pid (line ∷ lines) =
    let rest = first_pid lines in if is_empty (line_pid line) then rest else line_pid line

unfoldable pub extract_pid_from_ss : Text → Text
extract_pid_from_ss output = first_pid (split output b'\n')

-- `strings.Trim` with a set of bytes.
unfoldable pub trim_left_of : (ℕ → Bool) → Text → Text
trim_left_of p [] = []
trim_left_of p (c ∷ s) = let rest = trim_left_of p s in if p c then rest else c ∷ s

unfoldable pub trim_of : (ℕ → Bool) → Text → Text
trim_of p s = reverse (trim_left_of p (reverse (trim_left_of p s)))

abbrev is_paren : ℕ → Bool
is_paren c = (c == b'(') || (c == b')')

abbrev is_quote : ℕ → Bool
is_quote c = c == b'"'

abbrev named : Text → Text → Text
named raw name =
    if is_empty (extract_pid_from_ss raw)
    then raw
    else name ++ (text " (PID " ++ (extract_pid_from_ss raw ++ text ")"))

abbrev describe : Text → Text
describe raw = elim (cut (text "\",") raw) [
  | some (name, after) ↦ named raw (trim_of is_quote name)
  | none ↦ elim (cut (text ",") raw) [ some (name, after) ↦ named raw name | none ↦ raw ]
]

unfoldable pub format_process_info : Text → Text
format_process_info raw = describe (trim_of is_paren (trim_space raw))

-- The first line with "users:", from there on.
unfoldable pub users_info : List Text → Text
users_info [] = text "未知进程"
users_info (line ∷ lines) =
    let rest = users_info lines in
    elim (cut (text "users:") line) [
      | none ↦ rest
      | some (before, after) ↦ format_process_info (trim_space after)
    ]

-- Whether the port can be dialed, and the output of ss, `none` when it fails. The source's test for
-- "users:" in the whole output only saves the loop.
unfoldable pub check_port_in_use : Bool → Option Text → Bool × Text
check_port_in_use false ss = (false, [])
check_port_in_use true none = (true, text "unknown process")
check_port_in_use true (some output) = (true, users_info (split output b'\n'))

-- The external commands that end processes.
pub data KillCommand : Type 0 where
  kill_pid pkexec_kill_pid pkexec_kill_9_pid : Text → KillCommand
  fuser_kill : KillCommand

-- What the commands answer: `works` for a command that ends a process.
pub record Shell : Type 0 where
  pub ss : Option Text
  pub lsof : Option Text
  pub works : KillCommand → Bool

-- The commands that are run, in their order, and whether the call succeeds.
abbrev pub KillRun : Type 0
KillRun = List KillCommand × Bool

-- One command after the other until one works.
unfoldable pub run_until : Shell → List KillCommand → KillRun
run_until sh [] = ([], false)
run_until sh (cmd ∷ cmds) =
    let (ran, done) = run_until sh cmds in
    if sh.works cmd then (cmd ∷ [], true) else (cmd ∷ ran, done)

abbrev pub lsof_commands : Option Text → List KillCommand
lsof_commands none = []
lsof_commands (some output) =
    if is_empty (trim_space output)
    then []
    else kill_pid (trim_space output) ∷ pkexec_kill_9_pid (trim_space output) ∷ []

unfoldable pub kill_process_by_port_fallback : Shell → KillRun
kill_process_by_port_fallback sh = run_until sh (fuser_kill ∷ lsof_commands sh.lsof)

abbrev kill_commands : Text → List KillCommand
kill_commands pid = kill_pid pid ∷ pkexec_kill_pid pid ∷ pkexec_kill_9_pid pid ∷ []

unfoldable pub kill_process_by_port : Shell → KillRun
kill_process_by_port sh = elim sh.ss [
  | none ↦ kill_process_by_port_fallback sh
  | some output ↦
      if is_empty (extract_pid_from_ss output)
      then kill_process_by_port_fallback sh
      else run_until sh (kill_commands (extract_pid_from_ss output))
]
