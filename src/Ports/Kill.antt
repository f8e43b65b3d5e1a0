-- ===== src/Ports/Kill.antt =====
-- ssh.go: the commands that `KillProcessByPort` runs.
use ssh_tunnel_manager.Common.{
  ◌≡◌, refl, inl, inr, Bool, true, false, List, [], ◌∷◌, ◌++◌, none, some, Option, Text, All,
  Bool-cases, ap, if◌then◌else◌,
}
use ssh_tunnel_manager.Common.Strings.{equal}
use ssh_tunnel_manager.Ports.{
  Shell, KillCommand, KillRun, kill_pid, pkexec_kill_pid, pkexec_kill_9_pid, fuser_kill, run_until,
  kill_process_by_port_fallback, kill_process_by_port, lsof_commands, extract_pid_from_ss,
}
use ssh_tunnel_manager.Ports.Digits.{Digits, extract_pid_from_ss-Digits}
use ssh_tunnel_manager.SshCommand.{is_empty}

abbrev pub Fails : Shell → List KillCommand → Type 0
Fails sh = All (λ cmd. sh.works cmd ≡ false)

-- The commands in their order, up to the first that works.
pub data Ended (sh : Shell) (cmds : List KillCommand) : KillRun → Type 0 where
  none_works : Fails sh cmds → Ended sh cmds (cmds, false)
  one_works :
      (before : List KillCommand) (cmd : KillCommand) (after : List KillCommand)
      → cmds ≡ before ++ (cmd ∷ after)
      → Fails sh before
      → sh.works cmd ≡ true
      → Ended sh cmds (before ++ (cmd ∷ []), true)

module _ (sh : Shell) where
  after_failure :
      (cmd : KillCommand) (cmds : List KillCommand) (run : KillRun)
      → sh.works cmd ≡ false
      → Ended sh cmds run
      → Ended sh (cmd ∷ cmds) (cmd ∷ run.0, run.1)
  after_failure cmd cmds _ f (none_works h) = none_works (f, h)
  after_failure cmd cmds _ f (one_works before c after e h w) =
      one_works (cmd ∷ before) c after (ap (λ l. cmd ∷ l) e) (f, h) w

  first_command :
      (b : Bool) (cmd : KillCommand) (cmds : List KillCommand) (run : KillRun)
      → sh.works cmd ≡ b
      → Ended sh cmds run
      → Ended sh (cmd ∷ cmds) (if b then (cmd ∷ [], true) else (cmd ∷ run.0, run.1))
  first_command true cmd cmds run w h = one_works [] cmd cmds refl tt w
  first_command false cmd cmds run f h = after_failure cmd cmds run f h

  run_until-Ended : (cmds : List KillCommand) → Ended sh cmds (run_until sh cmds)
  unfolding run_until
  run_until-Ended [] = none_works tt
  run_until-Ended (cmd ∷ cmds) =
      first_command (sh.works cmd) cmd cmds (run_until sh cmds) refl (run_until-Ended cmds)

-- The PID that ss names, empty when it fails or names none.
abbrev pub ss_pid : Shell → Text
ss_pid sh = elim sh.ss [ none ↦ [] | some output ↦ extract_pid_from_ss output ]

pub data Killed (sh : Shell) (run : KillRun) : Type 0 where
  by_pid :
      is_empty (ss_pid sh) ≡ false
      → Digits (ss_pid sh)
      → Ended sh
          (kill_pid (ss_pid sh) ∷ pkexec_kill_pid (ss_pid sh) ∷ pkexec_kill_9_pid (ss_pid sh) ∷ [])
          run
      → Killed sh run
  by_port :
      is_empty (ss_pid sh) ≡ true
      → Ended sh (fuser_kill ∷ lsof_commands sh.lsof) run
      → Killed sh run

fallback-Killed :
    (sh : Shell) → is_empty (ss_pid sh) ≡ true → Killed sh (kill_process_by_port_fallback sh)
unfolding kill_process_by_port_fallback
fallback-Killed sh e = by_port e (run_until-Ended sh (fuser_kill ∷ lsof_commands sh.lsof))

reported :
    (ss lsof : Option Text) (works : KillCommand → Bool)
    → let sh : Shell = record { ss = ss; lsof = lsof; works = works } in
      Killed sh (kill_process_by_port sh)
unfolding kill_process_by_port equal
reported none lsof works = fallback-Killed (record { ss = none; lsof = lsof; works = works }) refl
reported (some output) lsof works =
    let sh : Shell = record { ss = some output; lsof = lsof; works = works } in
    elim (Bool-cases (is_empty (extract_pid_from_ss output))) [
      | inl y ↦ rw (y) (fallback-Killed sh y)
      | inr f ↦ rw (f) (by_pid f (extract_pid_from_ss-Digits output) (run_until-Ended sh _))
    ]

-- When ss names a PID, it has decimal digits only, and the commands for it are kill, kill through
-- pkexec, and kill -9 through pkexec. When ss fails or names none, they are fuser, and for what lsof
-- prints, if anything, kill and kill -9 through pkexec. They are run in that order up to the first
-- that works, with success; or all of them are run, none works, and the call fails.
pub kill_process_by_port-Killed : (sh : Shell) → Killed sh (kill_process_by_port sh)
kill_process_by_port-Killed sh = reported sh.ss sh.lsof sh.works
