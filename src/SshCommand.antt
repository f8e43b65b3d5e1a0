-- ===== src/SshCommand.antt =====
-- ssh.go: the command line of a tunnel.
use ssh_tunnel_manager.Common.{
  Text, text, equal, List, [], ◌∷◌, ◌++◌, if◌then◌else◌, int_text, Option, none, some, Bool,
}
use ssh_tunnel_manager.Config.{ForwardConfig}

abbrev pub is_empty : Text → Bool
is_empty s = equal s []

abbrev is_remote : ForwardConfig → Bool
is_remote cfg = equal cfg.forward_type (text "remote")

-- `host` falls back to the configured name.
abbrev pub connect_host : ForwardConfig → Text → Text
connect_host cfg host = if is_empty host then cfg.remote_host else host

abbrev pub forward_target : ForwardConfig → Text
forward_target cfg =
    if is_remote cfg
    then (if is_empty cfg.local_host then text "127.0.0.1" else cfg.local_host)
    else text "127.0.0.1"

abbrev pub forward_spec : ForwardConfig → Text
forward_spec cfg =
    int_text cfg.local_port ++ (b':' ∷ (forward_target cfg ++ (b':' ∷ int_text cfg.remote_port)))

-- `known_hosts` is the result of `knownHostsPath()`.
unfoldable pub ssh_args : Text → ForwardConfig → Text → List Text
ssh_args known_hosts cfg host =
    (if is_remote cfg then text "-R" else text "-L")
    ∷ forward_spec cfg
    ∷ text "-N"
    ∷ text "-o"
    ∷ text "ServerAliveInterval=60"
    ∷ text "-o"
    ∷ text "ServerAliveCountMax=3"
    ∷ text "-o"
    ∷ text "ExitOnForwardFailure=yes"
    ∷ text "-o"
    ∷ text "ConnectTimeout=10"
    ∷ text "-o"
    ∷ text "StrictHostKeyChecking=accept-new"
    ∷ text "-o"
    ∷ (text "UserKnownHostsFile=" ++ known_hosts)
    ∷ ((if is_empty cfg.ssh_password
          then []
          else text "-o"
            ∷ text "PreferredAuthentications=password"
            ∷ text "-o"
            ∷ text "PubkeyAuthentication=no"
            ∷ [])
        ++ (text "-l" ∷ cfg.ssh_user ∷ connect_host cfg host ∷ []))

-- An `exec.Cmd`: the program with its arguments, and what `attachPasswordPipe` leaves to be read from
-- file descriptor 3.
pub record Command : Type 0 where
  pub program : Text
  pub args : List Text
  pub pipe : Option Text

unfoldable pub build_ssh_command : Text → ForwardConfig → Text → Command
unfolding ssh_args
build_ssh_command known_hosts cfg host =
    let args = ssh_args known_hosts cfg host in
    if is_empty cfg.ssh_password
    then record { program = text "ssh"; args = args; pipe = none }
    else record {
      program = text "sshpass";
      args = text "-d" ∷ text "3" ∷ text "ssh" ∷ args;
      pipe = none;
    }

-- The pipe is written and its write end closed before the process starts. A failure of the system
-- call or of the write is `none`.
unfoldable pub attach_password_pipe : Bool → Command → Text → Option Command
attach_password_pipe works cmd password =
    if works then some (record cmd { pipe = some password }) else none
