-- ===== src/Manager/Secrecy.antt =====
-- ssh.go: the password of a forward does not get into the command line.
use ssh_tunnel_manager.Common.{Text, some, ◌≡◌, refl, false, true}
use ssh_tunnel_manager.Config.{ForwardConfig}
use ssh_tunnel_manager.Manager.Tasks.{prepare}
use ssh_tunnel_manager.SshCommand.{is_empty, build_ssh_command}

-- When the pipe can be set up, a forward with a password is run by the same program with the same
-- arguments as with any other password that is not empty, and its password is what the pipe holds.
pub prepare-build_ssh_command :
    (known_hosts : Text) (cfg : ForwardConfig) (host other : Text)
    → is_empty cfg.ssh_password ≡ false
    → is_empty other ≡ false
    → prepare true known_hosts cfg host
      ≡ some (record (build_ssh_command known_hosts (record cfg { ssh_password = other }) host) {
        pipe = some cfg.ssh_password;
      })
unfolding prepare
prepare-build_ssh_command known_hosts cfg host other h h' = rw (h, h') refl
