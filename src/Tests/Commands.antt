-- ===== src/Tests/Commands.antt =====
-- The external commands and small helpers at concrete inputs.
use ssh_tunnel_manager.Common.{
  refl, true, false, none, some, [], ◌∷◌, ◌≡◌, text, Text, Bool, ℤ, Option,
}
use ssh_tunnel_manager.Common.Strings.{split, cut, trim_space, equal, decimal}
use ssh_tunnel_manager.Ports.{
  Shell, KillCommand, kill_pid, pkexec_kill_pid, pkexec_kill_9_pid, fuser_kill, run_until,
  kill_process_by_port, kill_process_by_port_fallback, extract_pid_from_ss, first_pid, line_pid,
  leading_digits, check_port_in_use, format_process_info, users_info, trim_of, trim_left_of,
}
use ssh_tunnel_manager.Ports.Kill.{Killed, kill_process_by_port-Killed}
use ssh_tunnel_manager.BaiduDns.Account.{find_key, find_baidu_key, mask_ak}
use ssh_tunnel_manager.Common.Int.{int_text}
use ssh_tunnel_manager.Common.Maps.{lookup, insert}
use ssh_tunnel_manager.Files.{FileSystem, apply}
use ssh_tunnel_manager.BaiduDns.{DnsRecord}
use ssh_tunnel_manager.QueryTool.{print_records}
use ssh_tunnel_manager.LogFile.{init_logger, rotate_log_if_needed}
use ssh_tunnel_manager.Resolve.{
  flush_dns, linux, darwin, systemd_resolve, resolvectl, dscacheutil, Resolver, resolve_host,
}

abbrev ss_line : Text
ss_line = text "LISTEN 0 128 127.0.0.1:15432 users:((\"ssh\",pid=410301,fd=5))\n"

ss_pid_410301 : extract_pid_from_ss ss_line ≡ text "410301"
unfolding extract_pid_from_ss split first_pid line_pid leading_digits cut trim_space equal
ss_pid_410301 = refl

-- The process belongs to root: only a kill through pkexec works.
abbrev of_root : KillCommand → Bool
of_root (kill_pid pid) = false
of_root (pkexec_kill_pid pid) = true
of_root (pkexec_kill_9_pid pid) = true
of_root fuser_kill = false

abbrev root_shell : Shell
root_shell = record { ss = some ss_line; lsof = none; works = of_root }

-- The tools of a system without ss, with two processes on the port.
abbrev old_shell : Shell
old_shell = record { ss = none; lsof = some (text "71\n72\n"); works = λ cmd. false }

kill_process_by_port-Killed_example : Killed root_shell (kill_process_by_port root_shell)
kill_process_by_port-Killed_example = kill_process_by_port-Killed root_shell

kill_root :
    kill_process_by_port root_shell
    ≡ (kill_pid (text "410301") ∷ pkexec_kill_pid (text "410301") ∷ [], true)
unfolding kill_process_by_port run_until extract_pid_from_ss split first_pid line_pid leading_digits
    cut trim_space equal
kill_root = refl

kill_two :
    kill_process_by_port old_shell
    ≡ (fuser_kill ∷ kill_pid (text "71\n72") ∷ pkexec_kill_9_pid (text "71\n72") ∷ [], false)
unfolding kill_process_by_port kill_process_by_port_fallback run_until trim_space equal
kill_two = refl

port_holder : check_port_in_use true (some ss_line) ≡ (true, text "ssh (PID 410301)")
unfolding check_port_in_use users_info format_process_info trim_of trim_left_of extract_pid_from_ss
    split first_pid line_pid leading_digits cut trim_space equal
port_holder = refl

port_unknown : check_port_in_use true (some (text "State Recv-Q\n")) ≡ (true, text "未知进程")
unfolding check_port_in_use users_info split cut
port_unknown = refl

flush_linux :
    flush_dns linux (λ cmd. elim cmd [ systemd_resolve ↦ true | _ ↦ false ])
    ≡ (resolvectl ∷ systemd_resolve ∷ [], true)
unfolding flush_dns
flush_linux = refl

flush_darwin : flush_dns darwin (λ cmd. false) ≡ (dscacheutil ∷ [], false)
unfolding flush_dns
flush_darwin = refl

-- A resolver is set: the system's resolver is not asked.
abbrev two_ways : Resolver
two_ways = record { system = λ host. none; at_server = λ server host. some (server ∷ host ∷ []) }

resolve_host_at :
    resolve_host two_ways (text "9.9.9.9") (text "db") ≡ some (text "9.9.9.9:53" ∷ text "db" ∷ [])
unfolding resolve_host equal
resolve_host_at = refl

masked : mask_ak (text "AKID4711") ≡ text "AKID***"
unfolding mask_ak
masked = refl

-- A key beside the program is refused, so the one of the working directory is not read.
abbrev two_keys : FileSystem
two_keys = (text "/opt/app/baidu.key", text "ak=\n") ∷ (text "baidu.key", text "ak=A\nsk=S\n") ∷ []

key_beside :
    find_baidu_key (some (text "/opt/app")) none two_keys ≡ some (text "/opt/app/baidu.key")
unfolding find_baidu_key find_key equal lookup
key_beside = refl

key_here : find_baidu_key none (some (text "/etc/app")) two_keys ≡ some (text "baidu.key")
unfolding find_baidu_key find_key equal lookup
key_here = refl

new_log :
    init_logger (some (text "/log")) true true true []
    ≡ ((text "/log", []) ∷ [], some (text "/log"))
unfolding init_logger rotate_log_if_needed lookup apply insert
new_log = refl

abbrev home_record : DnsRecord
home_record = record {
  domain = text "home";
  rd_type = text "A";
  rd_data = text "203.0.113.9";
  status = text "RUNNING";
}

-- The second raw record cannot be parsed; the third keeps its number.
abbrev decode_short : Text → Option (DnsRecord × ℤ)
decode_short [] = none
decode_short (c ∷ raw) = some (home_record, ℤ.pos 300)

query_lines :
    print_records decode_short 0 (text "a" ∷ [] ∷ text "c" ∷ [])
    ≡ text "[0] domain=home rdtype=A rdata=203.0.113.9 status=RUNNING ttl=300"
      ∷ text "[2] domain=home rdtype=A rdata=203.0.113.9 status=RUNNING ttl=300"
      ∷ []
unfolding print_records decimal int_text
query_lines = refl
