-- ===== src/Tests/Windows.antt =====
-- The window, the instances, the log, the query tool and the drop-in at concrete inputs.
use ssh_tunnel_manager.BaiduDns.{Api}
use ssh_tunnel_manager.Common.Maps.{lookup, insert}
use ssh_tunnel_manager.SshCommand.{is_empty}
use ssh_tunnel_manager.Common.{
  if◌then◌else◌, refl, true, false, none, some, [], ◌∷◌, ◌≡◌, ◌≤◌, text, Text, length, List,
}
use ssh_tunnel_manager.Files.{FileSystem}
use ssh_tunnel_manager.Instance.{
  Attempt, Machine, launches, listens, ends, machine_run, no_instance, launch_instance, woke_other,
  refused, already_running,
}
use ssh_tunnel_manager.Instance.Single.{length-instances, launch_instance-wakes}
use ssh_tunnel_manager.QueryTool.{Client}
use ssh_tunnel_manager.Shell.{
  ShellEvent, asks, consumes, loops, closes, initial_shell, shell_run, shell_step, in_window,
  waiting,
}
use ssh_tunnel_manager.Shell.Window.{request-answered, Kept, turns}
use ssh_tunnel_manager.Tests.Network.{api}
use ssh_tunnel_manager.ZoneForward.Install.{
  Staging, Polkit, worked, timed_out, resolved_drop_in_path,
}

-- The window is closed to the tray, and asked for again.
abbrev closed : List ShellEvent
closed = loops ∷ closes ∷ loops ∷ asks ∷ []

request-answered_example :
    let s = shell_run initial_shell closed in
    ((e : ShellEvent) → Kept (shell_step s e)) × ((shell_run s turns).loop ≡ in_window)
unfolding shell_run shell_step initial_shell
request-answered_example = request-answered closed refl refl

-- Two requests in the tray mode, of which the second passes the consumer before the window is tracked: it
-- stays in `showReq`, and the window comes back by itself after it has been closed.
stale_request :
    (shell_run initial_shell (
      loops ∷ closes ∷ loops ∷ asks ∷ consumes ∷ consumes ∷ asks ∷ consumes ∷ loops ∷ consumes
      ∷ loops ∷ closes ∷ loops ∷ loops ∷ loops ∷ [])).loop
    ≡ in_window
unfolding shell_run shell_step initial_shell
stale_request = refl

-- A request that the consumer takes while the window is there, and answers when it is gone.
lost_request :
    shell_run initial_shell (loops ∷ asks ∷ consumes ∷ closes ∷ loops ∷ consumes ∷ [])
    ≡ record initial_shell { loop = waiting }
unfolding shell_run shell_step initial_shell
lost_request = refl

abbrev good : Attempt
good = record { dir_known = true; creates = true; opens = true }

length-instances_example :
    length
      (machine_run no_instance (
        launches good 1 ∷ listens true ∷ launches good 2 ∷ ends 1 ∷ launches good 3 ∷ [])).instances
    ≤ 1
length-instances_example =
    length-instances
      (launches good 1 ∷ listens true ∷ launches good 2 ∷ ends 1 ∷ launches good 3 ∷ [])

abbrev one_instance : Machine
one_instance = record { lock = some 1; socket = some 1; show_ch = false; instances = 1 ∷ [] }

launch_instance-wakes_example :
    launch_instance good 2 one_instance ≡ (record one_instance { show_ch = true }, woke_other)
launch_instance-wakes_example = launch_instance-wakes good 2 1 1 one_instance refl refl

-- A launch between the lock of the first instance and its listener ends without any effect.
early_launch :
    launch_instance good 2 (record one_instance { socket = none })
    ≡ (record one_instance { socket = none }, refused already_running)
unfolding launch_instance
early_launch = refl

abbrev log_path : Text
log_path = text "/cache/app.log"

abbrev log_files : FileSystem
log_files = (log_path, text "started") ∷ []

abbrev tool_api : Api
tool_api = record api { decode_page = λ body. if is_empty body then none else api.decode_page body }

-- Two clients that get the same answers.
abbrev client : Client
client = record { sends = tool_api.send; marshal = tool_api.quoted }

abbrev pub staging : Staging
staging = record {
  tmp_name = text "/tmp/sttm-zone-1.conf";
  create_error = none;
  write_error = none;
  partial = [];
  chmod_error = none;
  close_error = none;
  removes = true;
}

-- A helper that installs the staged file.
abbrev pub polkit : Polkit
polkit = record {
  found = true;
  quoted = λ t. t;
  runs = λ script fs. elim (lookup staging.tmp_name fs) [
    | none ↦ (fs, timed_out)
    | some staged ↦ (insert resolved_drop_in_path staged fs, worked)
  ];
}
