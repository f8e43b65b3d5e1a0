-- ===== src/Tests/Tunnels.antt =====
-- Tunnels of ssh.go that come up, fail and are stopped.
use ssh_tunnel_manager.Common.{
  All, ◌≡◌, ◌≢◌, refl, ◌↔◌, ◌⊎◌, true, false, List, [], ◌∷◌, ◌++◌, none, some, Text, text, ℤ, arith,
  ◌<◌,
}
use ssh_tunnel_manager.Common.Maps.{lookup, insert}
use ssh_tunnel_manager.Common.Strings.{equal, contains}
use ssh_tunnel_manager.Config.{ForwardConfig}
use ssh_tunnel_manager.Manager.{
  is_alive, stopped, SshManager, SshConn, running, connecting, auth_failed, get_conn, get_status,
  publish_conn, already_exists, confirm_running, notify_status_kind, new_ssh_manager, classify,
  is_tracked, start_conn,
}
use ssh_tunnel_manager.Manager.Exits.{Announced, handle_process_exit-Announced}
use ssh_tunnel_manager.Manager.Invariant.{Inv}
use ssh_tunnel_manager.Manager.Notify.{room}
use ssh_tunnel_manager.Manager.Races.{
  LosesConnect, WinsConnect, publish_conn_race, republish_race, heartbeat_decide-restart,
}
use ssh_tunnel_manager.Manager.Reachable.{run-start-Inv}
use ssh_tunnel_manager.Manager.Retries.{steps_left, all_steps_left, advance_retry_ends}
use ssh_tunnel_manager.Manager.Secrecy.{prepare-build_ssh_command}
use ssh_tunnel_manager.Manager.Sections.{
  disconnect, republish, heartbeat_decide, restart, handle_process_exit,
}
use ssh_tunnel_manager.Manager.Stop.{IsStopped, disconnect-IsStopped}
use ssh_tunnel_manager.Manager.Tasks.{
  Retry, go, network, dialed, started, timer_fired, prepare, advance, advance_retry, with_conn,
  with_tracked, retry_start,
}
use ssh_tunnel_manager.Manager.World.{disconnects, Event, run, start, connects, runs}
use ssh_tunnel_manager.Resolve.{Net, resolve_connect_target}
use ssh_tunnel_manager.SshCommand.{build_ssh_command}

abbrev database : ForwardConfig
database = record {
  id = text "db";
  name = text "database";
  forward_type = text "local";
  remote_host = text "home.example.com";
  remote_port = ℤ.pos 5432;
  local_host = [];
  local_port = ℤ.pos 15432;
  ssh_user = text "ops";
  ssh_password = text "secret";
  auto_reconnect = true;
  max_retries = ℤ.pos 2;
  retry_interval = ℤ.pos 1;
}

abbrev pub address : Text
address = text "192.0.2.7"

abbrev pub net : Net
net = record { real_ip = λ _. none; lookup_host = λ _. some (address ∷ []) }

-- A tunnel that comes up.
abbrev comes_up : List Event
comes_up =
    connects database
    ∷ runs 0 go
    ∷ runs 0 (network net)
    ∷ runs 0 (dialed true)
    ∷ runs 0 (started true true (text "/known_hosts"))
    ∷ runs 0 go
    ∷ runs 0 go
    ∷ runs 1 go
    ∷ runs 1 timer_fired
    ∷ runs 1 go
    ∷ []

abbrev up : SshManager
up = (run start comes_up).manager

abbrev database_conn : SshConn
database_conn = record {
  config = database;
  process = 0;
  status = running;
  current_ip = address;
  stderr = [];
  ddns_gen = 1;
  ddns_restart = false;
  stop_closed = false;
}

up_running : get_status up (text "db") ≡ some running
unfolding run get_status lookup insert new_ssh_manager start_conn publish_conn confirm_running
    prepare start advance with_conn with_tracked resolve_connect_target notify_status_kind equal
up_running = refl

up_lookup : lookup (text "db") up.conns ≡ some 0
unfolding run get_status lookup insert new_ssh_manager start_conn publish_conn confirm_running
    prepare start advance with_conn with_tracked resolve_connect_target notify_status_kind equal
up_lookup = refl

up_stored : get_conn up 0 ≡ some database_conn
unfolding run get_status lookup insert new_ssh_manager start_conn publish_conn confirm_running
    prepare start advance with_conn with_tracked resolve_connect_target notify_status_kind equal
up_stored = refl

-- A `Disconnect` between the store of `Connect` and its message: "connecting" is the newest message of
-- a forward that is not there any more.
abbrev stopped_early : List Event
stopped_early =
    connects database
    ∷ runs 0 go
    ∷ runs 0 (network net)
    ∷ runs 0 (dialed true)
    ∷ runs 0 (started true true (text "/known_hosts"))
    ∷ runs 0 go
    ∷ disconnects (text "db")
    ∷ runs 0 go
    ∷ []

late_connecting :
    (run start stopped_early).manager.notify_ch
    ≡ record { id = text "db"; status = stopped; terminal = false }
      ∷ record { id = text "db"; status = connecting; terminal = false }
      ∷ []
unfolding run start new_ssh_manager advance prepare resolve_connect_target start_conn publish_conn
    disconnect lookup insert with_conn with_tracked notify_status_kind equal
late_connecting = refl

run-start-Inv_example : Inv (run start comes_up).manager
run-start-Inv_example = run-start-Inv comes_up

disconnect-IsStopped_example :
    ((disconnect (text "db") up).1 ≡ true)
    × IsStopped (disconnect (text "db") up).0 (text "db") 0 database_conn
disconnect-IsStopped_example =
    disconnect-IsStopped up (text "db") 0 database_conn up_lookup up_stored

publish_conn_race_example :
    let r = publish_conn 0 database_conn up in
    ((lookup (text "db") up.conns ≢ none)
      × (r.1 ≡ some already_exists)
      × LosesConnect up r.0 database_conn)
    ⊎ ((lookup (text "db") up.conns ≡ none) × (r.1 ≡ none) × WinsConnect up r.0 0 database_conn)
publish_conn_race_example = publish_conn_race 0 database_conn up

republish_race_example :
    let r = republish (text "db") 0 database_conn 1 address up in
    ((lookup (text "db") up.conns ≢ some 0)
      × (r.1 ≡ false)
      × (r.0.conns ≡ up.conns)
      × (r.0.heap ≡ up.heap)
      × (r.0.notify_ch ≡ up.notify_ch)
      × (is_alive r.0 1 ≡ false))
    ⊎ ((lookup (text "db") up.conns ≡ some 0)
        × (r.1 ≡ true)
        × (r.0.conns ≡ up.conns)
        × (get_conn r.0 0
            ≡ some
                (record database_conn { process = 1; status = connecting; current_ip = address }))
        × (r.0.notify_ch
            ≡ room up.notify_ch
              ++ (record { id = text "db"; status = connecting; terminal = false } ∷ [])))
republish_race_example =
    republish_race 0 database_conn up (run-start-Inv comes_up).bounded (text "db") 1 address
      up_stored

heartbeat_decide-restart_example :
    ((heartbeat_decide 0 database_conn 1 address (text "192.0.2.8" ∷ []) up).1 ≡ restart 0) ↔ (
      (database_conn.ddns_gen ≡ 1)
      × (database_conn.status ≡ running)
      × (database_conn.current_ip ≡ address)
      × All (λ x. x ≢ address) (text "192.0.2.8" ∷ []))
heartbeat_decide-restart_example =
    heartbeat_decide-restart 0 database_conn 1 address (text "192.0.2.8" ∷ []) up

address_moved :
    (heartbeat_decide 0 database_conn 1 address (text "192.0.2.8" ∷ []) up).1 ≡ restart 0
unfolding heartbeat_decide equal
address_moved = refl

handle_process_exit-Announced_example :
    let r = handle_process_exit (text "db") 0 database_conn up in
    Announced (text "db") 0 database_conn up r.0 r.1
handle_process_exit-Announced_example =
    handle_process_exit-Announced (text "db") 0 database_conn up up_tracked
      (run-start-Inv comes_up).bounded up_stored
  where
    up_tracked : is_tracked up (text "db") ≡ true
    up_tracked = rw (up_lookup, is_tracked) refl

abbrev denied : Text
denied = text "ops@192.0.2.7: Permission denied (password).\r\n"

classify-denied : classify denied ≡ (auth_failed, false)
unfolding classify contains
classify-denied = refl

abbrev two_rounds : Retry
two_rounds = record {
  id = text "db";
  ref = 0;
  ddns_triggered = false;
  max_retries = 2;
  retry_interval = ℤ.pos 1;
}

-- A start that fails in the first of two rounds.
advance_retry_ends_example :
    let t = retry_start two_rounds 0 address address in
    let r = advance_retry t (started true false (text "/known_hosts")) up in
    (r ≡ (up, t ∷ [])) ⊎ (all_steps_left r.1 < steps_left t)
advance_retry_ends_example =
    advance_retry_ends (retry_start two_rounds 0 address address)
      (started true false (text "/known_hosts")) up (omega arith)

prepare-build_ssh_command_example :
    prepare true (text "/known_hosts") database address
    ≡ some
        (record (build_ssh_command
          (text "/known_hosts")
          (record database { ssh_password = text "other" })
          address) { pipe = some (text "secret") })
unfolding equal
prepare-build_ssh_command_example =
    prepare-build_ssh_command (text "/known_hosts") database address (text "other") refl refl
