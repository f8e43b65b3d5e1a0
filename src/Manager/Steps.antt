-- ===== src/Manager/Steps.antt =====
-- The steps of the goroutines of ssh.go, one by one: all but the publication in `Connect` add no
-- forward and stop only what they remove.
use ssh_tunnel_manager.Common.{ℕ, ◌≡◌, inl, inr, List, some, Text, Bool-cases, Option-cases}
use ssh_tunnel_manager.Common.Maps.{lookup}
use ssh_tunnel_manager.Manager.{SshManager, SshConn, get_conn}
use ssh_tunnel_manager.Manager.Keeps.{Keeps, Keeps-refl, Keeps-trans, kill-Keeps}
use ssh_tunnel_manager.Manager.Preserve.{
  confirm_running-Keeps, handle_process_exit-Keeps, heartbeat_decide-Keeps, clear_stderr-Keeps,
  start_again-Keeps, republish-Keeps, give_up-Keeps,
}
use ssh_tunnel_manager.Manager.Tasks.{
  Task, Answer, go, stop_received, exit_received, timer_fired, network, started, monitor,
  monitor_window, monitor_confirm, monitor_running, monitor_exited, monitor_exit, monitor_drain,
  heartbeat, heartbeat_query, heartbeat_checked, heartbeat_kill, reconnect, retry_wait, retry_stop,
  retry_resolve, retry_start, retry_publish, retry_exhausted, advance_monitor, advance_heartbeat,
  advance_retry, with_conn, with_tracked, prepare,
}

module _ (m : SshManager) where
  with_conn-Keeps :
      (ref : ℕ) (k : SshConn → SshManager × List Task)
      → ((c : SshConn) → get_conn m ref ≡ some c → Keeps m (k c).0)
      → Keeps m (with_conn m ref k).0
  unfolding with_conn
  with_conn-Keeps ref k h = elim (Option-cases (get_conn m ref)) [
    | inl n ↦ rw (n, with_conn) (Keeps-refl m)
    | inr (c, e) ↦ rw (e, with_conn) (h c e)
  ]

  with_tracked-Keeps :
      (id : Text) (k : ℕ → SshConn → SshManager × List Task)
      → ((ref : ℕ) (c : SshConn) → get_conn m ref ≡ some c → Keeps m (k ref c).0)
      → Keeps m (with_tracked m id k).0
  unfolding with_tracked
  with_tracked-Keeps id k h = elim (Option-cases (lookup id m.conns)) [
    | inl n ↦ rw (n, with_tracked) (Keeps-refl m)
    | inr (ref, e) ↦ rw (e, with_tracked) (with_conn-Keeps ref (k ref) (h ref))
  ]

  pub advance_monitor-Keeps : (t : Task) (a : Answer) → Keeps m (advance_monitor t a m).0
  unfolding advance_monitor
  advance_monitor-Keeps (monitor id) go = with_tracked-Keeps id _ (λ ref c e. Keeps-refl m)
  advance_monitor-Keeps (monitor_window id ref p) stop_received =
      with_conn-Keeps ref _ (λ c e. Keeps-refl m)
  advance_monitor-Keeps (monitor_window id ref p) exit_received = Keeps-refl m
  advance_monitor-Keeps (monitor_window id ref p) timer_fired = Keeps-refl m
  advance_monitor-Keeps (monitor_confirm id ref p) go =
      with_conn-Keeps ref _ (λ c e. confirm_running-Keeps m ref c e id)
  advance_monitor-Keeps (monitor_running id ref p) exit_received = Keeps-refl m
  advance_monitor-Keeps (monitor_exited id ref) go = with_conn-Keeps ref _ (λ c e. Keeps-refl m)
  advance_monitor-Keeps (monitor_exit id ref) go =
      with_conn-Keeps ref _ (λ c e. handle_process_exit-Keeps m ref c e id)
  advance_monitor-Keeps (monitor_drain p) exit_received = Keeps-refl m
  advance_monitor-Keeps t a = Keeps-refl m

  pub advance_heartbeat-Keeps : (t : Task) (a : Answer) → Keeps m (advance_heartbeat t a m).0
  unfolding advance_heartbeat
  advance_heartbeat-Keeps (heartbeat ref host gen) stop_received =
      with_conn-Keeps ref _ (λ c e. Keeps-refl m)
  advance_heartbeat-Keeps (heartbeat ref host gen) timer_fired =
      with_conn-Keeps ref _ (λ c e. Keeps-refl m)
  advance_heartbeat-Keeps (heartbeat_query ref host gen ip) (network net) = Keeps-refl m
  advance_heartbeat-Keeps (heartbeat_checked ref host gen ip ips) go =
      with_conn-Keeps ref _ (λ c e. heartbeat_decide-Keeps m ref c e gen ip ips)
  advance_heartbeat-Keeps (heartbeat_kill p) go = kill-Keeps p m
  advance_heartbeat-Keeps t a = Keeps-refl m

  pub advance_retry-Keeps : (t : Task) (a : Answer) → Keeps m (advance_retry t a m).0
  unfolding advance_retry
  advance_retry-Keeps (reconnect id ddns) go = with_tracked-Keeps id _ (λ ref c e. Keeps-refl m)
  advance_retry-Keeps (retry_wait r i) timer_fired = Keeps-refl m
  advance_retry-Keeps (retry_stop r i) go = with_conn-Keeps r.ref _ (λ c e. Keeps-refl m)
  advance_retry-Keeps (retry_resolve r i) (network net) =
      with_conn-Keeps r.ref _ (λ c e. Keeps-refl m)
  advance_retry-Keeps (retry_start r i host ip) (started pipe start known) =
      with_conn-Keeps r.ref _ (λ c e.
        let cleared = clear_stderr-Keeps m r.ref c e in
        elim (Option-cases (prepare pipe known c.config host)) [
          | inl n ↦ rw n cleared
          | inr (cmd, s) ↦ rw s (elim (Bool-cases start) [
            | inl y ↦ rw y (Keeps-trans cleared (start_again-Keeps r.ref cmd _))
            | inr f ↦ rw f cleared
          ])
        ])
  advance_retry-Keeps (retry_publish r p ip) go =
      with_conn-Keeps r.ref _ (λ c e. republish-Keeps m r.ref c e r.id p ip)
  advance_retry-Keeps (retry_exhausted id) go = give_up-Keeps id m
  advance_retry-Keeps t a = Keeps-refl m
