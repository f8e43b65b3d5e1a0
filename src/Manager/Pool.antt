-- ===== src/Manager/Pool.antt =====
-- The conns that calls of `Connect` in ssh.go have built and not yet published.
use ssh_tunnel_manager.Common.{
  ℕ, zero, suc, ◌+◌, ◌≡◌, refl, inl, inr, List, [], ◌∷◌, ◌++◌, some, Text, arith, Option-cases,
  if◌then◌else◌, ◌==◌,
}
use ssh_tunnel_manager.Common.Maps.{lookup}
use ssh_tunnel_manager.Manager.{SshManager, SshConn, get_conn}
use ssh_tunnel_manager.Manager.Tasks.{
  Task, Answer, go, stop_received, exit_received, timer_fired, network, started, monitor,
  monitor_window, monitor_confirm, monitor_running, monitor_exited, monitor_exit, monitor_drain,
  heartbeat, heartbeat_query, heartbeat_checked, heartbeat_kill, reconnect, retry_wait, retry_stop,
  retry_resolve, retry_start, retry_publish, retry_exhausted, connect_publish, advance_monitor,
  advance_heartbeat, advance_retry, with_conn, with_tracked, round, confirmed,
}

-- How many times a task, or the tasks of a list, are about to publish `ref`.
abbrev pub pends : ℕ → Task → ℕ
pends ref (connect_publish r) = if r == ref then 1 else 0
pends ref _ = 0

abbrev pub pending : ℕ → List Task → ℕ
pending ref [] = 0
pending ref (t ∷ ts) = pends ref t + pending ref ts

pub pending-append :
    (ref : ℕ) (ts us : List Task) → pending ref (ts ++ us) ≡ pending ref ts + pending ref us
pending-append ref [] us = omega arith
pending-append ref (t ∷ ts) us = omega (arith, pending-append ref ts us)

-- Rules for the two helpers that read through a pointer.
module _ {ℓ} (m : SshManager) (Q : SshManager × List Task → Type ℓ) (gone : Q (m, [])) where
  pub with_conn_lem :
      (ref : ℕ) (k : SshConn → SshManager × List Task)
      → ((c : SshConn) → get_conn m ref ≡ some c → Q (k c))
      → Q (with_conn m ref k)
  unfolding with_conn
  with_conn_lem ref k h = elim (Option-cases (get_conn m ref)) [
    | inl n ↦ rw (n, with_conn) gone
    | inr (c, e) ↦ rw (e, with_conn) (h c e)
  ]

  pub with_tracked_lem :
      (id : Text) (k : ℕ → SshConn → SshManager × List Task)
      → ((ref : ℕ) (c : SshConn) → get_conn m ref ≡ some c → Q (k ref c))
      → Q (with_tracked m id k)
  unfolding with_tracked
  with_tracked_lem id k h = elim (Option-cases (lookup id m.conns)) [
    | inl n ↦ rw (n, with_tracked) gone
    | inr (ref, e) ↦ rw (e, with_tracked) (with_conn_lem ref (k ref) (h ref))
  ]

module _ (ref : ℕ) (m : SshManager) where
  abbrev Pends : ℕ → SshManager × List Task → Type 0
  Pends n r = pending ref r.1 ≡ n

  pending-confirmed :
      (id : Text) (r : ℕ) (c : SshConn) (p gen : ℕ) → pending ref (confirmed id r c p gen) ≡ 0
  pending-confirmed id r c p zero = refl
  pending-confirmed id r c p (suc gen) = omega arith

  pub pending-advance_monitor :
      (t : Task) (a : Answer) → pending ref (advance_monitor t a m).1 ≡ pends ref t
  unfolding advance_monitor
  pending-advance_monitor (monitor id) go =
      with_tracked_lem m (Pends 0) refl id _ (λ r c e. omega arith)
  pending-advance_monitor (monitor_window id r p) stop_received =
      with_conn_lem m (Pends 0) refl r _ (λ c e. ground arith)
  pending-advance_monitor (monitor_window id r p) exit_received = ground arith
  pending-advance_monitor (monitor_window id r p) timer_fired = ground arith
  pending-advance_monitor (monitor_confirm id r p) go =
      with_conn_lem m (Pends 0) refl r _ (λ c e. pending-confirmed id r c p _)
  pending-advance_monitor (monitor_running id r p) exit_received = ground arith
  pending-advance_monitor (monitor_exited id r) go =
      with_conn_lem m (Pends 0) refl r _ (λ c e. ground arith)
  pending-advance_monitor (monitor_exit id r) go =
      with_conn_lem m (Pends 0) refl r _ (λ c e. ground arith)
  pending-advance_monitor (monitor_drain p) exit_received = ground arith
  pending-advance_monitor t a = omega arith

  pub pending-advance_heartbeat :
      (t : Task) (a : Answer) → pending ref (advance_heartbeat t a m).1 ≡ pends ref t
  unfolding advance_heartbeat
  pending-advance_heartbeat (heartbeat r host gen) stop_received =
      with_conn_lem m (Pends 0) refl r _ (λ c e. ground arith)
  pending-advance_heartbeat (heartbeat r host gen) timer_fired =
      with_conn_lem m (Pends 0) refl r _ (λ c e. ground arith)
  pending-advance_heartbeat (heartbeat_query r host gen ip) (network net) = ground arith
  pending-advance_heartbeat (heartbeat_checked r host gen ip ips) go =
      with_conn_lem m (Pends 0) refl r _ (λ c e. ground arith)
  pending-advance_heartbeat (heartbeat_kill p) go = refl
  pending-advance_heartbeat t a = omega arith

  pub pending-advance_retry :
      (t : Task) (a : Answer) → pending ref (advance_retry t a m).1 ≡ pends ref t
  unfolding advance_retry round
  pending-advance_retry (reconnect id ddns) go =
      with_tracked_lem m (Pends 0) refl id _ (λ r c e. ground arith)
  pending-advance_retry (retry_wait r i) timer_fired = refl
  pending-advance_retry (retry_stop r i) go =
      with_conn_lem m (Pends 0) refl r.ref _ (λ c e. ground arith)
  pending-advance_retry (retry_resolve r i) (network net) =
      with_conn_lem m (Pends 0) refl r.ref _ (λ c e. ground arith)
  pending-advance_retry (retry_start r i host ip) (started pipe start known) =
      with_conn_lem m (Pends 0) refl r.ref _ (λ c e. ground arith)
  pending-advance_retry (retry_publish r p ip) go =
      with_conn_lem m (Pends 0) refl r.ref _ (λ c e. ground arith)
  pending-advance_retry (retry_exhausted id) go = refl
  pending-advance_retry t a = omega arith
