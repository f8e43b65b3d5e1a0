-- ===== src/Manager/Exits.antt =====
-- ssh.go: what the exit of an ssh process leads to.
use ssh_tunnel_manager.Common.{
  get_elem?-set_self, ℕ, ◌≡◌, ◌≢◌, refl, ◌↔◌, ◌⊎◌, inl, inr, Bool, true, false, ◌&&◌, ◌≤◌, [], ◌∷◌,
  ◌++◌, Option, none, some, Text, arith, length, Bool-cases,
}
use ssh_tunnel_manager.Manager.{
  SshManager, SshConn, notify_capacity, classify, is_tracked, get_conn, put_conn, port_in_use,
  auth_failed, notify_status_kind,
}
use ssh_tunnel_manager.Manager.Notify.{room, notify_status_kind-room}
use ssh_tunnel_manager.Manager.Sections.{handle_process_exit}

-- A retry makes no sense exactly for a port that is in use and for a login that is refused.
pub classify_retry :
    (stderr : Text)
    → ((classify stderr).1 ≡ false)
      ↔ (((classify stderr).0 ≡ port_in_use) ⊎ ((classify stderr).0 ≡ auth_failed))
unfolding classify
classify_retry stderr = ground arith

-- What `handleProcessExit` leaves of a tracked forward.
pub record Announced (id : Text) (ref : ℕ) (c : SshConn) (m : SshManager) (m' : SshManager)
    (again : Option Bool) : Type 0 where
  pub terminal : Bool
  pub terminal_iff : (terminal ≡ true) ↔ (again ≡ none)
  pub newest :
      m'.notify_ch
      ≡ room m.notify_ch
        ++ (record { id = id; status = (classify c.stderr).0; terminal = terminal } ∷ [])
  pub reconnects :
      (again ≢ none) ↔ (((classify c.stderr).1 ≡ true) × (c.config.auto_reconnect ≡ true))
  pub flag : (again ≡ none) ⊎ (again ≡ some c.ddns_restart)
  pub conn :
      get_conn m' ref
      ≡ some
          (record c { status = (classify c.stderr).0; ddns_restart = terminal && c.ddns_restart })
  pub same_conns : m'.conns ≡ m.conns

-- The conn with its new status.
abbrev exited : ℕ → SshConn → Bool → SshManager → SshManager
exited ref c restart m =
    put_conn ref (record c { status = (classify c.stderr).0; ddns_restart = restart }) m

module _ (id : Text) (ref : ℕ) (c : SshConn) (m : SshManager) (t : is_tracked m id ≡ true) where
  exit_retried :
      (classify c.stderr).1 && c.config.auto_reconnect ≡ true
      → handle_process_exit id ref c m ≡ (
        notify_status_kind id (classify c.stderr).0 false (exited ref c false m),
        some c.ddns_restart,
      )
  unfolding handle_process_exit
  exit_retried e = rw (t, e) refl

  exit_final :
      (classify c.stderr).1 && c.config.auto_reconnect ≡ false
      → handle_process_exit id ref c m
        ≡ (notify_status_kind id (classify c.stderr).0 true (exited ref c c.ddns_restart m), none)
  unfolding handle_process_exit
  exit_final e = rw (t, e) refl

  -- With the channel within its capacity: the exit of the process of a tracked forward gives its conn
  -- the status that the standard error stands for, and announces it as the newest message of the
  -- channel. The message is terminal exactly when no reconnect comes; one comes exactly when a retry
  -- makes sense and the forward wants it, and it has taken over the restart flag, which is lowered.
  pub handle_process_exit-Announced :
      length m.notify_ch ≤ notify_capacity
      → get_conn m ref ≡ some c
      → let r = handle_process_exit id ref c m in Announced id ref c m r.0 r.1
  handle_process_exit-Announced b stored =
      elim (Bool-cases ((classify c.stderr).1 && c.config.auto_reconnect)) [
        | inl e ↦
            rw
              (
                exit_retried e,
                notify_status_kind-room id (classify c.stderr).0 false (exited ref c false m) b,
              )
              (record {
                terminal = false;
                terminal_iff = ground arith;
                newest = refl;
                reconnects = ground arith;
                flag = inr refl;
                conn = get_elem?-set_self m.heap ref _ c stored;
                same_conns = refl;
              })
        | inr e ↦
            rw
              (
                exit_final e,
                notify_status_kind-room id (classify c.stderr).0 true
                    (exited ref c c.ddns_restart m) b,
              )
              (record {
                terminal = true;
                terminal_iff = ground arith;
                newest = refl;
                reconnects = ground arith;
                flag = inl refl;
                conn = get_elem?-set_self m.heap ref _ c stored;
                same_conns = refl;
              })
      ]
