-- ===== src/Manager/Preserve.antt =====
-- Each section of ssh.go under the lock, but the publication in `Connect`, adds no forward and stops
-- only what it removes.
use mathlib.Core.Option.{none-ne-some}
use native.Mathlib.Decide.{ℕ_discrete}
use ssh_tunnel_manager.Common.{
  ap, equal_refl, ℕ, ◌≡◌, ◌≢◌, ◌∙◌, sym, refl, inl, inr, Bool, true, false, ◌&&◌, List, [], ◌∷◌,
  none, some, Text, length, arith, equal, Bool-cases, Option-cases, get_elem?, get_elem?-set_ne,
}
use ssh_tunnel_manager.Common.Maps.{lookup, lookup-erase, erase, keys}
use ssh_tunnel_manager.Manager.{
  heartbeat_current, NotifyMsg, SshManager, SshConn, Status, connecting, running, stopped,
  disconnected, put_conn, get_conn, notify_status_kind, confirm_running, is_tracked, classify,
  write_stderr, dispatch,
}
use ssh_tunnel_manager.Manager.Keeps.{
  IsOpen, Keeps, Keeps-refl, Keeps-trans, Keeps-same, put_conn-Keeps, notify_status_kind-Keeps,
  kill-Keeps,
}
use ssh_tunnel_manager.Manager.Notify.{notify_status_kind_bounded}
use ssh_tunnel_manager.Manager.Sections.{
  has_ip, is_at, handle_process_exit, heartbeat_decide, clear_stderr, start_again, republish,
  give_up, disconnect, disconnect_ids, disconnect_all,
}
use ssh_tunnel_manager.SshCommand.{Command}

module _ (m : SshManager) (ref : ℕ) (c : SshConn) (e : get_elem? m.heap ref ≡ some c) where
  -- A write followed by a notification.
  put_notify-Keeps :
      (c' : SshConn) (id : Text) (status : Status) (terminal : Bool)
      → c'.config ≡ c.config
      → c'.stop_closed ≡ c.stop_closed
      → (c.status ≢ stopped → c'.status ≢ stopped)
      → Keeps m (notify_status_kind id status terminal (put_conn ref c' m))
  put_notify-Keeps c' id status terminal config closed going =
      Keeps-trans (put_conn-Keeps m ref c c' e config closed going)
        (notify_status_kind-Keeps id status terminal (put_conn ref c' m))

  pub confirm_running-Keeps : (id : Text) → Keeps m (confirm_running id ref c m).0
  unfolding confirm_running
  confirm_running-Keeps id = elim (Bool-cases (is_tracked m id)) [
    | inl t ↦ rw t (put_notify-Keeps _ id running false refl refl (λ _ q. cc))
    | inr f ↦ rw f (Keeps-refl m)
  ]

  classify-ne-stopped : (s : Text) → (classify s).0 ≢ stopped
  unfolding classify
  classify-ne-stopped s h = ground arith

  pub handle_process_exit-Keeps : (id : Text) → Keeps m (handle_process_exit id ref c m).0
  unfolding handle_process_exit
  handle_process_exit-Keeps id = elim (Bool-cases (is_tracked m id)) [
    | inl t ↦ rw t (put_notify-Keeps _ id _ _ refl refl (λ _. classify-ne-stopped c.stderr))
    | inr f ↦ rw f (Keeps-refl m)
  ]

  pub clear_stderr-Keeps : Keeps m (clear_stderr ref c m)
  unfolding clear_stderr
  clear_stderr-Keeps = put_conn-Keeps m ref c _ e refl refl (λ h. h)

  pub heartbeat_decide-Keeps :
      (gen : ℕ) (ip : Text) (ips : List Text) → Keeps m (heartbeat_decide ref c gen ip ips m).0
  unfolding heartbeat_decide
  heartbeat_decide-Keeps gen ip ips =
      elim (Bool-cases (heartbeat_current c gen && equal c.current_ip ip)) [
        | inr f ↦ rw f (Keeps-refl m)
        | inl t ↦ rw t (elim (Bool-cases (has_ip ips ip)) [
          | inl k ↦ rw k (Keeps-refl m)
          | inr k ↦ rw k (put_conn-Keeps m ref c _ e refl refl (λ h. h))
        ])
      ]

  pub republish-Keeps : (id : Text) (p : ℕ) (ip : Text) → Keeps m (republish id ref c p ip m).0
  unfolding republish
  republish-Keeps id p ip = elim (Bool-cases (is_at m id ref)) [
    | inl t ↦ rw t (put_notify-Keeps _ id connecting false refl refl (λ _ q. cc))
    | inr f ↦ rw f (kill-Keeps p m)
  ]

pub start_again-Keeps :
    (ref : ℕ) (cmd : Command) (m : SshManager) → Keeps m (start_again ref cmd m).0
unfolding start_again
start_again-Keeps ref cmd m = Keeps-same refl refl (λ h. h)

pub give_up-Keeps : (id : Text) (m : SshManager) → Keeps m (give_up id m)
unfolding give_up
give_up-Keeps id m = elim (Option-cases (lookup id m.conns)) [
  | inl n ↦ rw (n, give_up) (Keeps-refl m)
  | inr (ref, s) ↦
      rw (s, give_up)
        (elim (Option-cases (get_conn m ref)) [
          | inl n ↦ rw n (Keeps-refl m)
          | inr (c, g) ↦
              rw g (put_notify-Keeps m ref c g _ id disconnected true refl refl (λ _ q. cc))
        ])
]

pub write_stderr-Keeps :
    (ref : ℕ) (bytes : Text) (m : SshManager) → Keeps m (write_stderr ref bytes m)
unfolding write_stderr
write_stderr-Keeps ref bytes m = elim (Option-cases (get_conn m ref)) [
  | inl n ↦ rw (n, write_stderr) (Keeps-refl m)
  | inr (c, g) ↦ rw (g, write_stderr) (put_conn-Keeps m ref c _ g refl refl (λ h. h))
]

dispatch-Keeps_of :
    (m : SshManager) (ch : List NotifyMsg) → m.notify_ch ≡ ch → Keeps m (dispatch m).0
unfolding dispatch
dispatch-Keeps_of m [] e = rw (e, dispatch) (Keeps-same refl refl (λ h. omega (arith, ap length e)))
dispatch-Keeps_of m (msg ∷ ch) e =
    rw (e, dispatch) (Keeps-same refl refl (λ h. omega (arith, ap length e)))

pub dispatch-Keeps : (m : SshManager) → Keeps m (dispatch m).0
dispatch-Keeps m = dispatch-Keeps_of m m.notify_ch refl

module _ (m : SshManager) (id : Text) (ref : ℕ) (c : SshConn) (s : lookup id m.conns ≡ some ref)
    (g : get_conn m ref ≡ some c) where
  -- The removal of one forward and the write to its conn.
  remove-Keeps : (c' : SshConn) → Keeps m (record (put_conn ref c' m) { conns = erase id m.conns })
  remove-Keeps c' = record {
    map_kept = λ j r h. lookup-erase-some j r h;
    open_kept = left;
    bound_kept = λ h. h;
  }
    where
      lookup-erase-some :
          (j : Text) (r : ℕ) → lookup j (erase id m.conns) ≡ some r → lookup j m.conns ≡ some r
      lookup-erase-some j r h = ground (arith, lookup-erase j id m.conns)

      gone : lookup id (erase id m.conns) ≡ none
      gone = rw (lookup-erase id id m.conns, equal_refl id) refl

      left :
          (r : ℕ) (o : IsOpen m r)
          → ((j : Text) → lookup j m.conns ≡ some r → lookup j (erase id m.conns) ≡ some r)
          → (o' : IsOpen (record (put_conn ref c' m) { conns = erase id m.conns }) r)
            × (o'.conn.config ≡ o.conn.config)
      left r o stays = elim (ℕ_discrete ref r) [
        | yes p ↦ absurd (none-ne-some r (sym gone ∙ stays id (rw (← p) s)))
        | no p ↦ (
          record {
            conn = o.conn;
            stored = get_elem?-set_ne m.heap ref r c' p ∙ o.stored;
            is_open = o.is_open;
            not_stopped = o.not_stopped;
          },
          refl,
        )
      ]

pub disconnect-Keeps : (id : Text) (m : SshManager) → Keeps m (disconnect id m).0
unfolding disconnect
disconnect-Keeps id m = elim (Option-cases (lookup id m.conns)) [
  | inl n ↦ rw (n, disconnect) (Keeps-refl m)
  | inr (ref, s) ↦
      rw (s, disconnect)
        (elim (Option-cases (get_conn m ref)) [
          | inl n ↦ rw n (Keeps-refl m)
          | inr (c, g) ↦ rw g (
              Keeps-trans (remove-Keeps m id ref c s g _)
                (Keeps-same refl refl (notify_status_kind_bounded id stopped false m)))
        ])
]

disconnect_ids-Keeps : (ids : List Text) (m : SshManager) → Keeps m (disconnect_ids ids m)
unfolding disconnect_ids
disconnect_ids-Keeps [] m = Keeps-refl m
disconnect_ids-Keeps (id ∷ ids) m =
    Keeps-trans (disconnect-Keeps id m) (disconnect_ids-Keeps ids (disconnect id m).0)

pub disconnect_all-Keeps : (m : SshManager) → Keeps m (disconnect_all m)
unfolding disconnect_all
disconnect_all-Keeps m = disconnect_ids-Keeps (keys m.conns) m
