-- ===== src/Manager/Keeps.antt =====
-- A change of the manager's state that adds no forward and stops only conns that it removes. All
-- sections of ssh.go but the publication in `Connect` are such changes.
use mathlib.Core.Option.{some-injective}
use native.Mathlib.Decide.{ℕ_discrete}
use ssh_tunnel_manager.Common.{
  Bool, ℕ, ◌≤◌, ◌≡◌, ◌≢◌, ◌∙◌, sym, refl, false, some, Text, length, get_elem?, get_elem?-set_self,
  get_elem?-set_ne, get_elem?-append_left,
}
use ssh_tunnel_manager.Common.Maps.{lookup}
use ssh_tunnel_manager.Config.{ForwardConfig}
use ssh_tunnel_manager.Manager.{
  SshManager, SshConn, Status, stopped, put_conn, notify_capacity, notify_status_kind, kill,
  start_conn,
}
use ssh_tunnel_manager.Manager.Notify.{notify_status_kind_bounded}
use ssh_tunnel_manager.SshCommand.{Command}

-- The conn at `ref` has an open channel and has not been stopped.
pub record IsOpen (m : SshManager) (ref : ℕ) : Type 0 where
  pub conn : SshConn
  pub stored : get_elem? m.heap ref ≡ some conn
  pub is_open : conn.stop_closed ≡ false
  pub not_stopped : conn.status ≢ stopped

-- The forwards that lead to `ref` still do.
abbrev pub StaysMapped : SshManager → SshManager → ℕ → Type 0
StaysMapped m m' ref = (id : Text) → lookup id m.conns ≡ some ref → lookup id m'.conns ≡ some ref

pub record Keeps (m m' : SshManager) : Type 0 where
  pub map_kept :
      (id : Text) (ref : ℕ) → lookup id m'.conns ≡ some ref → lookup id m.conns ≡ some ref
  pub open_kept :
      (ref : ℕ) (o : IsOpen m ref)
      → StaysMapped m m' ref
      → (o' : IsOpen m' ref) × (o'.conn.config ≡ o.conn.config)
  pub bound_kept : length m.notify_ch ≤ notify_capacity → length m'.notify_ch ≤ notify_capacity

pub Keeps-trans : {m m' m'' : SshManager} → Keeps m m' → Keeps m' m'' → Keeps m m''
Keeps-trans {m} {m'} {m''} k l = record {
  map_kept = λ id ref h. k.map_kept id ref (l.map_kept id ref h);
  open_kept = chain;
  bound_kept = λ h. l.bound_kept (k.bound_kept h);
}
  where
    chain :
        (ref : ℕ) (o : IsOpen m ref)
        → StaysMapped m m'' ref
        → (o' : IsOpen m'' ref) × (o'.conn.config ≡ o.conn.config)
    chain ref o stays =
        let (o', e) = k.open_kept ref o (λ id h. l.map_kept id ref (stays id h)) in
        let (o'', e') = l.open_kept ref o' (λ id h. stays id (k.map_kept id ref h)) in (o'', e' ∙ e)

-- A change of neither the map nor the conns.
pub Keeps-same :
    {m m' : SshManager}
    → m'.conns ≡ m.conns
    → m'.heap ≡ m.heap
    → (length m.notify_ch ≤ notify_capacity → length m'.notify_ch ≤ notify_capacity)
    → Keeps m m'
Keeps-same {m} {m'} conns heap bounded = record {
  map_kept = λ id ref h. rw (← conns) h;
  open_kept = λ ref o stays. (
    record {
      conn = o.conn;
      stored = rw heap o.stored;
      is_open = o.is_open;
      not_stopped = o.not_stopped;
    },
    refl,
  );
  bound_kept = bounded;
}

pub Keeps-refl : (m : SshManager) → Keeps m m
Keeps-refl m = Keeps-same refl refl (λ h. h)

pub notify_status_kind-Keeps :
    (id : Text) (status : Status) (terminal : Bool) (m : SshManager)
    → Keeps m (notify_status_kind id status terminal m)
notify_status_kind-Keeps id status terminal m =
    Keeps-same (unfold notify_status_kind in refl) (unfold notify_status_kind in refl)
      (notify_status_kind_bounded id status terminal m)

pub kill-Keeps : (p : ℕ) (m : SshManager) → Keeps m (kill p m)
unfolding kill
kill-Keeps p m = Keeps-same refl refl (λ h. h)

-- A write through a pointer that keeps the configuration and the channel, and does not stop the conn.
pub put_conn-Keeps :
    (m : SshManager) (ref : ℕ) (c c' : SshConn)
    → get_elem? m.heap ref ≡ some c
    → c'.config ≡ c.config
    → c'.stop_closed ≡ c.stop_closed
    → (c.status ≢ stopped → c'.status ≢ stopped)
    → Keeps m (put_conn ref c' m)
put_conn-Keeps m ref c c' e config closed going = record {
  map_kept = λ id r h. h;
  open_kept = λ r o stays. written r o;
  bound_kept = λ h. h;
}
  where
    written :
        (r : ℕ) (o : IsOpen m r)
        → (o' : IsOpen (put_conn ref c' m) r) × (o'.conn.config ≡ o.conn.config)
    written r o = elim (ℕ_discrete ref r) [
      | yes p ↦
          let same : c ≡ o.conn = some-injective _ _ (sym e ∙ rw p o.stored) in
          (
            record {
              conn = c';
              stored = rw (← p) (get_elem?-set_self m.heap ref c' c e);
              is_open = rw (closed, same) o.is_open;
              not_stopped = going (rw same o.not_stopped);
            },
            rw (config, same) refl,
          )
      | no p ↦ (
        record {
          conn = o.conn;
          stored = get_elem?-set_ne m.heap ref r c' p ∙ o.stored;
          is_open = o.is_open;
          not_stopped = o.not_stopped;
        },
        refl,
      )
    ]

-- A new conn at the end of the heap.
pub start_conn-Keeps :
    (cfg : ForwardConfig) (cmd : Command) (ip : Text) (m : SshManager)
    → Keeps m (start_conn cfg cmd ip m)
unfolding start_conn
start_conn-Keeps cfg cmd ip m = record {
  map_kept = λ id r h. h;
  open_kept = λ r o stays. (
    record {
      conn = o.conn;
      stored = get_elem?-append_left m.heap _ r o.conn o.stored;
      is_open = o.is_open;
      not_stopped = o.not_stopped;
    },
    refl,
  );
  bound_kept = λ h. h;
}
