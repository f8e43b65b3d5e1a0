-- ===== src/Manager/Races.antt =====
-- ssh.go: the sections that decide a race, `Connect` and `autoReconnect` against whatever has happened
-- while the process was being started, and the DDNS heartbeat against a reconnect.
use ssh_tunnel_manager.Common.{
  get_elem?-set_self, equal_iff, set, equal, if◌then◌else◌, ℕ, ◌≡◌, ◌≢◌, refl, true, false, List,
  [], ◌∷◌, ◌++◌, All, none, some, Text, arith, Bool-cases, inl, inr, ◌⊎◌, ◌↔◌, length, ◌≤◌,
}
use ssh_tunnel_manager.Common.Maps.{lookup-insert, lookup, insert}
use ssh_tunnel_manager.Manager.{
  put_conn, notify_status_kind, SshManager, SshConn, running, connecting, get_conn, kill, is_alive,
  publish_conn, already_exists, is_tracked, notify_capacity,
}
use ssh_tunnel_manager.Manager.Notify.{room, notify_status_kind-room}
use ssh_tunnel_manager.Manager.Sections.{is_at, republish, heartbeat_decide, restart, has_ip}
use ssh_tunnel_manager.Manager.Stop.{is_alive-kill}

has_ip-All : (ips : List Text) (ip : Text) → (has_ip ips ip ≡ false) ↔ All (λ x. x ≢ ip) ips
has_ip-All [] ip = (λ e. tt, λ h. refl)
has_ip-All (x ∷ ips) ip = ground (arith, equal_iff x ip, has_ip-All ips ip)

-- The heartbeat asks for a restart exactly when, at its second section, its generation is the current
-- one, the tunnel is running at the address of the snapshot, and each of the fresh addresses is another
-- one.
pub heartbeat_decide-restart :
    (ref : ℕ) (c : SshConn) (gen : ℕ) (ip : Text) (ips : List Text) (m : SshManager)
    → ((heartbeat_decide ref c gen ip ips m).1 ≡ restart c.process)
      ↔ ((c.ddns_gen ≡ gen) × (c.status ≡ running) × (c.current_ip ≡ ip) × All (λ x. x ≢ ip) ips)
unfolding heartbeat_decide
heartbeat_decide-restart ref c gen ip ips m =
    ground (arith, equal_iff c.current_ip ip, has_ip-All ips ip)

-- Without a restart the heartbeat changes nothing; with one it changes only the restart flag of its
-- conn.
heartbeat_decide_writes :
    (ref : ℕ) (c : SshConn) (gen : ℕ) (ip : Text) (ips : List Text) (m : SshManager)
    → let r = heartbeat_decide ref c gen ip ips m in
      ((r.1 ≢ restart c.process) × (r.0 ≡ m))
      ⊎ ((r.1 ≡ restart c.process)
          × (r.0 ≡ record m { heap = set m.heap ref (record c { ddns_restart = true }) }))
unfolding heartbeat_decide
heartbeat_decide_writes ref c gen ip ips m = ground arith

publish_lost :
    (ref : ℕ) (c : SshConn) (m : SshManager)
    → is_tracked m c.config.id ≡ true
    → publish_conn ref c m ≡ (kill c.process m, some already_exists)
unfolding publish_conn
publish_lost ref c m e = rw (e, publish_conn) refl

publish_won :
    (ref : ℕ) (c : SshConn) (m : SshManager)
    → is_tracked m c.config.id ≡ false
    → publish_conn ref c m ≡ (record m { conns = insert c.config.id ref m.conns }, none)
unfolding publish_conn
publish_won ref c m e = rw (e, publish_conn) refl

republish_lost :
    (id : Text) (ref p : ℕ) (c : SshConn) (ip : Text) (m : SshManager)
    → is_at m id ref ≡ false
    → republish id ref c p ip m ≡ (kill p m, false)
unfolding republish
republish_lost id ref p c ip m e = rw (e, republish) refl

republish_won :
    (id : Text) (ref p : ℕ) (c : SshConn) (ip : Text) (m : SshManager)
    → is_at m id ref ≡ true
    → republish id ref c p ip m ≡ (
      notify_status_kind id connecting false
          (put_conn ref (record c { process = p; status = connecting; current_ip = ip }) m),
      true,
    )
unfolding republish
republish_won id ref p c ip m e = rw (e, republish) refl

-- What a publication of `Connect` that fails leaves.
pub record LosesConnect (m m' : SshManager) (c : SshConn) : Type 0 where
  pub same_conns : m'.conns ≡ m.conns
  pub same_heap : m'.heap ≡ m.heap
  pub same_channel : m'.notify_ch ≡ m.notify_ch
  pub process_dead : is_alive m' c.process ≡ false

-- What one that succeeds leaves.
pub record WinsConnect (m m' : SshManager) (ref : ℕ) (c : SshConn) : Type 0 where
  pub mapped :
      (id : Text)
      → lookup id m'.conns ≡ (if equal c.config.id id then some ref else lookup id m.conns)
  pub same_heap : m'.heap ≡ m.heap
  pub same_processes : m'.processes ≡ m.processes
  pub same_channel : m'.notify_ch ≡ m.notify_ch

-- When `Connect` has started its process and finds its forward tracked by another call, it fails with
-- "already exists", the process that it started does not run, and map, conns and channel are as they
-- were. Otherwise its conn is stored under its forward, and nothing else changes.
pub publish_conn_race :
    (ref : ℕ) (c : SshConn) (m : SshManager)
    → let r = publish_conn ref c m in
      ((lookup c.config.id m.conns ≢ none) × (r.1 ≡ some already_exists) × LosesConnect m r.0 c)
      ⊎ ((lookup c.config.id m.conns ≡ none) × (r.1 ≡ none) × WinsConnect m r.0 ref c)
publish_conn_race ref c m = elim (Bool-cases (is_tracked m c.config.id)) [
  | inl e ↦ rw (publish_lost ref c m e) (
      inl (
        ground arith,
        refl,
        record {
          same_conns = unfold kill in refl;
          same_heap = unfold kill in refl;
          same_channel = unfold kill in refl;
          process_dead = is_alive-kill c.process m;
        },
      ))
  | inr n ↦ rw (publish_won ref c m n) (
      inr (
        ground arith,
        refl,
        record {
          mapped = λ id. lookup-insert id c.config.id ref m.conns;
          same_heap = refl;
          same_processes = refl;
          same_channel = refl;
        },
      ))
]

module _ (ref : ℕ) (c : SshConn) (m : SshManager) (b : length m.notify_ch ≤ notify_capacity) where
  -- With the channel within its capacity: when `autoReconnect` has started a process for a conn and
  -- finds that another conn or none is tracked, the process does not run and map, conns and channel are
  -- as they were. Otherwise the conn has the new process and the new address and is "connecting", which
  -- is the newest message of the channel.
  pub republish_race :
      (id : Text) (p : ℕ) (ip : Text) (stored : get_conn m ref ≡ some c)
      → let r = republish id ref c p ip m in
        ((lookup id m.conns ≢ some ref)
          × (r.1 ≡ false)
          × (r.0.conns ≡ m.conns)
          × (r.0.heap ≡ m.heap)
          × (r.0.notify_ch ≡ m.notify_ch)
          × (is_alive r.0 p ≡ false))
        ⊎ ((lookup id m.conns ≡ some ref)
            × (r.1 ≡ true)
            × (r.0.conns ≡ m.conns)
            × (get_conn r.0 ref
                ≡ some (record c { process = p; status = connecting; current_ip = ip }))
            × (r.0.notify_ch
                ≡ room m.notify_ch
                  ++ (record { id = id; status = connecting; terminal = false } ∷ [])))
  republish_race id p ip stored = elim (Bool-cases (is_at m id ref)) [
    | inr f ↦ rw (republish_lost id ref p c ip m f) (
        inl (
          ground arith,
          refl,
          unfold kill in refl,
          unfold kill in refl,
          unfold kill in refl,
          is_alive-kill p m,
        ))
    | inl t ↦
        rw
          (
            republish_won id ref p c ip m t,
            notify_status_kind-room id connecting false
                (put_conn ref (record c { process = p; status = connecting; current_ip = ip }) m) b,
          )
          (inr (ground arith, refl, refl, get_elem?-set_self m.heap ref _ c stored, refl))
  ]
