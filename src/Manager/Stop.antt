-- ===== src/Manager/Stop.antt =====
-- What `Disconnect` and `DisconnectAll` of ssh.go leave behind.
use mathlib.Core.Path.{subst}
use native.Mathlib.Decide.{ℕ_discrete}
use ssh_tunnel_manager.Common.{
  ◌||◌, ℕ, ◌≡◌, ◌≢◌, refl, inl, inr, Bool, true, false, List, [], ◌∷◌, none, some, Text, arith,
  Option-cases, if◌then◌else◌, equal, equal_iff, equal_refl, get_elem?, set, get_elem?-set_self,
  get_elem?-set_ne,
}
use ssh_tunnel_manager.Common.Maps.{Dict, lookup, erase, lookup-erase, keys}
use ssh_tunnel_manager.Manager.{
  SshManager, SshConn, get_conn, get_status, kill, is_alive, stopped, notify_status_kind,
}
use ssh_tunnel_manager.Manager.Invariant.{Keeps-Inv, Inv, Inv-apart}
use ssh_tunnel_manager.Manager.Preserve.{disconnect-Keeps}
use ssh_tunnel_manager.Manager.Sections.{disconnect, disconnect_ids, disconnect_all}

-- A killed process does not run.
pub is_alive-kill : (p : ℕ) (m : SshManager) → is_alive (kill p m) p ≡ false
unfolding kill
is_alive-kill p m = elim (Option-cases (get_elem? m.processes p)) [
  | inl n ↦ ground arith
  | inr (proc, e) ↦
      ground (arith, get_elem?-set_self m.processes p (record proc { alive = false }) proc e)
]

-- The state after a `Disconnect` that finds its forward.
abbrev after_stop : Text → ℕ → SshConn → SshManager → SshManager
after_stop id ref c m = record m {
  conns = erase id m.conns;
  heap = set m.heap ref (record c { status = stopped; stop_closed = true });
  processes = (kill c.process m).processes;
  notify_ch = (notify_status_kind id stopped false m).notify_ch;
}

disconnect_found :
    (m : SshManager) (id : Text) (ref : ℕ) (c : SshConn)
    → lookup id m.conns ≡ some ref
    → get_conn m ref ≡ some c
    → disconnect id m ≡ (after_stop id ref c m, true)
unfolding disconnect notify_status_kind
disconnect_found m id ref c s g = rw (s, disconnect) (rw g refl)

-- The forward has no status, its conn is stopped with its channel closed, and its ssh process does
-- not run.
pub record IsStopped (m : SshManager) (id : Text) (ref : ℕ) (c : SshConn) : Type 0 where
  pub untracked : get_status m id ≡ none
  pub conn_stopped : get_conn m ref ≡ some (record c { status = stopped; stop_closed = true })
  pub process_dead : is_alive m c.process ≡ false

after_stop-IsStopped :
    (m : SshManager) (id : Text) (ref : ℕ) (c : SshConn)
    → get_conn m ref ≡ some c
    → IsStopped (after_stop id ref c m) id ref c
unfolding get_status
after_stop-IsStopped m id ref c g = record {
  untracked = ground (arith, lookup-erase id id m.conns, equal_refl id);
  conn_stopped = get_elem?-set_self m.heap ref _ c g;
  process_dead = is_alive-kill c.process m;
}

-- `Disconnect` of a forward that is tracked with a conn succeeds, and afterwards the forward has no
-- status, the conn is stopped with its channel closed, and its ssh process does not run.
pub disconnect-IsStopped :
    (m : SshManager) (id : Text) (ref : ℕ) (c : SshConn)
    → lookup id m.conns ≡ some ref
    → get_conn m ref ≡ some c
    → ((disconnect id m).1 ≡ true) × IsStopped (disconnect id m).0 id ref c
disconnect-IsStopped m id ref c s g =
    rw (disconnect_found m id ref c s g) (refl, after_stop-IsStopped m id ref c g)

disconnect_missing :
    (m : SshManager) (id : Text) → lookup id m.conns ≡ none → disconnect id m ≡ (m, false)
unfolding disconnect
disconnect_missing m id n = rw (n, disconnect) refl

-- A read of another forward's conn after the stop.
after_stop_status :
    (m : SshManager) (id j : Text) (ref : ℕ) (c : SshConn)
    → Inv m
    → lookup id m.conns ≡ some ref
    → id ≢ j
    → get_status (after_stop id ref c m) j ≡ get_status m j
unfolding get_status
after_stop_status m id j ref c v s ne = elim (Option-cases (lookup j m.conns)) [
  | inl n ↦ ground (arith, lookup-erase j id m.conns)
  | inr (r, e) ↦
      let apart : ref ≢ r = λ p. ne (Inv-apart id j ref v s (rw p e)) in
      ground (
        arith,
        lookup-erase j id m.conns,
        equal_iff id j,
        get_elem?-set_ne m.heap ref r (record c { status = stopped; stop_closed = true }) apart,
      )
]

-- Under the invariant, `Disconnect` leaves the status of every other forward as it was.
pub get_status-disconnect :
    (m : SshManager) (id j : Text)
    → Inv m
    → id ≢ j
    → get_status (disconnect id m).0 j ≡ get_status m j
get_status-disconnect m id j v ne = elim (Option-cases (lookup id m.conns)) [
  | inl n ↦ rw (disconnect_missing m id n) refl
  | inr (ref, s) ↦
      let t = v.tracked id ref s in
      rw (disconnect_found m id ref t.opened.conn s t.opened.stored)
        (after_stop_status m id j ref t.opened.conn v s ne)
]

is_alive-kill_other :
    (p q : ℕ) (m : SshManager) → is_alive m q ≡ false → is_alive (kill p m) q ≡ false
unfolding kill
is_alive-kill_other p q m h = elim (ℕ_discrete p q) [
  | yes e ↦ subst (λ r. is_alive (kill p m) r ≡ false) e (is_alive-kill p m)
  | no ne ↦ elim (Option-cases (get_elem? m.processes p)) [
    | inl n ↦ ground arith
    | inr (proc, e) ↦
        ground (arith, get_elem?-set_ne m.processes p q (record proc { alive = false }) ne)
  ]
]

lookup-disconnect :
    (m : SshManager) (id j : Text)
    → Inv m
    → lookup j (disconnect id m).0.conns ≡ (if equal id j then none else lookup j m.conns)
lookup-disconnect m id j v = elim (Option-cases (lookup id m.conns)) [
  | inl n ↦ rw (disconnect_missing m id n) (ground (arith, equal_iff id j))
  | inr (ref, s) ↦
      let t = v.tracked id ref s in
      rw (disconnect_found m id ref t.opened.conn s t.opened.stored) (lookup-erase j id m.conns)
]

-- A forward is listed among the keys of the map.
abbrev is_listed : Text → List Text → Bool
is_listed j [] = false
is_listed j (id ∷ ids) = equal id j || is_listed j ids

lookup-disconnect_ids :
    (ids : List Text) (m : SshManager) (j : Text)
    → Inv m
    → lookup j (disconnect_ids ids m).conns ≡ (if is_listed j ids then none else lookup j m.conns)
unfolding disconnect_ids
lookup-disconnect_ids [] m j v = refl
lookup-disconnect_ids (id ∷ ids) m j v = ground (
  arith,
  lookup-disconnect_ids ids (disconnect id m).0 j (Keeps-Inv (disconnect-Keeps id m) v),
  lookup-disconnect m id j v,
)

lookup-is_listed : (d : Dict ℕ) (j : Text) → is_listed j (keys d) ≡ false → lookup j d ≡ none
unfolding lookup
lookup-is_listed [] j h = refl
lookup-is_listed ((k, r) ∷ d) j h = ground (arith, lookup-is_listed d j)

-- Under the invariant, `DisconnectAll` leaves no forward with a status when nothing else runs between
-- its calls of `Disconnect`.
pub get_status-disconnect_all :
    (m : SshManager) (j : Text) → Inv m → get_status (disconnect_all m) j ≡ none
unfolding get_status disconnect_all
get_status-disconnect_all m j v =
    ground (arith, lookup-disconnect_ids (keys m.conns) m j v, lookup-is_listed m.conns j)
