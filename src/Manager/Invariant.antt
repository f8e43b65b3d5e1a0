-- ===== src/Manager/Invariant.antt =====
-- The invariant of ssh.go's manager, for every section under the lock.
use mathlib.Core.Option.{some-injective}
use ssh_tunnel_manager.Common.{◌∙◌, sym, ℕ, ◌≤◌, ◌≡◌, some, Text, length}
use ssh_tunnel_manager.Common.Maps.{lookup}
use ssh_tunnel_manager.Manager.{SshManager, notify_capacity}
use ssh_tunnel_manager.Manager.Keeps.{IsOpen, Keeps}

-- `ref` is the conn of forward `id`, and it is open.
pub record IsTracked (m : SshManager) (id : Text) (ref : ℕ) : Type 0 where
  pub opened : IsOpen m ref
  pub same_id : opened.conn.config.id ≡ id

pub record Inv (m : SshManager) : Type 0 where
  pub tracked : (id : Text) (ref : ℕ) → lookup id m.conns ≡ some ref → IsTracked m id ref
  pub bounded : length m.notify_ch ≤ notify_capacity

-- Two forwards never share a conn.
pub Inv-apart :
    {m : SshManager} (id id' : Text) (ref : ℕ)
    → Inv m
    → lookup id m.conns ≡ some ref
    → lookup id' m.conns ≡ some ref
    → id ≡ id'
Inv-apart id id' ref v h h' =
    let t = v.tracked id ref h in
    let t' = v.tracked id' ref h' in
    let same : t.opened.conn ≡ t'.opened.conn =
      some-injective _ _ (sym t.opened.stored ∙ t'.opened.stored) in
    sym t.same_id ∙ rw same t'.same_id

pub Keeps-Inv : {m m' : SshManager} → Keeps m m' → Inv m → Inv m'
Keeps-Inv {m} {m'} k v = record { tracked = still; bounded = k.bound_kept v.bounded }
  where
    still : (id : Text) (ref : ℕ) → lookup id m'.conns ≡ some ref → IsTracked m' id ref
    still id ref h =
        let before = k.map_kept id ref h in
        let t = v.tracked id ref before in
        let (o', e) = k.open_kept ref t.opened (λ j hj. rw (← Inv-apart id j ref v before hj) h) in
        record { opened = o'; same_id = rw e t.same_id }
