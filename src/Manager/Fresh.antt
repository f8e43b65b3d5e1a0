-- ===== src/Manager/Fresh.antt =====
-- The conns that `Connect` of ssh.go has built and not yet published, and their publication.
use mathlib.Core.Option.{some-injective}
use mathlib.Core.Path.{subst₂}
use native.Mathlib.Decide.{ℕ_discrete}
use ssh_tunnel_manager.Common.{
  ap, equal, equal_iff, ℕ, ◌+◌, ◌≡◌, ◌≢◌, ◌⊎◌, ◌∙◌, sym, refl, inl, inr, false, List, [], ◌∷◌, some,
  Text, arith, Bool-cases, get_elem?, length, get_elem?-append_at,
}
use ssh_tunnel_manager.Common.Maps.{lookup, lookup-insert, insert}
use ssh_tunnel_manager.Config.{ForwardConfig}
use ssh_tunnel_manager.Manager.{
  SshManager, SshConn, get_conn, is_tracked, publish_conn, start_conn, connecting,
}
use ssh_tunnel_manager.Manager.Invariant.{Inv, IsTracked, Keeps-Inv}
use ssh_tunnel_manager.Manager.Keeps.{IsOpen, Keeps, start_conn-Keeps, kill-Keeps}
use ssh_tunnel_manager.Manager.Pool.{pends}
use ssh_tunnel_manager.Manager.Tasks.{connect_publish}
use ssh_tunnel_manager.SshCommand.{Command}

-- The conn at `ref` is open, and no forward leads to it.
pub record IsFresh (m : SshManager) (ref : ℕ) : Type 0 where
  pub opened : IsOpen m ref
  pub unmapped : (id : Text) → lookup id m.conns ≢ some ref

-- At most one call of `Connect` is about to publish a conn, which is then fresh.
abbrev pub Owned : SshManager → ℕ → ℕ → Type 0
Owned m ref n = (n ≡ 0) ⊎ ((n ≡ 1) × IsFresh m ref)

Keeps-IsFresh : {m m' : SshManager} {ref : ℕ} → Keeps m m' → IsFresh m ref → IsFresh m' ref
Keeps-IsFresh {ref} k f = record {
  opened = (k.open_kept ref f.opened (λ id h. absurd (f.unmapped id h))).0;
  unmapped = λ id h. f.unmapped id (k.map_kept id ref h);
}

pub Keeps-Owned : {m m' : SshManager} {ref n : ℕ} → Keeps m m' → Owned m ref n → Owned m' ref n
Keeps-Owned k (inl z) = inl z
Keeps-Owned k (inr (o, f)) = inr (o, Keeps-IsFresh k f)

-- What a step does to the calls about to publish `ref`, of which there are `b` before and `a` after.
pub data Change (m m' : SshManager) (ref b a : ℕ) : Type 0 where
  kept : a ≡ b → (IsFresh m ref → IsFresh m' ref) → Change m m' ref b a
  dropped : b ≡ 1 → a ≡ 0 → Change m m' ref b a
  added : b ≡ 0 → a ≡ 1 → IsFresh m' ref → ¬ (IsFresh m ref) → Change m m' ref b a

pub Change-Owned :
    {m m' : SshManager} {ref b a : ℕ} (rest : ℕ)
    → Change m m' ref b a
    → Owned m ref (b + rest)
    → Owned m' ref (a + rest)
Change-Owned rest (kept e f) (inl z) = inl (omega arith)
Change-Owned rest (kept e f) (inr (o, g)) = inr (omega arith, f g)
Change-Owned rest (dropped e z) (inl y) = inl (omega arith)
Change-Owned rest (dropped e z) (inr (o, g)) = inl (omega arith)
Change-Owned rest (added e z f h) (inl y) = inr (omega arith, f)
Change-Owned rest (added e z f h) (inr (o, g)) = absurd (h g)

pub Keeps-Change : {m m' : SshManager} {ref b a : ℕ} → Keeps m m' → a ≡ b → Change m m' ref b a
Keeps-Change k e = kept e (Keeps-IsFresh k)

-- The next conn is not yet in the heap.
not-IsOpen-length : (m : SshManager) → ¬ (IsOpen m (length m.heap))
not-IsOpen-length m o = get_elem?-length m.heap o.stored
  where
    get_elem?-length : {c : SshConn} (xs : List SshConn) → get_elem? xs (length xs) ≢ some c
    get_elem?-length [] h = ground arith
    get_elem?-length (x ∷ xs) h = get_elem?-length xs h

start_conn-IsFresh :
    (cfg : ForwardConfig) (cmd : Command) (ip : Text) (m : SshManager)
    → Inv m
    → IsFresh (start_conn cfg cmd ip m) (length m.heap)
unfolding start_conn
start_conn-IsFresh cfg cmd ip m v = record {
  opened = record {
    conn = record {
      config = cfg;
      process = length m.processes;
      status = connecting;
      current_ip = ip;
      stderr = [];
      ddns_gen = 0;
      ddns_restart = false;
      stop_closed = false;
    };
    stored = get_elem?-append_at m.heap [] _;
    is_open = refl;
    not_stopped = λ h. cc;
  };
  unmapped = λ id h. not-IsOpen-length m (v.tracked id (length m.heap) h).opened;
}

pub start_conn-Change :
    (cfg : ForwardConfig) (cmd : Command) (ip : Text) (m : SshManager) (ref : ℕ)
    → Inv m
    → Change m (start_conn cfg cmd ip m) ref 0 (pends ref (connect_publish (length m.heap)) + 0)
start_conn-Change cfg cmd ip m ref v = elim (ℕ_discrete (length m.heap) ref) [
  | yes p ↦
      added refl (ground arith) (rw (← p) (start_conn-IsFresh cfg cmd ip m v))
        (rw (← p) (λ f. not-IsOpen-length m f.opened))
  | no p ↦ Keeps-Change (start_conn-Keeps cfg cmd ip m) (ground arith)
]

-- The store of a conn under its forward.
abbrev map_to : Text → ℕ → SshManager → SshManager
map_to id ref m = record m { conns = insert id ref m.conns }

map_to-Inv :
    (id : Text) (ref : ℕ) (m : SshManager) → IsTracked m id ref → Inv m → Inv (map_to id ref m)
map_to-Inv id ref m t v = record { tracked = found; bounded = v.bounded }
  where
    moved : (j : Text) (r : ℕ) → IsTracked m j r → IsTracked (map_to id ref m) j r
    moved j r u = record {
      opened = record {
        conn = u.opened.conn;
        stored = u.opened.stored;
        is_open = u.opened.is_open;
        not_stopped = u.opened.not_stopped;
      };
      same_id = u.same_id;
    }

    found :
        (j : Text) (r : ℕ)
        → lookup j (insert id ref m.conns) ≡ some r
        → IsTracked (map_to id ref m) j r
    found j r h = elim (Bool-cases (equal id j)) [
      | inl e ↦
          let at_ref : some ref ≡ some r = sym (rw (lookup-insert j id ref m.conns, e) refl) ∙ h in
          moved j r (subst₂ (IsTracked m) ((equal_iff id j).0 e) (some-injective _ _ at_ref) t)
      | inr e ↦ moved j r (v.tracked j r (sym (rw (lookup-insert j id ref m.conns, e) refl) ∙ h))
    ]

map_to-IsFresh :
    (id : Text) (ref r : ℕ) (m : SshManager) → ref ≢ r → IsFresh m r → IsFresh (map_to id ref m) r
map_to-IsFresh id ref r m ne f = record {
  opened = record {
    conn = f.opened.conn;
    stored = f.opened.stored;
    is_open = f.opened.is_open;
    not_stopped = f.opened.not_stopped;
  };
  unmapped = λ j h. ground (arith, lookup-insert j id ref m.conns, f.unmapped j);
}

-- The publication, in its two cases.
pub publish_conn-IsFresh :
    (ref r : ℕ) (c : SshConn) (m : SshManager)
    → ref ≢ r
    → IsFresh m r
    → IsFresh (publish_conn ref c m).0 r
unfolding publish_conn
publish_conn-IsFresh ref r c m ne f = elim (Bool-cases (is_tracked m c.config.id)) [
  | inl y ↦ rw y (Keeps-IsFresh (kill-Keeps c.process m) f)
  | inr n ↦ rw n (map_to-IsFresh c.config.id ref r m ne f)
]

pub publish_conn-Inv :
    (ref : ℕ) (c : SshConn) (m : SshManager)
    → get_conn m ref ≡ some c
    → IsFresh m ref
    → Inv m
    → Inv (publish_conn ref c m).0
unfolding publish_conn
publish_conn-Inv ref c m e f v = elim (Bool-cases (is_tracked m c.config.id)) [
  | inl y ↦ rw y (Keeps-Inv (kill-Keeps c.process m) v)
  | inr n ↦ rw n (
      map_to-Inv c.config.id ref m
        (record {
          opened = f.opened;
          same_id =
              ap (λ (d : SshConn). d.config.id) (some-injective _ _ (sym f.opened.stored ∙ e));
        })
        v)
]
