-- ===== src/Manager/Retries.antt =====
-- ssh.go: the loop of `autoReconnect` ends.
use ssh_tunnel_manager.Common.{
  ◌≤◌, ℕ, suc, ◌+◌, ◌-◌, ◌*◌, ◌<◌, ◌≡◌, refl, ◌⊎◌, inl, inr, Bool, true, false, if◌then◌else◌, List,
  [], ◌∷◌, arith, Bool-cases, Option-cases,
}
use ssh_tunnel_manager.Manager.{SshManager}
use ssh_tunnel_manager.Manager.Pool.{with_conn_lem}
use ssh_tunnel_manager.Manager.Tasks.{
  Retry, Task, Answer, retry_wait, retry_stop, retry_resolve, retry_start, retry_publish,
  retry_exhausted, round, advance_retry, go, timer_fired, network, started, prepare, reconnect,
  monitor,
}
use ssh_tunnel_manager.Resolve.{Target, target, unresolved, resolve_connect_target}

-- How many steps the loop has left at most.
abbrev pub steps_left : Task → ℕ
steps_left (retry_wait r i) = 4 * (r.max_retries - i) + 5
steps_left (retry_stop r i) = 4 * (r.max_retries - i) + 4
steps_left (retry_resolve r i) = 4 * (r.max_retries - i) + 3
steps_left (retry_start r i _ _) = 4 * (r.max_retries - i) + 2
steps_left (retry_publish _ _ _) = 1
steps_left (retry_exhausted _) = 1
steps_left _ = 0

abbrev pub all_steps_left : List Task → ℕ
all_steps_left [] = 0
all_steps_left (t ∷ ts) = steps_left t + all_steps_left ts

-- The head of the next round.
steps_left-round :
    (r : Retry) (i : ℕ) → all_steps_left (round r (suc i) ∷ []) < 4 * (r.max_retries - i) + 2
unfolding round
steps_left-round r i = ground arith

abbrev Ends : ℕ → SshManager × List Task → Type 0
Ends n r = all_steps_left r.1 < n

-- Every step of a task in the loop of `autoReconnect`, whatever the answers are, leaves the task waiting
-- or leaves fewer steps of the loop: at most four for each round that is left, and five.
pub advance_retry_ends :
    (t : Task) (a : Answer) (m : SshManager)
    → 1 ≤ steps_left t
    → (advance_retry t a m ≡ (m, t ∷ [])) ⊎ (all_steps_left (advance_retry t a m).1 < steps_left t)
unfolding advance_retry
advance_retry_ends (retry_wait r i) timer_fired m h = inr (omega arith)
advance_retry_ends (retry_stop r i) go m h = inr (
    with_conn_lem m (Ends (4 * (r.max_retries - i) + 4)) (omega arith) r.ref _
      (λ c e. ground arith))
advance_retry_ends (retry_resolve r i) (network net) m h = inr (
    with_conn_lem m (Ends (4 * (r.max_retries - i) + 3)) (omega arith) r.ref _
      (λ c e. resolved (resolve_connect_target net c.config.remote_host)))
  where
    resolved :
        (t : Target)
        → all_steps_left (elim t [
          | target host ip ↦ retry_start r i host ip ∷ []
          | unresolved _ ↦ round r (suc i) ∷ []
        ])
          < 4 * (r.max_retries - i) + 3
    resolved (target host ip) = omega arith
    resolved (unresolved e) = omega (arith, steps_left-round r i)
advance_retry_ends (retry_start r i host ip) (started p s k) m h = inr (
    with_conn_lem m (Ends (4 * (r.max_retries - i) + 2)) (omega arith) r.ref _ (λ c e.
      elim (Option-cases (prepare p k c.config host)) [
        | inl n ↦ rw n (steps_left-round r i)
        | inr (cmd, j) ↦ rw j (elim (Bool-cases s) [
          | inl y ↦ rw y (omega arith)
          | inr f ↦ rw f (steps_left-round r i)
        ])
      ]))
advance_retry_ends (retry_publish r p ip) go m h =
    inr (with_conn_lem m (Ends 1) (omega arith) r.ref _ (λ c e. published _))
  where
    published : (b : Bool) → all_steps_left (if b then monitor r.id ∷ [] else []) < 1
    published true = omega arith
    published false = omega arith
advance_retry_ends (retry_exhausted id) go m h = inr (omega arith)
advance_retry_ends (reconnect id d) a m h = absurd (omega arith)
advance_retry_ends t a m h = inl refl
