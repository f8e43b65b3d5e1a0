-- ===== src/Instance/Single.antt =====
-- singleinstance_unix.go: one instance at a time, and how a second launch wakes it.
use mathlib.Core.Option.{none-ne-some}
use mathlib.Core.Path.{subst}
use ssh_tunnel_manager.Common.{
  sym, ◌∙◌, Option-cases, ap, ℕ, ◌≤◌, ◌≡◌, refl, arith, Bool, true, false, List, [], ◌∷◌, Option,
  none, some, ◌==◌, if◌then◌else◌, length, Bool-cases, inl, inr,
}
use ssh_tunnel_manager.Instance.{
  end_process, acquired, listen_for_show_requests, no_instance, poked, unless, Attempt, LockError,
  Machine, MachineEvent, acquire_single_instance_lock, launch_instance, machine_run, machine_step,
  notify_running_instance, without, already_running, no_config_dir, dir_not_created,
  lock_not_opened, woke_other, launches, listens, ends, shows,
}

abbrev holders : Option ℕ → List ℕ
holders none = []
holders (some p) = p ∷ []

-- The instance that runs is the holder of the lock.
abbrev Exact : Machine → Type 0
Exact m = m.instances ≡ holders m.lock

end_process-Exact : (p : ℕ) (lock : Option ℕ) → without p (holders lock) ≡ holders (unless p lock)
end_process-Exact p none = refl
end_process-Exact p (some q) = elim (Bool-cases (p == q)) [
  | inl e ↦ rw (e, without) refl
  | inr e ↦ rw (e, without) refl
]

notify-Exact : (m : Machine) → Exact m → Exact (notify_running_instance m).0
unfolding notify_running_instance
notify-Exact m h = elim (Option-cases m.socket) [
  | inl n ↦ rw (n, notify_running_instance) h
  | inr (p, e) ↦ rw (e, notify_running_instance) h
]

poked-machine : (e : LockError) (r : Machine × Bool) → (poked e r).0 ≡ r.0
poked-machine e (m, true) = refl
poked-machine e (m, false) = refl

refused-Exact : (p : ℕ) (e : LockError) (m : Machine) → Exact m → Exact (acquired p (m, some e)).0
refused-Exact p e m h =
    subst Exact (sym (poked-machine e (notify_running_instance m))) (notify-Exact m h)

if_lem :
    (P : Machine × Option LockError → Type 0) (b : Bool) (x y : Machine × Option LockError)
    → P x
    → P y
    → P (if b then x else y)
if_lem P true x y p q = p
if_lem P false x y p q = q

-- The four ends of the attempt: three before the lock, and the lock itself.
attempt_lem :
    (P : Machine × Option LockError → Type 0) (a : Attempt) (p : ℕ) (m : Machine)
    → ((e : LockError) → P (m, some e))
    → (m.lock ≡ none → P (record m { lock = some p }, none))
    → P (acquire_single_instance_lock a p m)
unfolding acquire_single_instance_lock
attempt_lem P a p m failed free =
    if_lem P a.dir_known _ _
      (if_lem P a.creates _ _
        (if_lem P a.opens _ _
          (elim (Option-cases m.lock) [
            | inl n ↦ subst P (sym (ap (λ l. tried l) n)) (free n)
            | inr (q, e) ↦ subst P (sym (ap (λ l. tried l) e)) (failed already_running)
          ])
          (failed lock_not_opened))
        (failed dir_not_created))
      (failed no_config_dir)
  where
    tried : Option ℕ → Machine × Option LockError
    tried none = (record m { lock = some p }, none)
    tried (some holder) = (m, some already_running)

acquired-Exact :
    (a : Attempt) (p : ℕ) (m : Machine)
    → Exact m
    → Exact (acquired p (acquire_single_instance_lock a p m)).0
acquired-Exact a p m h =
    attempt_lem (λ r. Exact (acquired p r).0) a p m (λ e. refused-Exact p e m h)
      (λ n. ap (λ is. p ∷ is) (h ∙ ap holders n))

machine_step-Exact : (m : Machine) (e : MachineEvent) → Exact m → Exact (machine_step m e)
unfolding machine_step launch_instance listen_for_show_requests end_process
machine_step-Exact m (launches a p) h = acquired-Exact a p m h
machine_step-Exact m (listens works) h = h
machine_step-Exact m (ends p) h = ap (without p) h ∙ end_process-Exact p m.lock
machine_step-Exact m shows h = h

machine_run-Exact : (m : Machine) (es : List MachineEvent) → Exact m → Exact (machine_run m es)
unfolding machine_run
machine_run-Exact m [] h = h
machine_run-Exact m (e ∷ es) h = machine_run-Exact (machine_step m e) es (machine_step-Exact m e h)

length-holders : (lock : Option ℕ) → length (holders lock) ≤ 1
length-holders none = omega arith
length-holders (some p) = omega arith

-- However processes are launched and end, at most one instance runs at a time.
pub length-instances : (es : List MachineEvent) → length (machine_run no_instance es).instances ≤ 1
length-instances es =
    subst (λ is. length is ≤ 1)
      (sym (machine_run-Exact no_instance es (unfold no_instance in refl)))
      (length-holders (machine_run no_instance es).lock)

poked_at :
    (m : Machine) (listener : ℕ)
    → m.socket ≡ some listener
    → notify_running_instance m ≡ (record m { show_ch = true }, true)
unfolding notify_running_instance
poked_at m listener h = ap woken h
  where
    woken : Option ℕ → Machine × Bool
    woken none = (m, false)
    woken (some q) = (record m { show_ch = true }, true)

-- While an instance holds the lock and listens, every further launch wakes it and ends, whatever happens
-- on the way to the lock.
pub launch_instance-wakes :
    (a : Attempt) (p holder listener : ℕ) (m : Machine)
    → m.lock ≡ some holder
    → m.socket ≡ some listener
    → launch_instance a p m ≡ (record m { show_ch = true }, woke_other)
unfolding launch_instance
launch_instance-wakes a p holder listener m locked listening =
    attempt_lem (λ r. acquired p r ≡ (record m { show_ch = true }, woke_other)) a p m
      (λ e. ap (poked e) poke) (λ n. absurd (none-ne-some holder (sym n ∙ locked)))
  where
    poke : notify_running_instance m ≡ (record m { show_ch = true }, true)
    poke = poked_at m listener listening
