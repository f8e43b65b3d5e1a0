-- ===== src/Ui/Effects.antt =====
-- ui.go: who holds `conflictBusy`, and what every part of the code keeps.
use ssh_tunnel_manager.Common.{
  true, false, if◌then◌else◌, Bool, ℕ, ◌+◌, ◌≡◌, refl, sym, ◌∙◌, List, [], ◌∷◌, ◌++◌, arith, Text,
  text, Option, none, some, All, All-append,
}
use mathlib.Core.Path.{subst}
use ssh_tunnel_manager.Config.{ForwardConfig}
use ssh_tunnel_manager.Config.Store.{get_dns_resolver}
use ssh_tunnel_manager.Manager.Reachable.{WorldInv, step-WorldInv}
use ssh_tunnel_manager.Manager.World.{Event, step, connects}
use ssh_tunnel_manager.Ui.{
  UiCmd, release_conflict, kill_failed, Caller, by_kill, by_change, Job, checking, killing,
  connects_to, App, Ui, spawn, ZoneAction, zone_action_install, zone_action_remove, zone_row,
  with_ui, call_connect, queue_ui_func,
}

abbrev pub holds_by : Caller → ℕ
holds_by by_kill = 1
holds_by by_change = 1
holds_by _ = 0

-- A goroutine of the conflict dialog before its end.
abbrev pub holds : Job → ℕ
holds (checking by fwd) = holds_by by
holds (connects_to by fwd) = holds_by by
holds (killing fwd) = 1
holds _ = 0

-- A queued closure that gives `conflictBusy` back.
abbrev pub frees : UiCmd → ℕ
frees release_conflict = 1
frees (kill_failed e) = 1
frees _ = 0

abbrev pub held_jobs : List Job → ℕ
held_jobs [] = 0
held_jobs (j ∷ js) = holds j + held_jobs js

abbrev pub held_cmds : List UiCmd → ℕ
held_cmds [] = 0
held_cmds (f ∷ fs) = frees f + held_cmds fs

held_cmds-append : (fs gs : List UiCmd) → held_cmds (fs ++ gs) ≡ held_cmds fs + held_cmds gs
held_cmds-append [] gs = omega arith
held_cmds-append (f ∷ fs) gs = omega (arith, held_cmds-append fs gs)

abbrev pub holding : App → ℕ
holding app = held_jobs app.jobs + held_cmds app.ui.ui_cmd_q

-- The caption and the action of the zone row.
pub data RowShows (label : Text) (pending : Option ZoneAction) : Type 0 where
  no_action : label ≡ [] → pending ≡ none → RowShows label pending
  enables : label ≡ text "启用" → pending ≡ some zone_action_install → RowShows label pending
  updates : label ≡ text "更新" → pending ≡ some zone_action_install → RowShows label pending
  removes : label ≡ text "移除" → pending ≡ some zone_action_remove → RowShows label pending

abbrev pub IsRow : UiCmd → Type 0
IsRow (zone_row gen status label pending) = RowShows label pending
IsRow _ = Unit

-- The zone row is one of those, and so are those that are queued.
pub record RowsOk (ui : Ui) : Type 0 where
  pub shown : RowShows ui.zone_action_label ui.zone_pending
  pub queued : All IsRow ui.ui_cmd_q

-- The manager with its goroutines is in order, the resolver in use is the configured one, and the zone
-- row is in order.
pub record Sound (app : App) : Type 0 where
  pub tunnels_inv : WorldInv app.tunnels
  pub resolver_synced : app.resolver ≡ get_dns_resolver app.config
  pub rows_ok : RowsOk app.ui

-- `n` holders come on top, and the flag stays.
pub record Effect (n : ℕ) (app app' : App) : Type 0 where
  pub busy_kept : app'.ui.conflict_busy ≡ app.ui.conflict_busy
  pub held : holding app' ≡ n + holding app
  pub sound_kept : Sound app → Sound app'
  pub protection_kept : app'.config.read_only ≡ app.config.read_only

pub same_shown :
    {label label' : Text} {pending pending' : Option ZoneAction}
    → label' ≡ label
    → pending' ≡ pending
    → RowShows label pending
    → RowShows label' pending'
same_shown l p (no_action e f) = no_action (l ∙ e) (p ∙ f)
same_shown l p (enables e f) = enables (l ∙ e) (p ∙ f)
same_shown l p (updates e f) = updates (l ∙ e) (p ∙ f)
same_shown l p (removes e f) = removes (l ∙ e) (p ∙ f)

pub Effect-refl : (app : App) → Effect 0 app app
Effect-refl app = record {
  busy_kept = refl;
  held = omega arith;
  sound_kept = λ s. s;
  protection_kept = refl;
}

pub Effect-trans :
    {n k r : ℕ} {a b c : App} → n + k ≡ r → Effect n a b → Effect k b c → Effect r a c
Effect-trans e p q = record {
  busy_kept = q.busy_kept ∙ p.busy_kept;
  held = omega (arith, p.held, q.held, e);
  sound_kept = λ s. q.sound_kept (p.sound_kept s);
  protection_kept = q.protection_kept ∙ p.protection_kept;
}

pub Effect-seq : {a b c : App} → Effect 0 a b → Effect 0 b c → Effect 0 a c
Effect-seq p q = Effect-trans (omega arith) p q

pub Effect-if :
    (b : Bool) {n : ℕ} {a x y : App} → Effect n a x → Effect n a y → Effect n a (if b then x else y)
Effect-if true p q = p
Effect-if false p q = q

pub Effect-ui :
    (ui : Ui) (app : App)
    → ui.conflict_busy ≡ app.ui.conflict_busy
    → ui.ui_cmd_q ≡ app.ui.ui_cmd_q
    → (RowsOk app.ui → RowsOk ui)
    → Effect 0 app (with_ui ui app)
Effect-ui ui app e q keeps = record {
  busy_kept = e;
  held = rw q (omega arith);
  sound_kept = λ s. record {
    tunnels_inv = s.tunnels_inv;
    resolver_synced = s.resolver_synced;
    rows_ok = keeps s.rows_ok;
  };
  protection_kept = refl;
}

-- The fields of the zone row and the queue stay.
pub same_rows :
    {ui ui' : Ui}
    → ui'.zone_action_label ≡ ui.zone_action_label
    → ui'.zone_pending ≡ ui.zone_pending
    → ui'.ui_cmd_q ≡ ui.ui_cmd_q
    → RowsOk ui
    → RowsOk ui'
same_rows l p q rows = record {
  shown = same_shown l p rows.shown;
  queued = subst (All IsRow) (sym q) rows.queued;
}

pub Effect-spawn : (job : Job) (app : App) → Effect (holds job) app (spawn job app)
Effect-spawn job app = record {
  busy_kept = refl;
  held = omega arith;
  sound_kept = λ s. record {
    tunnels_inv = s.tunnels_inv;
    resolver_synced = s.resolver_synced;
    rows_ok = s.rows_ok;
  };
  protection_kept = refl;
}

pub Effect-step :
    (e : Event) (app : App) → Effect 0 app (record app { tunnels = step app.tunnels e })
Effect-step e app = record {
  busy_kept = refl;
  held = omega arith;
  sound_kept = λ s. record {
    tunnels_inv = step-WorldInv app.tunnels e s.tunnels_inv;
    resolver_synced = s.resolver_synced;
    rows_ok = s.rows_ok;
  };
  protection_kept = refl;
}

pub Effect-queue :
    (f : UiCmd) (app : App) → IsRow f → Effect (frees f) app (with_ui (queue_ui_func f app.ui) app)
unfolding queue_ui_func
Effect-queue f app row = record {
  busy_kept = refl;
  held = omega (arith, held_cmds-append app.ui.ui_cmd_q (f ∷ []));
  sound_kept = λ s. record {
    tunnels_inv = s.tunnels_inv;
    resolver_synced = s.resolver_synced;
    rows_ok = record {
      shown = s.rows_ok.shown;
      queued = All-append IsRow app.ui.ui_cmd_q (f ∷ []) s.rows_ok.queued (row, tt);
    };
  };
  protection_kept = refl;
}

pub Effect-call_connect :
    (by : Caller) (fwd : ForwardConfig) (app : App)
    → Effect (holds_by by) app (call_connect by fwd app)
unfolding call_connect
Effect-call_connect by fwd app =
    Effect-trans (omega arith) (Effect-step (connects fwd) app)
      (Effect-spawn (connects_to by fwd) _)
