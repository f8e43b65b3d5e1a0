-- ===== src/Ui/Exclusive.antt =====
-- ui.go: the flag `conflictBusy` and its holders, and the queue of the UI thread.
use ssh_tunnel_manager.Common.{
  ◌==◌, Option, Text, refl, true, false, none, some, inl, inr, [], ◌∷◌, sym, Bool-cases, ap, ◌∙◌,
  List, arith, ◌+◌, ◌≡◌, Bool, ℕ, All,
}
use ssh_tunnel_manager.Ui.{
  ZoneAction, show_conflict_dialog_internal, release_connect, release_conflict, show_conflict,
  show_message, kill_failed, process_killed, zone_row, zone_done, release_both, App, UiCmd, with_ui,
}
use ssh_tunnel_manager.Ui.Effects.{
  same_rows, IsRow, RowShows, Effect-seq, Effect-ui, held_cmds, holding, Effect, Sound, frees,
}
use ssh_tunnel_manager.Ui.HandlerEffects.{refresh-Effect}
use ssh_tunnel_manager.Ui.Handlers.{show_row, action_message, run_cmd, drain_ui_cmds, run_cmds}
use ssh_tunnel_manager.Ui.JobEffects.{say-Effect}

abbrev pub count_of : Bool → ℕ
count_of true = 1
count_of false = 0

-- `n` closures that give the flag back are about to run.
pub record Fits (ro : Bool) (n : ℕ) (app : App) : Type 0 where
  pub sound : Sound app
  pub protection : app.config.read_only ≡ ro
  pub exclusive : n + holding app ≡ count_of app.ui.conflict_busy

show_row-Effect :
    (gen : ℕ) (status action : Text) (pending : Option ZoneAction) (app : App)
    → RowShows action pending
    → Effect 0 app (with_ui (show_row gen status action pending app.ui) app)
show_row-Effect gen status action pending app row =
    elim (Bool-cases (app.ui.zone_refresh_gen == gen)) [
      | inl e ↦
          rw e (Effect-ui _ app refl refl (λ rows. record { shown = row; queued = rows.queued }))
      | inr e ↦ rw e (Effect-ui _ app refl refl (same_rows refl refl refl))
    ]

action_message-Effect : (o : Option Text) (app : App) → Effect 0 app (action_message o app)
action_message-Effect none app = say-Effect _ true app
action_message-Effect (some e) app = say-Effect _ false app

quiet_cmd-Effect : (c : UiCmd) (app : App) → IsRow c → frees c ≡ 0 → Effect 0 app (run_cmd c app)
unfolding run_cmd
quiet_cmd-Effect release_connect app row h = Effect-ui _ app refl refl (same_rows refl refl refl)
quiet_cmd-Effect release_conflict app row h = absurd (omega (arith, h))
quiet_cmd-Effect (show_conflict port process) app row h =
    unfold show_conflict_dialog_internal in Effect-ui _ app refl refl (same_rows refl refl refl)
quiet_cmd-Effect (show_message msg ok) app row h = say-Effect msg ok app
quiet_cmd-Effect (kill_failed e) app row h = absurd (omega (arith, h))
quiet_cmd-Effect process_killed app row h =
    Effect-seq (say-Effect _ true app) (Effect-ui _ _ refl refl (same_rows refl refl refl))
quiet_cmd-Effect (zone_row gen status action pending) app row h =
    show_row-Effect gen status action pending app row
quiet_cmd-Effect (zone_done failure) app row h =
    Effect-seq (Effect-ui _ app refl refl (same_rows refl refl refl))
      (Effect-seq (action_message-Effect failure _) (refresh-Effect _))

module _ {ro : Bool} where
  pub Fits-eq : {n k : ℕ} {app : App} → n ≡ k → Fits ro n app → Fits ro k app
  Fits-eq e f = record {
    sound = f.sound;
    protection = f.protection;
    exclusive = omega (arith, e, f.exclusive);
  }

  -- The holders that a part of the code leaves are taken from those that are about to run.
  pub Effect-Fits :
      {n k : ℕ} {app app' : App} → Effect n app app' → Fits ro (n + k) app → Fits ro k app'
  Effect-Fits p f = record {
    sound = p.sound_kept f.sound;
    protection = p.protection_kept ∙ f.protection;
    exclusive = omega (arith, p.held, f.exclusive) ∙ ap count_of (sym p.busy_kept);
  }

  pub quiet-Fits : {n : ℕ} {app app' : App} → Effect 0 app app' → Fits ro n app → Fits ro n app'
  quiet-Fits p f = Effect-Fits p (Fits-eq (omega arith) f)

  -- Releasing the flag takes one holder away.
  pub release-Fits :
      (n : ℕ) (app : App) → Fits ro (1 + n) app → Fits ro n (with_ui (release_both app.ui) app)
  release-Fits n app f = record {
    sound = record {
      tunnels_inv = f.sound.tunnels_inv;
      resolver_synced = f.sound.resolver_synced;
      rows_ok = same_rows refl refl refl f.sound.rows_ok;
    };
    protection = f.protection;
    exclusive = elim (Bool-cases app.ui.conflict_busy) [
      | inl e ↦ omega (arith, f.exclusive ∙ ap count_of e)
      | inr e ↦ absurd (omega (arith, f.exclusive ∙ ap count_of e))
    ];
  }

  run_cmd-Fits :
      (c : UiCmd) (n : ℕ) (app : App)
      → IsRow c
      → Fits ro (frees c + n) app
      → Fits ro n (run_cmd c app)
  unfolding run_cmd
  run_cmd-Fits release_conflict n app row f = release-Fits n app f
  run_cmd-Fits (kill_failed e) n app row f =
      release-Fits n _ (quiet-Fits (say-Effect _ false app) f)
  run_cmd-Fits release_connect n app row f =
      Effect-Fits (quiet_cmd-Effect release_connect app row refl) f
  run_cmd-Fits (show_conflict port process) n app row f =
      Effect-Fits (quiet_cmd-Effect (show_conflict port process) app row refl) f
  run_cmd-Fits (show_message msg ok) n app row f =
      Effect-Fits (quiet_cmd-Effect (show_message msg ok) app row refl) f
  run_cmd-Fits process_killed n app row f =
      Effect-Fits (quiet_cmd-Effect process_killed app row refl) f
  run_cmd-Fits (zone_row gen status action pending) n app row f =
      Effect-Fits (quiet_cmd-Effect (zone_row gen status action pending) app row refl) f
  run_cmd-Fits (zone_done failure) n app row f =
      Effect-Fits (quiet_cmd-Effect (zone_done failure) app row refl) f

  run_cmds-Fits :
      (cs : List UiCmd) (app : App)
      → All IsRow cs
      → Fits ro (held_cmds cs) app
      → Fits ro 0 (run_cmds cs app)
  unfolding run_cmds
  run_cmds-Fits [] app rows f = f
  run_cmds-Fits (c ∷ cs) app (row, rows) f =
      run_cmds-Fits cs _ rows (run_cmd-Fits c (held_cmds cs) app row f)

  pub drain_ui_cmds-Fits : (app : App) → Fits ro 0 app → Fits ro 0 (drain_ui_cmds app)
  unfolding drain_ui_cmds
  drain_ui_cmds-Fits app f = run_cmds-Fits app.ui.ui_cmd_q _ f.sound.rows_ok.queued (record {
    sound = record {
      tunnels_inv = f.sound.tunnels_inv;
      resolver_synced = f.sound.resolver_synced;
      rows_ok = record { shown = f.sound.rows_ok.shown; queued = tt };
    };
    protection = f.protection;
    exclusive = omega (arith, f.exclusive);
  })
