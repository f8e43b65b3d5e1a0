-- ===== src/Desktop/Leaves.antt =====
-- main.go: what the program leaves behind when it ends.
use mathlib.Core.Path.{subst}
use ssh_tunnel_manager.Common.{
  ◌≡◌, refl, sym, ap, ◌∙◌, Bool, true, All, List, [], ◌∷◌, none, Text, arith,
}
use ssh_tunnel_manager.Config.Save.{Json}
use ssh_tunnel_manager.Crypto.{Cipher, KeyEnv}
use ssh_tunnel_manager.Desktop.{
  Desktop, opened, DeskEvent, app_event, shell_event, disconnects, live_step, disconnects_in,
  step_in, desk_step, desk_run,
}
use ssh_tunnel_manager.Desktop.Induction.{desk_run-HoldsIn}
use ssh_tunnel_manager.Files.{FileSystem}
use ssh_tunnel_manager.Manager.{get_status}
use ssh_tunnel_manager.Manager.Invariant.{Inv}
use ssh_tunnel_manager.Manager.Stop.{get_status-disconnect_all}
use ssh_tunnel_manager.Manager.World.{step, disconnects_all}
use ssh_tunnel_manager.Shell.{tears_down, disconnecting, exited, shell_step}
use ssh_tunnel_manager.Startup.{launch}
use ssh_tunnel_manager.Startup.Guarded.{launch-Fits}
use ssh_tunnel_manager.Ui.Dialog.{is_single, app_step-Fits}
use ssh_tunnel_manager.Ui.Effects.{Effect-step}
use ssh_tunnel_manager.Ui.Exclusive.{Fits, quiet-Fits}
use ssh_tunnel_manager.Ui.Jobs.{tray_toggle}

abbrev pub is_single_in : DeskEvent → Bool
is_single_in (app_event e) = is_single e
is_single_in _ = true

desk_run-Fits :
    {ro : Bool} (es : List DeskEvent) (d : Desktop)
    → All (λ e. is_single_in e ≡ true) es
    → Fits ro 0 d.app
    → Fits ro 0 (desk_run d es).app
desk_run-Fits {ro} es d single f =
    desk_run-HoldsIn (λ app tray. Fits ro 0 app) (λ e. is_single_in e ≡ true) (λ app tray f. f)
      (λ e app tray single f. app_step-Fits app e single f)
      (λ app tray f. app_step-Fits app tray_toggle refl f)
      (λ app tray f. quiet-Fits (Effect-step disconnects_all app) f) es d single f

-- The state after `DisconnectAll`, and at the exit.
abbrev torn : Desktop → Desktop
torn d = disconnects_in disconnecting d

abbrev left : Desktop → Desktop
left d = record (torn d) { shell = shell_step d.shell tears_down }

module _ (d : Desktop) (begun : d.shell.shutdown ≡ disconnecting) where
  disconnects-torn : desk_step d disconnects ≡ torn d
  unfolding desk_step live_step
  disconnects-torn = ap (λ s. step_in s d disconnects) begun ∙ ap (λ s. disconnects_in s d) begun

  tears_down-left : desk_step (torn d) (shell_event tears_down) ≡ left d
  unfolding desk_step live_step
  tears_down-left = ap (λ s. step_in s (torn d) (shell_event tears_down)) begun

  run-left : desk_run d (disconnects ∷ shell_event tears_down ∷ []) ≡ left d
  unfolding desk_run
  run-left = ap (λ e. desk_step e (shell_event tears_down)) disconnects-torn ∙ tears_down-left

  left-exited : (left d).shell.shutdown ≡ exited
  unfolding shell_step
  left-exited = ground arith

-- From the start of the program, in every run whose frames click at most one of the two buttons of the
-- conflict dialog: when the shutdown has begun and the process exits right after `DisconnectAll`, no
-- forward is tracked at the exit.
pub exit-quiet :
    (json : Json) (crypto : Cipher) (env : KeyEnv) (readable : Bool) (path : Text) (fs : FileSystem)
    (es : List DeskEvent) (d : Desktop) (id : Text)
    → All (λ e. is_single_in e ≡ true) es
    → d ≡ desk_run (opened (launch json crypto env readable path fs)) es
    → d.shell.shutdown ≡ disconnecting
    → let end = desk_run d (disconnects ∷ shell_event tears_down ∷ []) in
      (end.shell.shutdown ≡ exited) × (get_status end.app.tunnels.manager id ≡ none)
exit-quiet json crypto env readable path fs es d id single reached begun = (
  ap (λ e. e.shell.shutdown) (run-left d begun) ∙ left-exited d begun,
  ap (λ e. get_status e.app.tunnels.manager id) (run-left d begun)
      ∙ (unfold step in
          get_status-disconnect_all d.app.tunnels.manager id
            (subst (λ d'. Inv d'.app.tunnels.manager) (sym reached) kept)),
)
  where
    kept : Inv (desk_run (opened (launch json crypto env readable path fs)) es).app.tunnels.manager
    kept =
        (desk_run-Fits es _ single
          (launch-Fits json crypto env readable path fs)).sound.tunnels_inv.manager_inv
