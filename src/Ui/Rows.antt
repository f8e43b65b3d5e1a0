-- ===== src/Ui/Rows.antt =====
-- ui.go: which of two lookups of the zone row stays.
use ssh_tunnel_manager.Common.{
  ◌∙◌, ap, sym, arith, ◌==◌, Bool-cases, ◌≡◌, ◌≢◌, Option, Text, ℕ, refl, false, inl, inr,
}
use ssh_tunnel_manager.Ui.{zone_row, App, ZoneAction}
use ssh_tunnel_manager.Ui.Handlers.{run_cmd}

module _ (gen : ℕ) (status action : Text) (pending : Option ZoneAction) where
  -- A result of an older lookup changes nothing.
  zone_row_stale :
      (app : App)
      → (app.ui.zone_refresh_gen == gen) ≡ false
      → run_cmd (zone_row gen status action pending) app ≡ app
  unfolding run_cmd
  zone_row_stale app e = rw e refl

  zone_row-gen :
      (app : App)
      → (run_cmd (zone_row gen status action pending) app).ui.zone_refresh_gen
        ≡ app.ui.zone_refresh_gen
  unfolding run_cmd
  zone_row-gen app = elim (Bool-cases (app.ui.zone_refresh_gen == gen)) [
    | inl e ↦ rw e refl
    | inr e ↦ rw e refl
  ]

zone_row_skipped :
    (gen gen' : ℕ) (status status' action action' : Text) (pending pending' : Option ZoneAction)
    (app : App)
    → (app.ui.zone_refresh_gen == gen) ≡ false
    → run_cmd
        (zone_row gen status action pending)
        (run_cmd (zone_row gen' status' action' pending') app)
      ≡ run_cmd
          (zone_row gen' status' action' pending')
          (run_cmd (zone_row gen status action pending) app)
zone_row_skipped gen gen' status status' action action' pending pending' app e =
    zone_row_stale gen status action pending _
      (ap (λ g. g == gen) (zone_row-gen gen' status' action' pending' app) ∙ e)
    ∙ ap (run_cmd (zone_row gen' status' action' pending'))
        (sym (zone_row_stale gen status action pending app e))

-- Of two lookups with different generations, the order in which their results are applied makes no
-- difference: only the one that began last, whose generation is the current one, is shown.
zone_row_order :
    (gen gen' : ℕ) (status status' action action' : Text) (pending pending' : Option ZoneAction)
    (app : App)
    → gen ≢ gen'
    → run_cmd
        (zone_row gen status action pending)
        (run_cmd (zone_row gen' status' action' pending') app)
      ≡ run_cmd
          (zone_row gen' status' action' pending')
          (run_cmd (zone_row gen status action pending) app)
zone_row_order gen gen' status status' action action' pending pending' app ne =
    elim (Bool-cases (app.ui.zone_refresh_gen == gen)) [
      | inr e ↦ zone_row_skipped gen gen' status status' action action' pending pending' app e
      | inl e ↦
          let stale : (app.ui.zone_refresh_gen == gen') ≡ false = ground (arith, e, ne) in
          sym (zone_row_skipped gen' gen status' status action' action pending' pending app stale)
    ]
