-- ===== src/Page/Bounded.antt =====
-- page_main.go, page_settings.go, dialog_conflict.go: where the heights come from. The comments of
-- mainContent and filledEditor tell of a child that took all the space there was.
use ssh_tunnel_manager.Common.{
  ◌≡◌, refl, Bool, true, false, not, ◌&&◌, Option, none, some, List, [], ◌∷◌, Text, if◌then◌else◌,
  arith,
}
use ssh_tunnel_manager.Page.{
  Widget, nothing, spacer, filled, label, edits, check_box, moves_window, claims_press, click,
  inset, exact, placed, column, row, stack, scrolls, Cells, end, rigid, flexed, expanded, stacked,
  ◌▸◌, Hover, action_btn, ghost_btn, draw_rounded_btn, draw_section, filled_editor, settings_field,
  title_bar_btn,
}
use ssh_tunnel_manager.Page.Dialog.{layout_port_conflict_dialog}
use ssh_tunnel_manager.Page.Main.{
  main_content, page_content, render_hero_status, render_action_row, render_test_result,
  settings_header, free_space,
}
use ssh_tunnel_manager.Page.Settings.{
  settings_section, settings_card_forward, settings_card_advanced, settings_save_btn,
  zone_forward_row, zone_controls, version_row, layout_scrollable,
}
use ssh_tunnel_manager.Page.Window.{layout, layout_title_bar}
use ssh_tunnel_manager.SshCommand.{is_empty}
use ssh_tunnel_manager.Ui.{App, Ui, ZoneAction, zone_action_install, zone_action_remove}

-- Whether each part that takes up the whole height it is offered stands where that height is given: a
-- flexed child of a column, and the background of a stack. The flag tells whether the height is given, as
-- it is by `exact`, to a flexed child of such a column and to the window itself; a list offers no bound.
unfoldable mutual
  pub fits : Bool → Widget → Bool
  fits given nothing = true
  fits given spacer = true
  fits given (filled c w) = fits given w
  fits given (label t c) = true
  fits given (edits e) = true
  fits given (check_box s t) = true
  fits given moves_window = true
  fits given (claims_press w) = fits given w
  fits given (click b w) = fits given w
  fits given (inset w) = fits given w
  fits given (exact w) = fits true w
  fits given (placed w) = fits false w
  fits given (column ws) = fits_column given ws
  fits given (row ws) = fits_row ws
  fits given (stack ws) = fits_stack given ws
  fits given (scrolls w) = fits false w

  pub fits_column : Bool → Cells → Bool
  fits_column given end = true
  fits_column given (rigid w ws) = fits false w && fits_column given ws
  fits_column given (flexed w ws) = given && (fits true w && fits_column given ws)
  fits_column given (expanded w ws) = false
  fits_column given (stacked w ws) = false

  pub fits_row : Cells → Bool
  fits_row end = true
  fits_row (rigid w ws) = fits false w && fits_row ws
  fits_row (flexed w ws) = fits false w && fits_row ws
  fits_row (expanded w ws) = false
  fits_row (stacked w ws) = false

  pub fits_stack : Bool → Cells → Bool
  fits_stack given end = true
  fits_stack given (rigid w ws) = false
  fits_stack given (flexed w ws) = false
  fits_stack given (expanded w ws) = given && (fits given w && fits_stack given ws)
  fits_stack given (stacked w ws) = fits false w && fits_stack given ws

abbrev pub Fitting : List Widget → Type 0
Fitting [] = Unit
Fitting (w ∷ ws) = (fits true w ≡ true) × Fitting ws

if_fits :
    (b given : Bool) (v w : Widget)
    → fits given v ≡ true
    → fits given w ≡ true
    → fits given (if b then v else w) ≡ true
if_fits true given v w p q = p
if_fits false given v w p q = q

both : {a b : Bool} → a ≡ true → b ≡ true → (a && b) ≡ true
both p q = ground (p, q, arith)

zone_controls-fits :
    (hovered : Hover) (ui : Ui) (pending : Option ZoneAction)
    → fits false (zone_controls hovered ui pending) ≡ true
unfolding fits draw_rounded_btn
zone_controls-fits hovered ui none = refl
zone_controls-fits hovered ui (some zone_action_install) = refl
zone_controls-fits hovered ui (some zone_action_remove) = refl

zone_forward_row-fits :
    (hovered : Hover) (ui : Ui) → fits false (zone_forward_row hovered ui) ≡ true
unfolding zone_forward_row
zone_forward_row-fits hovered ui =
    if_fits (not ui.zone_supported) false _ _ (unfold fits in refl)
      (zone_controls-fits hovered ui ui.zone_pending)

settings_section-fits :
    (hovered : Hover) (app_version : Text) (ui : Ui)
    → fits false (settings_section hovered app_version ui) ≡ true
unfolding settings_section settings_card_forward settings_card_advanced settings_save_btn
    draw_rounded_btn draw_section settings_field filled_editor version_row fits
settings_section-fits hovered app_version ui = rw (zone_forward_row-fits hovered ui) refl

test_result-fits : (ui : Ui) → fits false (render_test_result ui) ≡ true
unfolding render_test_result fits
test_result-fits ui = if_fits (is_empty ui.test_result) false _ _ refl refl

module _ (hovered : Hover) (app_version : Text) (app : App) where
  abbrev buttons : Bool → Cells
  buttons b =
      render_action_row hovered app
      ▸ render_test_result app.ui
      ▸ spacer
      ▸ settings_header app.ui
      ▸ (if b then spacer ▸ settings_section hovered app_version app.ui ▸ end else end)

  abbrev content : Bool → Widget
  content b = column (render_hero_status app ▸ free_space b (buttons b))

  buttons-fits : (given b : Bool) → fits_column given (buttons b) ≡ true
  unfolding fits render_action_row action_btn ghost_btn settings_header
  buttons-fits given true =
      both (test_result-fits app.ui) (both (settings_section-fits hovered app_version app.ui) refl)
  buttons-fits given false = both (test_result-fits app.ui) refl

  scrollable-fits : (b : Bool) → fits true (if b then scrolls (content b) else content b) ≡ true
  unfolding fits render_hero_status
  scrollable-fits true = buttons-fits false true
  scrollable-fits false = buttons-fits true false

  main_content-fits : fits true (main_content hovered app_version app) ≡ true
  unfolding main_content page_content layout_scrollable fits
  main_content-fits = scrollable-fits app.ui.settings_expanded

  title_bar-fits : fits false (layout_title_bar hovered app.ui) ≡ true
  unfolding layout_title_bar title_bar_btn fits
  title_bar-fits = both (if_fits (not app.ui.show_port_conflict_dialog) true _ _ refl refl) refl

  dialog-fits : fits true (layout_port_conflict_dialog app.ui) ≡ true
  unfolding layout_port_conflict_dialog action_btn filled_editor fits
  dialog-fits = both (both (if_fits (not app.ui.show_new_port_entry) false _ _ refl refl) refl) refl

  layers :
      (b : Bool) (w d : Widget)
      → fits true w ≡ true
      → fits true d ≡ true
      → Fitting (w ∷ (if b then d ∷ [] else []))
  layers true w d p q = (p, (q, tt))
  layers false w d p q = (p, tt)

  -- In every state of the app, whatever the pointer hovers over, each part of the window that takes up the
  -- whole height it is offered stands where that height is given: the flexed space of the page never
  -- stands in the scrollable list, and no input field spreads over the page or the dialog.
  pub layout-Fitting : Fitting (layout hovered app_version app)
  unfolding layout
  layout-Fitting =
      layers app.ui.show_port_conflict_dialog _ _
        (unfold fits in both title_bar-fits (both main_content-fits refl)) dialog-fits
