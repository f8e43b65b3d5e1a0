-- ===== src/Page/Controls.antt =====
-- page_main.go, page_settings.go, titlebar.go and dialog_conflict.go: which controls a window has.
use ssh_tunnel_manager.Common.{
  ◌≡◌, refl, ap, ap₂, ◌∙◌, Bool, true, false, not, Option, none, some, List, [], ◌∷◌, ◌++◌,
  append_assoc, append-nil, Text, if◌then◌else◌,
}
use ssh_tunnel_manager.Page.{
  Widget, nothing, spacer, filled, label, edits, check_box, moves_window, claims_press, click,
  inset, exact, placed, column, row, stack, scrolls, Cells, end, rigid, flexed, expanded, stacked,
  ◌▸◌, Hover, Clickable, Editor, Switch, min_btn, max_btn, close_btn, settings_toggle, toggle_btn,
  test_btn, save_btn, zone_btn, kill_process_btn, change_port_btn, overlay_btn, remote_host_entry,
  remote_port_entry, local_host_entry, local_port_entry, ssh_user_entry, ssh_password_entry,
  api_key_entry, ddns_interval_entry, dns_resolver_entry, new_port_entry, auto_reconnect,
  forward_local, action_btn, ghost_btn, draw_rounded_btn, draw_section, filled_editor,
  settings_field, title_bar_btn,
}
use ssh_tunnel_manager.Page.Dialog.{layout_port_conflict_dialog, new_port_field}
use ssh_tunnel_manager.Page.Main.{
  main_content, page_content, render_hero_status, render_action_row, render_test_result,
  settings_header, free_space,
}
use ssh_tunnel_manager.Page.Settings.{
  settings_section, settings_card_forward, settings_card_advanced, settings_save_btn,
  zone_forward_row, zone_controls, version_row, layout_scrollable,
}
use ssh_tunnel_manager.Page.Window.{layout, layout_title_bar}
use ssh_tunnel_manager.SshCommand.{is_empty}
use ssh_tunnel_manager.Ui.{App, Ui, ZoneAction, zone_action_install, zone_action_remove}

-- What reacts to the pointer or the keyboard.
pub data Control : Type 0 where
  button : Clickable → Control
  field : Editor → Control
  switch : Switch → Control
  drag_area : Control

-- The controls of a widget in the order in which they are laid out.
unfoldable mutual
  pub controls : Widget → List Control
  controls nothing = []
  controls spacer = []
  controls (filled c w) = controls w
  controls (label t c) = []
  controls (edits e) = field e ∷ []
  controls (check_box s t) = switch s ∷ []
  controls moves_window = drag_area ∷ []
  controls (claims_press w) = controls w
  controls (click b w) = button b ∷ controls w
  controls (inset w) = controls w
  controls (exact w) = controls w
  controls (placed w) = controls w
  controls (column ws) = cell_controls ws
  controls (row ws) = cell_controls ws
  controls (stack ws) = cell_controls ws
  controls (scrolls w) = controls w

  pub cell_controls : Cells → List Control
  cell_controls end = []
  cell_controls (rigid w ws) = controls w ++ cell_controls ws
  cell_controls (flexed w ws) = controls w ++ cell_controls ws
  cell_controls (expanded w ws) = controls w ++ cell_controls ws
  cell_controls (stacked w ws) = controls w ++ cell_controls ws

unfoldable pub layer_controls : List Widget → List Control
layer_controls [] = []
layer_controls (w ∷ ws) = controls w ++ layer_controls ws

abbrev when : Bool → List Control → List Control
when b cs = if b then cs else []

-- The button of the zone row is there when the row is, with an action.
abbrev pub zone_acts : Bool → Option ZoneAction → Bool
zone_acts supported none = false
zone_acts supported (some action) = supported

abbrev pub has_zone_btn : Ui → Bool
has_zone_btn ui = zone_acts ui.zone_supported ui.zone_pending

abbrev setting_fields : List Control
setting_fields =
    field remote_host_entry
    ∷ field remote_port_entry
    ∷ field local_host_entry
    ∷ field local_port_entry
    ∷ field ssh_user_entry
    ∷ field ssh_password_entry
    ∷ field api_key_entry
    ∷ field ddns_interval_entry
    ∷ field dns_resolver_entry
    ∷ switch auto_reconnect
    ∷ switch forward_local
    ∷ []

abbrev pub section_controls : Bool → List Control
section_controls zone =
    setting_fields ++ (when zone (button zone_btn ∷ []) ++ (button save_btn ∷ []))

abbrev pub dialog_controls : Bool → List Control
dialog_controls new_port =
    button overlay_btn
    ∷ (when new_port (field new_port_entry ∷ [])
        ++ (button kill_process_btn ∷ button change_port_btn ∷ []))

-- What the window has, from whether the settings are expanded, the zone row has a button, the dialog is
-- open, and its editor is.
abbrev pub window_controls : Bool → Bool → Bool → Bool → List Control
window_controls settings zone dialog new_port =
    when (not dialog) (drag_area ∷ [])
    ++ ((button min_btn
          ∷ button max_btn
          ∷ button close_btn
          ∷ button toggle_btn
          ∷ button test_btn
          ∷ button settings_toggle
          ∷ [])
        ++ (when settings (section_controls zone) ++ when dialog (dialog_controls new_port)))

module _ (hovered : Hover) where
  zone_controls_lem :
      (ui : Ui) (supported : Bool) (pending : Option ZoneAction)
      → controls (if not supported then nothing else zone_controls hovered ui pending)
        ≡ when (zone_acts supported pending) (button zone_btn ∷ [])
  unfolding controls draw_rounded_btn
  zone_controls_lem ui false none = refl
  zone_controls_lem ui false (some a) = refl
  zone_controls_lem ui true none = refl
  zone_controls_lem ui true (some zone_action_install) = refl
  zone_controls_lem ui true (some zone_action_remove) = refl

  zone_row_lem :
      (ui : Ui)
      → controls (zone_forward_row hovered ui) ≡ when (has_zone_btn ui) (button zone_btn ∷ [])
  unfolding zone_forward_row
  zone_row_lem ui = zone_controls_lem ui ui.zone_supported ui.zone_pending

  section_lem :
      (app_version : Text) (ui : Ui)
      → controls (settings_section hovered app_version ui) ≡ section_controls (has_zone_btn ui)
  unfolding settings_section settings_card_forward settings_card_advanced settings_save_btn
      draw_rounded_btn draw_section settings_field filled_editor version_row controls
  section_lem app_version ui =
      ap (λ cs. setting_fields ++ (cs ++ (button save_btn ∷ [])))
        (append-nil _ ∙ append-nil _ ∙ zone_row_lem ui)

if_lem :
    (b : Bool) (v w : Widget)
    → controls (if b then v else w) ≡ (if b then controls v else controls w)
if_lem true v w = refl
if_lem false v w = refl

unless_lem : (b : Bool) (v : Widget) → controls (if not b then nothing else v) ≡ when b (controls v)
unfolding controls
unless_lem true v = refl
unless_lem false v = refl

test_result_lem : (ui : Ui) → controls (render_test_result ui) ≡ []
unfolding render_test_result controls
test_result_lem ui = if_lem (is_empty ui.test_result) _ _ ∙ same (is_empty ui.test_result)
  where
    same : (b : Bool) → when b [] ≡ []
    same true = refl
    same false = refl

module _ (hovered : Hover) (app_version : Text) (app : App) where
  abbrev page_buttons : List Control → List Control
  page_buttons cs = button toggle_btn ∷ button test_btn ∷ button settings_toggle ∷ cs

  abbrev content : Bool → Widget
  content b = column (
      render_hero_status app
      ▸ free_space b (
          render_action_row hovered app
          ▸ render_test_result app.ui
          ▸ spacer
          ▸ settings_header app.ui
          ▸ (if b then spacer ▸ settings_section hovered app_version app.ui ▸ end else end)))

  content_lem :
      (b : Bool)
      → controls (if b then scrolls (content b) else content b)
        ≡ page_buttons (when b (section_controls (has_zone_btn app.ui)))
  unfolding controls render_hero_status render_action_row action_btn ghost_btn settings_header
  content_lem true =
      ap₂ (λ cs ds. button toggle_btn ∷ button test_btn ∷ (cs ++ (button settings_toggle ∷ ds)))
        (test_result_lem app.ui) (append-nil _ ∙ section_lem hovered app_version app.ui)
  content_lem false =
      ap (λ cs. button toggle_btn ∷ button test_btn ∷ (cs ++ (button settings_toggle ∷ [])))
        (test_result_lem app.ui)

  main_lem :
      controls (main_content hovered app_version app)
      ≡ page_buttons (when app.ui.settings_expanded (section_controls (has_zone_btn app.ui)))
  unfolding main_content page_content layout_scrollable controls
  main_lem = content_lem app.ui.settings_expanded

  drag_lem :
      (b : Bool)
      → controls (if not b then moves_window else nothing) ≡ when (not b) (drag_area ∷ [])
  unfolding controls
  drag_lem true = refl
  drag_lem false = refl

  abbrev bar_buttons : List Control
  bar_buttons = button min_btn ∷ button max_btn ∷ button close_btn ∷ []

  title_bar_lem :
      controls (layout_title_bar hovered app.ui)
      ≡ when (not app.ui.show_port_conflict_dialog) (drag_area ∷ []) ++ bar_buttons
  unfolding layout_title_bar title_bar_btn controls
  title_bar_lem = ap (λ cs. cs ++ bar_buttons) (drag_lem app.ui.show_port_conflict_dialog)

  dialog_lem :
      controls (layout_port_conflict_dialog app.ui) ≡ dialog_controls app.ui.show_new_port_entry
  unfolding layout_port_conflict_dialog action_btn filled_editor controls
  dialog_lem =
      ap (λ cs. button overlay_btn ∷ cs)
        (append-nil _
          ∙ ap (λ cs. cs ++ (button kill_process_btn ∷ button change_port_btn ∷ []))
              (unless_lem app.ui.show_new_port_entry new_port_field))

  layers_lem :
      (b : Bool) (w d : Widget)
      → layer_controls (w ∷ (if b then d ∷ [] else [])) ≡ controls w ++ when b (controls d)
  unfolding layer_controls
  layers_lem true w d = ap (λ cs. controls w ++ cs) (append-nil (controls d))
  layers_lem false w d = refl

  -- In every state of the app the window has exactly these controls, in this order: the surface that moves
  -- the window unless the dialog is open, the three buttons of the title bar, 连接, 测试 and the header of
  -- the settings; with the settings expanded their nine fields and two switches, the button of the zone row
  -- when the row is supported and has an action, and 保存; and over all of them, with the dialog open, its
  -- overlay, the field of the new port when it is shown, and its two buttons.
  pub layer_controls-layout :
      layer_controls (layout hovered app_version app)
      ≡ window_controls app.ui.settings_expanded
          (has_zone_btn app.ui)
          app.ui.show_port_conflict_dialog
          app.ui.show_new_port_entry
  unfolding layout
  layer_controls-layout =
      layers_lem dialog _ _
      ∙ (unfold controls in
          ap (λ ts. (ts ++ (controls main ++ [])) ++ when dialog (controls shown)) title_bar_lem
          ∙ ap (λ ms. ((drag ++ bar_buttons) ++ ms) ++ when dialog (controls shown))
              (append-nil _ ∙ main_lem)
          ∙ ap (λ ds. ((drag ++ bar_buttons) ++ page_controls) ++ when dialog ds) dialog_lem
          ∙ append_assoc (drag ++ bar_buttons) page_controls _
          ∙ append_assoc drag bar_buttons _)
    where
      dialog : Bool
      dialog = app.ui.show_port_conflict_dialog

      main : Widget
      main = main_content hovered app_version app

      shown : Widget
      shown = layout_port_conflict_dialog app.ui

      drag : List Control
      drag = when (not dialog) (drag_area ∷ [])

      page_controls : List Control
      page_controls =
          page_buttons (when app.ui.settings_expanded (section_controls (has_zone_btn app.ui)))
