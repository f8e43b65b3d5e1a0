-- ===== src/Page.antt =====
-- page_main.go, page_settings.go, titlebar.go, dialog_conflict.go and theme.go: what is drawn in a frame,
-- as a tree of the calls of Gio. Here are the tree and the shared drawing helpers.
pub mod Main
pub mod Settings
pub mod Dialog
pub mod Window
pub mod Bounded
pub mod Controls
pub mod Distinct
pub mod Captions
pub mod ZoneRow
use ssh_tunnel_manager.Common.{ℕ, Bool, true, false, Text, if◌then◌else◌}
use ssh_tunnel_manager.Theme.{
  Nrgba, color_bg, color_border, color_input_bg, color_text, color_text_sec, color_text_inv,
  color_gray, color_gray_bg, color_danger, color_blue_dark,
}

-- The fields of `UI` of the type `widget.Clickable`.
pub data Clickable : Type 0 where
  min_btn max_btn close_btn : Clickable
  settings_toggle toggle_btn test_btn save_btn zone_btn : Clickable
  kill_process_btn change_port_btn overlay_btn : Clickable

-- Those of the type `widget.Editor`.
pub data Editor : Type 0 where
  remote_host_entry remote_port_entry local_host_entry local_port_entry : Editor
  ssh_user_entry ssh_password_entry api_key_entry : Editor
  ddns_interval_entry dns_resolver_entry new_port_entry : Editor

-- Those of the type `widget.Bool`.
pub data Switch : Type 0 where
  auto_reconnect forward_local : Switch

-- One call of Gio each, with its children: sizes, paddings, radii, fonts and the colors of check boxes,
-- hints and scrollbars are left out.
mutual
  pub data Widget : Type 0 where
    -- `layout.Dimensions{}`
    nothing : Widget
    spacer : Widget
    -- `paint.Fill`, with what is drawn over it.
    filled : Nrgba → Widget → Widget
    label : Text → Nrgba → Widget
    edits : Editor → Widget
    check_box : Switch → Text → Widget
    -- The input area of `system.ActionMove`, and of `system.ActionRaise` with what is drawn over it.
    moves_window : Widget
    claims_press : Widget → Widget
    -- `Clickable.Layout`
    click : Clickable → Widget → Widget
    inset : Widget → Widget
    -- Constraints set to a size by `layout.Exact`.
    exact : Widget → Widget
    -- `layout.Center` and `layout.E`
    placed : Widget → Widget
    -- `layout.Flex` with its axis, `layout.Stack`, and `material.List` with its one element.
    column : Cells → Widget
    row : Cells → Widget
    stack : Cells → Widget
    scrolls : Widget → Widget

  pub data Cells : Type 0 where
    end : Cells
    rigid : Widget → Cells → Cells
    flexed : Widget → Cells → Cells
    expanded : Widget → Cells → Cells
    stacked : Widget → Cells → Cells

infixr 60 ◌▸◌
-- The list of the rigid children of a Flex.
abbrev pub ◌▸◌ : Widget → Cells → Cells
w ▸ ws = rigid w ws

-- `btn.Hovered()`
abbrev pub Hover : Type 0
Hover = Clickable → Bool

abbrev pub draw_card : Nrgba → Widget → Widget
draw_card bg content = filled bg content

-- `actionBtn`: it paints and does not register the clicks.
unfoldable pub action_btn : Text → Nrgba → Nrgba → Bool → Widget
action_btn caption bg fg disabled = exact (
    filled (if disabled then color_gray_bg else bg)
      (placed (label caption (if disabled then color_gray else fg))))

-- `ghostBtn`
unfoldable pub ghost_btn : Hover → Clickable → Text → Bool → Widget
ghost_btn hovered btn caption disabled = click btn (
    exact (
      filled color_border (
        filled (if hovered btn then color_input_bg else color_bg)
          (placed (label caption (if disabled then color_gray else color_text))))))

-- `drawRoundedBtn`: it paints and registers the clicks.
unfoldable pub draw_rounded_btn : Hover → Clickable → Text → Nrgba → Nrgba → Widget
draw_rounded_btn hovered btn caption bg fg =
    click btn
      (exact (filled (if hovered btn then color_blue_dark else bg) (placed (label caption fg))))

unfoldable pub draw_section : Text → Widget → Widget
draw_section title content = inset (column (label title color_text_sec ▸ spacer ▸ content ▸ end))

unfoldable pub filled_editor : Editor → Widget
filled_editor editor =
    exact (stack (expanded (filled color_input_bg nothing) (stacked (inset (edits editor)) end)))

unfoldable pub settings_field : Text → Editor → Widget
settings_field caption editor =
    column (label caption color_text_sec ▸ spacer ▸ filled_editor editor ▸ end)

abbrev title_fill : Bool → Bool → Nrgba
title_fill danger hovered =
    if danger
    then (if hovered then color_danger else color_input_bg)
    else (if hovered then color_border else color_input_bg)

abbrev title_text : Bool → Bool → Nrgba
title_text danger hovered =
    if danger
    then (if hovered then color_text_inv else color_danger)
    else (if hovered then color_text else color_text_sec)

unfoldable pub title_bar_btn : Hover → Clickable → Text → Bool → Widget
title_bar_btn hovered btn glyph danger = click btn (
    exact (
      filled (title_fill danger (hovered btn))
        (claims_press (placed (label glyph (title_text danger (hovered btn)))))))
