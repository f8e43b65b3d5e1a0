-- ===== src/Page/Window.antt =====
-- titlebar.go, and `Layout` of ui.go: the whole window.
use ssh_tunnel_manager.Common.{true, false, not, List, [], ◌∷◌, Text, text, if◌then◌else◌}
use ssh_tunnel_manager.Page.{
  Widget, nothing, spacer, filled, label, moves_window, inset, exact, placed, column, row, stack,
  end, flexed, expanded, stacked, ◌▸◌, Hover, title_bar_btn, min_btn, max_btn, close_btn,
}
use ssh_tunnel_manager.Page.Dialog.{layout_port_conflict_dialog}
use ssh_tunnel_manager.Page.Main.{main_content}
use ssh_tunnel_manager.Theme.{color_bg, color_card, color_text_sec}
use ssh_tunnel_manager.Ui.{App, Ui}
use ssh_tunnel_manager.Ui.Handlers.{Frame, handle_events, update_hero_status}

-- While the dialog is open the bar does not move the window.
abbrev pub drag_surface : Ui → Widget
drag_surface ui = if not ui.show_port_conflict_dialog then moves_window else nothing

abbrev title_controls : Hover → Widget
title_controls hovered = row (
    title_bar_btn hovered min_btn (text "–") false
    ▸ spacer
    ▸ title_bar_btn hovered max_btn (text "□") false
    ▸ spacer
    ▸ title_bar_btn hovered close_btn (text "✕") true
    ▸ end)

unfoldable pub layout_title_bar : Hover → Ui → Widget
layout_title_bar hovered ui = exact (
    filled color_card (
      stack (
        expanded (drag_surface ui) (
          expanded (placed (inset (title_controls hovered)))
            (stacked (label (text "SSH 隧道管理器") color_text_sec) end)))))

abbrev page_below : Hover → Text → App → Widget
page_below hovered app_version app =
    filled color_bg
      (column (layout_title_bar hovered app.ui ▸ flexed (main_content hovered app_version app) end))

-- The layers of the window, the lowest first.
unfoldable pub layout : Hover → Text → App → List Widget
layout hovered app_version app =
    page_below hovered app_version app
    ∷ (if app.ui.show_port_conflict_dialog then layout_port_conflict_dialog app.ui ∷ [] else [])

-- A frame: its events, the status, and what is drawn.
unfoldable pub draw_frame : Hover → Text → Frame → App → List Widget
draw_frame hovered app_version frame app =
    layout hovered app_version (update_hero_status (handle_events frame app))
