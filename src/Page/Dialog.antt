-- ===== src/Page/Dialog.antt =====
-- dialog_conflict.go: the dialog of a port conflict.
use ssh_tunnel_manager.Common.{not, ◌++◌, Text, text, int_text, if◌then◌else◌}
use ssh_tunnel_manager.Page.{
  Widget, nothing, spacer, filled, label, click, inset, column, row, stack, end, flexed, expanded,
  stacked, ◌▸◌, draw_card, action_btn, filled_editor, new_port_entry, kill_process_btn,
  change_port_btn, overlay_btn,
}
use ssh_tunnel_manager.Theme.{
  color_overlay, color_card, color_text, color_text_sec, color_text_inv, color_on_accent,
  color_blue, color_danger,
}
use ssh_tunnel_manager.Ui.{Ui}

abbrev conflict_text : Ui → Text
conflict_text ui =
    text "端口 " ++ (int_text ui.port_conflict_port ++ (text " 已被占用:\n" ++ ui.port_conflict_process))

abbrev pub new_port_field : Widget
new_port_field =
    column
      (spacer ▸ label (text "新端口号:") color_text_sec ▸ spacer ▸ filled_editor new_port_entry ▸ end)

-- Hidden until 更换端口 is pressed.
abbrev pub new_port_input : Ui → Widget
new_port_input ui = if not ui.show_new_port_entry then nothing else new_port_field

abbrev dialog_buttons : Ui → Widget
dialog_buttons ui = row (
    flexed
      (click kill_process_btn
        (action_btn (text "结束进程") color_danger color_text_inv ui.conflict_busy))
      (flexed
        (click change_port_btn
          (action_btn (text "更换端口") color_blue color_on_accent ui.conflict_busy))
        end))

abbrev dialog_card : Ui → Widget
dialog_card ui = draw_card color_card (
    inset (
      column (
        label (text "端口冲突") color_danger
        ▸ spacer
        ▸ label (conflict_text ui) color_text
        ▸ new_port_input ui
        ▸ spacer
        ▸ dialog_buttons ui
        ▸ end)))

-- The overlay takes the clicks that no control of the card takes.
unfoldable pub layout_port_conflict_dialog : Ui → Widget
layout_port_conflict_dialog ui =
    stack
      (expanded (filled color_overlay (click overlay_btn nothing)) (stacked (dialog_card ui) end))
