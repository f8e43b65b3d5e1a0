-- ===== src/Page/Main.antt =====
-- page_main.go: the main page.
use ssh_tunnel_manager.Common.{
  Bool, false, ◌++◌, Option, none, some, Text, text, int_text, if◌then◌else◌,
}
use ssh_tunnel_manager.Config.{ForwardConfig}
use ssh_tunnel_manager.Config.Store.{get_forward}
use ssh_tunnel_manager.Manager.{get_status}
use ssh_tunnel_manager.Page.{
  Widget, nothing, spacer, filled, label, click, inset, column, row, Cells, end, flexed, ◌▸◌, Hover,
  draw_card, action_btn, ghost_btn, settings_toggle, toggle_btn, test_btn,
}
use ssh_tunnel_manager.Page.Settings.{settings_section, layout_scrollable}
use ssh_tunnel_manager.SshCommand.{is_empty}
use ssh_tunnel_manager.Theme.{
  Nrgba, tint, color_card, color_text, color_text_sec, color_text_inv, color_on_accent, color_blue,
  color_blue_dark, color_green, color_green_bg, color_danger, color_danger_dark, color_danger_bg,
}
use ssh_tunnel_manager.Ui.{App, Ui, current_forward_id}
use ssh_tunnel_manager.Ui.Handlers.{is_up}

abbrev address_text : Option ForwardConfig → Text
address_text none = text "未配置转发规则"
address_text (some fwd) =
    fwd.local_host
    ++ (text ":"
        ++ (int_text fwd.local_port
            ++ (text " → " ++ (fwd.remote_host ++ (text ":" ++ int_text fwd.remote_port)))))

unfoldable pub render_hero_status : App → Widget
render_hero_status app = draw_card (tint app.ui.hero_dot_color) (
    inset (
      column (
        row (
          filled app.ui.hero_dot_color nothing
          ▸ label app.ui.hero_status_text app.ui.hero_dot_color
          ▸ end)
        ▸ spacer
        ▸ label (address_text (get_forward app.config)) color_text_sec
        ▸ end)))

-- The button shows 断开 when the tunnel is running.
abbrev pub toggle_running : App → Bool
toggle_running app = is_up (get_status app.tunnels.manager (current_forward_id app.config))

abbrev pub toggle_caption : Bool → Text
toggle_caption running = if running then text "断开" else text "连接"

abbrev toggle_fill : Bool → Bool → Nrgba
toggle_fill running hovered =
    if hovered
    then (if running then color_danger_dark else color_blue_dark)
    else (if running then color_danger else color_blue)

abbrev toggle_text : Bool → Nrgba
toggle_text running = if running then color_text_inv else color_on_accent

unfoldable pub render_action_row : Hover → App → Widget
render_action_row hovered app =
    let running = toggle_running app in
    row (
      flexed
        (click toggle_btn (
          action_btn (toggle_caption running) (toggle_fill running (hovered toggle_btn))
            (toggle_text running) false))
        (flexed (ghost_btn hovered test_btn (text "测试") app.ui.testing) end))

unfoldable pub render_test_result : Ui → Widget
render_test_result ui =
    if is_empty ui.test_result
    then nothing
    else inset (
        draw_card (if ui.test_ok then color_green_bg else color_danger_bg)
          (inset (label ui.test_result (if ui.test_ok then color_green else color_danger))))

unfoldable pub settings_header : Ui → Widget
settings_header ui = click settings_toggle (
    draw_card color_card (
      inset (
        row (
          label (text "连接设置") color_text
          ▸ flexed spacer
              (label (if ui.settings_expanded then text "▾" else text "▸") color_text_sec ▸ end)))))

-- The free space above the buttons: flexed in the compact page, fixed in the scrollable one.
abbrev pub free_space : Bool → Cells → Cells
free_space expanded ws = if expanded then spacer ▸ ws else flexed spacer ws

abbrev pub expanded_section : Hover → Text → Ui → Cells
expanded_section hovered app_version ui =
    if ui.settings_expanded then spacer ▸ settings_section hovered app_version ui ▸ end else end

-- The content of `mainContent`; the status has been recomputed by `updateHeroStatus`.
unfoldable pub page_content : Hover → Text → App → Widget
page_content hovered app_version app = column (
    render_hero_status app
    ▸ free_space app.ui.settings_expanded (
        render_action_row hovered app
        ▸ render_test_result app.ui
        ▸ spacer
        ▸ settings_header app.ui
        ▸ expanded_section hovered app_version app.ui))

unfoldable pub main_content : Hover → Text → App → Widget
main_content hovered app_version app = inset (
    if app.ui.settings_expanded
    then layout_scrollable (page_content hovered app_version app)
    else page_content hovered app_version app)
