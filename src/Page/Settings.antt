-- ===== src/Page/Settings.antt =====
-- page_settings.go: the settings section.
use ssh_tunnel_manager.Common.{not, ◌++◌, Option, none, some, Text, text, if◌then◌else◌}
use ssh_tunnel_manager.Page.{
  Widget, nothing, spacer, label, check_box, click, column, row, scrolls, end, flexed, ◌▸◌, Hover,
  settings_field, draw_section, draw_rounded_btn, save_btn, zone_btn, auto_reconnect, forward_local,
  remote_host_entry, remote_port_entry, local_host_entry, local_port_entry, ssh_user_entry,
  ssh_password_entry, api_key_entry, ddns_interval_entry, dns_resolver_entry,
}
use ssh_tunnel_manager.Theme.{color_text_sec, color_danger, color_blue, color_on_accent, color_gray}
use ssh_tunnel_manager.Ui.{Ui, ZoneAction, zone_action_install, zone_action_remove}

unfoldable pub settings_card_forward : Widget
settings_card_forward = column (
    settings_field (text "远程主机") remote_host_entry
    ▸ spacer
    ▸ settings_field (text "远程端口") remote_port_entry
    ▸ spacer
    ▸ settings_field (text "本地主机") local_host_entry
    ▸ spacer
    ▸ settings_field (text "本地端口") local_port_entry
    ▸ spacer
    ▸ settings_field (text "SSH 用户") ssh_user_entry
    ▸ spacer
    ▸ settings_field (text "SSH 密码") ssh_password_entry
    ▸ spacer
    ▸ settings_field (text "API Key (x-api-key)") api_key_entry
    ▸ end)

-- The line 域名解析优化 with its state.
abbrev pub zone_line : Ui → Widget
zone_line ui = label (text "域名解析优化：" ++ ui.zone_status_text) color_text_sec

abbrev pub zone_caption : Ui → Text
zone_caption ui = if ui.zone_busy then text "执行中…" else ui.zone_action_label

-- 移除 as a text link.
abbrev pub zone_link : Hover → Ui → Widget
zone_link hovered ui =
    click zone_btn
      (label (zone_caption ui) (if hovered zone_btn then color_danger else color_text_sec))

abbrev pub zone_controls : Hover → Ui → Option ZoneAction → Widget
zone_controls hovered ui none = zone_line ui
zone_controls hovered ui (some zone_action_remove) =
    row (flexed (zone_line ui) (zone_link hovered ui ▸ end))
zone_controls hovered ui (some zone_action_install) = column (
    zone_line ui
    ▸ spacer
    ▸ draw_rounded_btn hovered zone_btn (zone_caption ui) color_blue color_on_accent
    ▸ end)

unfoldable pub zone_forward_row : Hover → Ui → Widget
zone_forward_row hovered ui =
    if not ui.zone_supported then nothing else zone_controls hovered ui ui.zone_pending

unfoldable pub version_row : Text → Widget
version_row app_version = label (text "版本 " ++ app_version) color_gray

unfoldable pub settings_card_advanced : Hover → Text → Ui → Widget
settings_card_advanced hovered app_version ui = draw_section (text "高级选项") (
    column (
      settings_field (text "DDNS 探测周期(秒)") ddns_interval_entry
      ▸ spacer
      ▸ settings_field (text "DNS 解析服务器") dns_resolver_entry
      ▸ spacer
      ▸ check_box auto_reconnect (text "自动重连")
      ▸ spacer
      ▸ check_box forward_local (text "本地转发 (-L)")
      ▸ spacer
      ▸ zone_forward_row hovered ui
      ▸ spacer
      ▸ version_row app_version
      ▸ end))

unfoldable pub settings_save_btn : Hover → Widget
settings_save_btn hovered =
    draw_rounded_btn hovered save_btn (text "保存设置") color_blue color_on_accent

-- `settingsSection` of page_main.go.
unfoldable pub settings_section : Hover → Text → Ui → Widget
settings_section hovered app_version ui = column (
    settings_card_forward
    ▸ spacer
    ▸ settings_card_advanced hovered app_version ui
    ▸ spacer
    ▸ settings_save_btn hovered
    ▸ spacer
    ▸ end)

-- `LayoutScrollable`
unfoldable pub layout_scrollable : Widget → Widget
layout_scrollable content = scrolls content
