-- ===== src/Tray.antt =====
-- tray.go: what the tray shows. The icon is its color: the picture is drawn by a loop over floating-point
-- numbers and encoded as PNG, which is left out.
use ssh_tunnel_manager.Common.{equal, ◌++◌, Text, text, if◌then◌else◌}
use ssh_tunnel_manager.Theme.{Nrgba, no_color, color_green, color_yellow, color_gray}

-- What `systray` shows, and the variable `last` of the goroutine that polls the status.
pub record Tray : Type 0 where
  pub icon : Nrgba
  pub title : Text
  pub tooltip : Text
  pub m_status : Text
  pub m_toggle : Text
  pub last : Text

-- The start of `RunSystray`.
abbrev pub initial_tray : Tray
initial_tray = record {
  icon = no_color;
  title = text "";
  tooltip = text "SSH 隧道管理器";
  m_status = text "状态获取中…";
  m_toggle = text "连接";
  last = text "";
}

unfoldable pub tray_status_text : Text → Text
tray_status_text st =
    if equal st (text "running")
    then text "已连接"
    else if equal st (text "connecting")
    then text "连接中…"
    else text "未连接"

-- The color that `trayIconPNG` gives the dot.
unfoldable pub tray_icon_color : Text → Nrgba
tray_icon_color st =
    if equal st (text "running")
    then color_green
    else if equal st (text "connecting")
    then color_yellow
    else color_gray

abbrev pub toggle_title : Text → Text
toggle_title st = if equal st (text "running") then text "断开" else text "连接"

abbrev pub repainted : Text → Tray
repainted st = record {
  icon = tray_icon_color st;
  title = tray_status_text st;
  tooltip = text "SSH 隧道管理器 — " ++ tray_status_text st;
  m_status = text "状态: " ++ tray_status_text st;
  m_toggle = toggle_title st;
  last = st;
}

-- One round of the polling goroutine, with the status that it reads. All items are set anew.
unfoldable pub poll : Text → Tray → Tray
poll st tray = if equal st tray.last then tray else repainted st
