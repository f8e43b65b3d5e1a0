-- ===== src/Desktop/Shown.antt =====
-- tray.go: the tray shows the status, and its menu does what it says.
use mathlib.Core.Bool.{false≢true}
use mathlib.Core.Path.{subst}
use ssh_tunnel_manager.Common.{
  ◌≡◌, ◌⊎◌, refl, sym, ap, ◌∙◌, inl, inr, Bool, true, false, Bool-cases, equal_iff, Option, none,
  some, List, [], ◌∷◌, All, Text, text, ◌++◌, if◌then◌else◌,
}
use ssh_tunnel_manager.Common.Strings.{equal}
use ssh_tunnel_manager.Desktop.{Desktop, opened, DeskEvent, tray_status, desk_run}
use ssh_tunnel_manager.Desktop.Induction.{desk_run-HoldsIn}
use ssh_tunnel_manager.Manager.{
  Status, get_status, connecting, running, disconnected, port_in_use, connection_refused,
  auth_failed, unreachable, stopped,
}
use ssh_tunnel_manager.Manager.World.{step, disconnects_all}
use ssh_tunnel_manager.Theme.{Nrgba, color_green, color_yellow, color_gray}
use ssh_tunnel_manager.Tray.{
  Tray, initial_tray, repainted, poll, toggle_title, tray_status_text, tray_icon_color,
}
use ssh_tunnel_manager.Ui.{App, tray_start, spawn, status_text, current_forward_id}
use ssh_tunnel_manager.Ui.Handlers.{is_up}
use ssh_tunnel_manager.Ui.Jobs.{app_step, tray_toggle, tray_toggled}

-- All that the tray shows belongs to one status.
abbrev IsPainted : Tray → Type 0
IsPainted tray = (tray ≡ initial_tray) ⊎ (tray ≡ repainted tray.last)

if-IsPainted :
    (b : Bool) (st : Text) (tray : Tray)
    → IsPainted tray
    → IsPainted (if b then tray else repainted st)
if-IsPainted true st tray p = p
if-IsPainted false st tray p = inr refl

poll-IsPainted : (st : Text) (tray : Tray) → IsPainted tray → IsPainted (poll st tray)
unfolding poll
poll-IsPainted st tray p = if-IsPainted (equal st tray.last) st tray p

every_event : (es : List DeskEvent) → All (λ e. Unit {0}) es
every_event [] = tt
every_event (e ∷ es) = (tt, every_event es)

desk_run-IsPainted :
    (es : List DeskEvent) (d : Desktop) → IsPainted d.tray → IsPainted (desk_run d es).tray
desk_run-IsPainted es d p =
    desk_run-HoldsIn (λ app tray. IsPainted tray) (λ e. Unit {0})
      (λ app tray p. poll-IsPainted (tray_status app) tray p) (λ e app tray ok p. p)
      (λ app tray p. p) (λ app tray p. p) es d (every_event es) p

status_text_filled : (s : Option Status) → equal (status_text s) [] ≡ false
unfolding equal
status_text_filled none = refl
status_text_filled (some connecting) = refl
status_text_filled (some running) = refl
status_text_filled (some disconnected) = refl
status_text_filled (some port_in_use) = refl
status_text_filled (some connection_refused) = refl
status_text_filled (some auth_failed) = refl
status_text_filled (some unreachable) = refl
status_text_filled (some stopped) = refl

already :
    (st : Text) (tray : Tray)
    → equal st [] ≡ false
    → st ≡ tray.last
    → IsPainted tray
    → tray ≡ repainted st
already st tray filled e (inl p) =
    absurd (false≢true (sym filled ∙ ((equal_iff st []).1 (e ∙ ap (λ t. t.last) p))))
already st tray filled e (inr p) = p ∙ ap repainted (sym e)

poll-repainted :
    (st : Text) (tray : Tray) → equal st [] ≡ false → IsPainted tray → poll st tray ≡ repainted st
unfolding poll
poll-repainted st tray filled p = elim (Bool-cases (equal st tray.last)) [
  | inl e ↦ rw e (already st tray filled ((equal_iff st tray.last).0 e) p)
  | inr e ↦ rw e refl
]

toggle_title_lem :
    (s : Option Status) → toggle_title (status_text s) ≡ (if is_up s then text "断开" else text "连接")
unfolding equal
toggle_title_lem none = refl
toggle_title_lem (some connecting) = refl
toggle_title_lem (some running) = refl
toggle_title_lem (some disconnected) = refl
toggle_title_lem (some port_in_use) = refl
toggle_title_lem (some connection_refused) = refl
toggle_title_lem (some auth_failed) = refl
toggle_title_lem (some unreachable) = refl
toggle_title_lem (some stopped) = refl

-- What a click on the item with this text comes to.
pub data Clicked (app : App) : Text → App → Type 0 where
  stops_all : Clicked app (text "断开") (record app { tunnels = step app.tunnels disconnects_all })
  connects : Clicked app (text "连接") (spawn tray_start app)

clicked :
    (app : App) (b : Bool)
    → Clicked app (if b then text "断开" else text "连接") (
        if b
        then record app { tunnels = step app.tunnels disconnects_all }
        else spawn tray_start app)
clicked app true = stops_all
clicked app false = connects

-- What a user reads and sees for each status.
abbrev pub wording : Option Status → Text
wording (some running) = text "已连接"
wording (some connecting) = text "连接中…"
wording _ = text "未连接"

abbrev pub light : Option Status → Nrgba
light (some running) = color_green
light (some connecting) = color_yellow
light _ = color_gray

tray_status_text_lem : (s : Option Status) → tray_status_text (status_text s) ≡ wording s
unfolding tray_status_text equal
tray_status_text_lem none = refl
tray_status_text_lem (some connecting) = refl
tray_status_text_lem (some running) = refl
tray_status_text_lem (some disconnected) = refl
tray_status_text_lem (some port_in_use) = refl
tray_status_text_lem (some connection_refused) = refl
tray_status_text_lem (some auth_failed) = refl
tray_status_text_lem (some unreachable) = refl
tray_status_text_lem (some stopped) = refl

tray_icon_color_lem : (s : Option Status) → tray_icon_color (status_text s) ≡ light s
unfolding tray_icon_color equal
tray_icon_color_lem none = refl
tray_icon_color_lem (some connecting) = refl
tray_icon_color_lem (some running) = refl
tray_icon_color_lem (some disconnected) = refl
tray_icon_color_lem (some port_in_use) = refl
tray_icon_color_lem (some connection_refused) = refl
tray_icon_color_lem (some auth_failed) = refl
tray_icon_color_lem (some unreachable) = refl
tray_icon_color_lem (some stopped) = refl

-- The tray shows the status of the configured forward in all its places, and the item of its menu does what
-- it says.
pub record Agrees (app : App) (tray : Tray) : Type 0 where
  pub icon : tray.icon ≡ light (get_status app.tunnels.manager (current_forward_id app.config))
  pub title : tray.title ≡ wording (get_status app.tunnels.manager (current_forward_id app.config))
  pub tooltip :
      tray.tooltip
      ≡ text "SSH 隧道管理器 — "
        ++ wording (get_status app.tunnels.manager (current_forward_id app.config))
  pub m_status :
      tray.m_status
      ≡ text "状态: " ++ wording (get_status app.tunnels.manager (current_forward_id app.config))
  pub does : Clicked app tray.m_toggle (app_step app tray_toggle)

Agrees-repainted : (app : App) → Agrees app (repainted (tray_status app))
unfolding tray_status app_step tray_toggled
Agrees-repainted app =
    let s = get_status app.tunnels.manager (current_forward_id app.config) in
    record {
      icon = tray_icon_color_lem s;
      title = tray_status_text_lem s;
      tooltip = ap (λ t. text "SSH 隧道管理器 — " ++ t) (tray_status_text_lem s);
      m_status = ap (λ t. text "状态: " ++ t) (tray_status_text_lem s);
      does = rw (toggle_title_lem s) (clicked app (is_up s));
    }

-- After any run of the program, whatever the tray has shown before: a poll of the status makes the icon, the
-- title, the tooltip and the two items of the menu those of the status of the configured forward. Until the
-- app goes on, the item that says 断开 ends all tunnels, and the one that says 连接 starts a goroutine of
-- trayConnect.
pub poll-Agrees :
    (app : App) (es : List DeskEvent)
    → let d = desk_run (opened app) es in Agrees d.app (poll (tray_status d.app) d.tray)
poll-Agrees app es =
    let d = desk_run (opened app) es in
    subst (Agrees d.app)
      (sym (
        poll-repainted (tray_status d.app) d.tray (unfold tray_status in status_text_filled _)
          (desk_run-IsPainted es (opened app) (inl refl))))
      (Agrees-repainted d.app)
