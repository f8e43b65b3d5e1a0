-- ===== src/Page/Distinct.antt =====
-- page_main.go, page_settings.go, titlebar.go and dialog_conflict.go: a control is laid out once. The
-- comment of drawRoundedBtn warns of a button that is registered twice or not at all.
use ssh_tunnel_manager.Common.{
  ◌≡◌, refl, ap, ◌∙◌, ◌↔◌, ◌==◌, ==_iff, Bool, true, false, not, ◌&&◌, some, List, [], ◌∷◌, Text, ℕ,
  any, get_elem?,
}
use ssh_tunnel_manager.Page.{
  Hover, min_btn, max_btn, close_btn, settings_toggle, toggle_btn, test_btn, save_btn, zone_btn,
  kill_process_btn, change_port_btn, overlay_btn, remote_host_entry, remote_port_entry,
  local_host_entry, local_port_entry, ssh_user_entry, ssh_password_entry, api_key_entry,
  ddns_interval_entry, dns_resolver_entry, new_port_entry, auto_reconnect, forward_local,
}
use ssh_tunnel_manager.Page.Controls.{
  Control, button, field, switch, drag_area, layer_controls, layer_controls-layout, window_controls,
  has_zone_btn,
}
use ssh_tunnel_manager.Page.Window.{layout}
use ssh_tunnel_manager.Ui.{App}

abbrev all_controls : List Control
all_controls =
    drag_area
    ∷ button min_btn
    ∷ button max_btn
    ∷ button close_btn
    ∷ button settings_toggle
    ∷ button toggle_btn
    ∷ button test_btn
    ∷ button save_btn
    ∷ button zone_btn
    ∷ button kill_process_btn
    ∷ button change_port_btn
    ∷ button overlay_btn
    ∷ field remote_host_entry
    ∷ field remote_port_entry
    ∷ field local_host_entry
    ∷ field local_port_entry
    ∷ field ssh_user_entry
    ∷ field ssh_password_entry
    ∷ field api_key_entry
    ∷ field ddns_interval_entry
    ∷ field dns_resolver_entry
    ∷ field new_port_entry
    ∷ switch auto_reconnect
    ∷ switch forward_local
    ∷ []

abbrev number : Control → ℕ
number drag_area = 0
number (button min_btn) = 1
number (button max_btn) = 2
number (button close_btn) = 3
number (button settings_toggle) = 4
number (button toggle_btn) = 5
number (button test_btn) = 6
number (button save_btn) = 7
number (button zone_btn) = 8
number (button kill_process_btn) = 9
number (button change_port_btn) = 10
number (button overlay_btn) = 11
number (field remote_host_entry) = 12
number (field remote_port_entry) = 13
number (field local_host_entry) = 14
number (field local_port_entry) = 15
number (field ssh_user_entry) = 16
number (field ssh_password_entry) = 17
number (field api_key_entry) = 18
number (field ddns_interval_entry) = 19
number (field dns_resolver_entry) = 20
number (field new_port_entry) = 21
number (switch auto_reconnect) = 22
number (switch forward_local) = 23

all_controls-number : (c : Control) → get_elem? all_controls (number c) ≡ some c
all_controls-number drag_area = refl
all_controls-number (button min_btn) = refl
all_controls-number (button max_btn) = refl
all_controls-number (button close_btn) = refl
all_controls-number (button settings_toggle) = refl
all_controls-number (button toggle_btn) = refl
all_controls-number (button test_btn) = refl
all_controls-number (button save_btn) = refl
all_controls-number (button zone_btn) = refl
all_controls-number (button kill_process_btn) = refl
all_controls-number (button change_port_btn) = refl
all_controls-number (button overlay_btn) = refl
all_controls-number (field remote_host_entry) = refl
all_controls-number (field remote_port_entry) = refl
all_controls-number (field local_host_entry) = refl
all_controls-number (field local_port_entry) = refl
all_controls-number (field ssh_user_entry) = refl
all_controls-number (field ssh_password_entry) = refl
all_controls-number (field api_key_entry) = refl
all_controls-number (field ddns_interval_entry) = refl
all_controls-number (field dns_resolver_entry) = refl
all_controls-number (field new_port_entry) = refl
all_controls-number (switch auto_reconnect) = refl
all_controls-number (switch forward_local) = refl

number-injective : (c d : Control) → number c ≡ number d → c ≡ d
number-injective c d h =
    cc (all_controls-number c, all_controls-number d, ap (get_elem? all_controls) h)

abbrev pub same : Control → Control → Bool
same c d = number c == number d

pub same_iff : (c d : Control) → (same c d ≡ true) ↔ (c ≡ d)
same_iff c d = (λ h. number-injective c d ((==_iff _ _).0 h), λ e. (==_iff _ _).1 (ap number e))

-- No control is there twice.
abbrev pub once : List Control → Bool
once [] = true
once (c ∷ cs) = not (any (same c) cs) && once cs

window_controls-once :
    (settings zone dialog new_port : Bool)
    → once (window_controls settings zone dialog new_port) ≡ true
window_controls-once true true true true = refl
window_controls-once true true true false = refl
window_controls-once true true false true = refl
window_controls-once true true false false = refl
window_controls-once true false true true = refl
window_controls-once true false true false = refl
window_controls-once true false false true = refl
window_controls-once true false false false = refl
window_controls-once false true true true = refl
window_controls-once false true true false = refl
window_controls-once false true false true = refl
window_controls-once false true false false = refl
window_controls-once false false true true = refl
window_controls-once false false true false = refl
window_controls-once false false false true = refl
window_controls-once false false false false = refl

-- In every state of the app, no control of the window is laid out twice.
pub once-layout :
    (hovered : Hover) (app_version : Text) (app : App)
    → once (layer_controls (layout hovered app_version app)) ≡ true
once-layout hovered app_version app =
    ap once (layer_controls-layout hovered app_version app)
    ∙ window_controls-once app.ui.settings_expanded (has_zone_btn app.ui)
        app.ui.show_port_conflict_dialog app.ui.show_new_port_entry
