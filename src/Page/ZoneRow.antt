-- ===== src/Page/ZoneRow.antt =====
-- page_settings.go against ui.go: the button of the zone row.
use mathlib.Core.Option.{none-ne-some}
use mathlib.Core.Path.{subst}
use ssh_tunnel_manager.Common.{
  not, ◌≡◌, ◌≢◌, refl, sym, Bool, true, false, Option, none, some, List, append-nil, Text, text,
  if◌then◌else◌, All,
}
use ssh_tunnel_manager.Crypto.{Cipher, KeyEnv}
use ssh_tunnel_manager.Config.Save.{Json}
use ssh_tunnel_manager.Files.{FileSystem}
use ssh_tunnel_manager.Page.{nothing, Hover, zone_btn, draw_rounded_btn}
use ssh_tunnel_manager.Page.Controls.{has_zone_btn}
use ssh_tunnel_manager.Page.Settings.{zone_forward_row, zone_controls, zone_caption}
use ssh_tunnel_manager.Startup.{launch}
use ssh_tunnel_manager.Startup.Guarded.{launch-app_run}
use ssh_tunnel_manager.Ui.{App, Ui, ZoneAction, zone_action_install, zone_action_remove}
use ssh_tunnel_manager.Ui.Dialog.{is_single}
use ssh_tunnel_manager.Ui.Effects.{RowShows, no_action, enables, updates, removes}
use ssh_tunnel_manager.Ui.Handlers.{start_action, start_zone_forward_action}
use ssh_tunnel_manager.Ui.Jobs.{AppEvent, app_run}
use ssh_tunnel_manager.Page.Captions.{caption_of, text_of}
use ssh_tunnel_manager.Ui.Effects.{RowsOk}
use ssh_tunnel_manager.Page.Controls.{zone_acts}

zone_drawn :
    (hovered : Hover) (ui : Ui) (pending : Option ZoneAction)
    → pending ≢ none
    → caption_of zone_btn (zone_controls hovered ui pending) ≡ zone_caption ui
unfolding draw_rounded_btn caption_of text_of
zone_drawn hovered ui none h = absurd (h refl)
zone_drawn hovered ui (some zone_action_install) h = append-nil _
zone_drawn hovered ui (some zone_action_remove) h = append-nil _

-- What a click on the button of the zone row comes to.
pub data ZoneClicked (app : App) : Text → App → Type 0 where
  waits : app.ui.zone_busy ≡ true → ZoneClicked app (text "执行中…") app
  installs : ZoneClicked app (text "启用") (start_action (some zone_action_install) app)
  renews : ZoneClicked app (text "更新") (start_action (some zone_action_install) app)
  takes_away : ZoneClicked app (text "移除") (start_action (some zone_action_remove) app)

abbrev caption_for : Bool → Text → Text
caption_for busy name = if busy then text "执行中…" else name

abbrev click_for : Bool → Option ZoneAction → App → App
click_for busy pending app = if busy then app else start_action pending app

clicked :
    (app : App) (name : Text) (pending : Option ZoneAction) (busy : Bool)
    → app.ui.zone_busy ≡ busy
    → RowShows name pending
    → pending ≢ none
    → ZoneClicked app (caption_for busy name) (click_for busy pending app)
clicked app name pending true e shown some_action = waits e
clicked app name pending false e (no_action l p) some_action = absurd (some_action p)
clicked app name pending false e (enables l p) some_action = rw (l, p) installs
clicked app name pending false e (updates l p) some_action = rw (l, p) renews
clicked app name pending false e (removes l p) some_action = rw (l, p) takes_away

zone_acts-some :
    (supported : Bool) (pending : Option ZoneAction)
    → zone_acts supported pending ≡ true
    → (supported ≡ true) × (pending ≢ none)
zone_acts-some supported none h = cc
zone_acts-some supported (some a) h = (h, λ e. absurd (none-ne-some a (sym e)))

zone_row_drawn :
    (hovered : Hover) (ui : Ui) (supported : Bool)
    → supported ≡ true
    → ui.zone_pending ≢ none
    → caption_of zone_btn
        (if not supported then nothing else zone_controls hovered ui ui.zone_pending)
      ≡ zone_caption ui
zone_row_drawn hovered ui true e h = zone_drawn hovered ui ui.zone_pending h
zone_row_drawn hovered ui false e h = cc

row-ZoneClicked :
    (hovered : Hover) (app : App)
    → RowsOk app.ui
    → has_zone_btn app.ui ≡ true
    → ZoneClicked app
        (caption_of zone_btn (zone_forward_row hovered app.ui))
        (start_zone_forward_action app)
unfolding zone_forward_row start_zone_forward_action
row-ZoneClicked hovered app rows there =
    let (supported, acts) = zone_acts-some _ _ there in
    rw (zone_row_drawn hovered app.ui app.ui.zone_supported supported acts)
      (clicked app _ _ app.ui.zone_busy refl rows.shown acts)

-- At every moment of a run from the start on, whose frames click at most one of the two buttons of the
-- conflict dialog: when the zone row has its button, the button says 执行中… and a click
-- changes nothing, since an action is under way, or it says 启用 or 更新 and a click starts the
-- installation, or it says 移除 and a click starts the removal. It is never without a text.
pub launch-ZoneClicked :
    (json : Json) (crypto : Cipher) (env : KeyEnv) (readable : Bool) (path : Text) (fs : FileSystem)
    (es : List AppEvent) (hovered : Hover) (app : App)
    → All (λ e. is_single e ≡ true) es
    → app ≡ app_run (launch json crypto env readable path fs) es
    → has_zone_btn app.ui ≡ true
    → ZoneClicked app
        (caption_of zone_btn (zone_forward_row hovered app.ui))
        (start_zone_forward_action app)
launch-ZoneClicked json crypto env readable path fs es hovered app single reached there =
    row-ZoneClicked hovered app (subst (λ a. RowsOk a.ui) (sym reached) kept) there
  where
    kept : RowsOk (app_run (launch json crypto env readable path fs) es).ui
    kept = (launch-app_run json crypto env readable path fs es single).sound.rows_ok
