-- ===== src/Page/Captions.antt =====
-- page_main.go and page_settings.go against ui.go: what a button says and what a click on it does.
use ssh_tunnel_manager.Common.{
  ◌≡◌, refl, ap, inl, inr, true, false, ◌||◌, Bool-cases, Option, none, some, [], ◌∷◌, ◌++◌,
  append-nil, Text, text, if◌then◌else◌,
}
use ssh_tunnel_manager.Config.{ForwardConfig}
use ssh_tunnel_manager.Config.Store.{get_forward}
use ssh_tunnel_manager.Manager.{get_status, Status}
use ssh_tunnel_manager.Page.{
  Widget, nothing, spacer, filled, label, edits, check_box, moves_window, claims_press, click,
  inset, exact, placed, column, row, stack, scrolls, Cells, end, rigid, flexed, expanded, stacked,
  Hover, Clickable, toggle_btn, action_btn, ghost_btn,
}
use ssh_tunnel_manager.Page.Controls.{button}
use ssh_tunnel_manager.Page.Distinct.{same}
use ssh_tunnel_manager.Page.Main.{render_action_row, toggle_running, toggle_caption}
use ssh_tunnel_manager.Ui.{App, by_check, checking, disconnect_forward, current_forward_id}
use ssh_tunnel_manager.Ui.Handlers.{toggle_connection, check_port_and_connect, clean_up, is_up}

-- The text of all labels of a widget, and the text on a button: that of the labels inside it.
unfoldable mutual
  pub text_of : Widget → Text
  text_of nothing = []
  text_of spacer = []
  text_of (filled c w) = text_of w
  text_of (label t c) = t
  text_of (edits e) = []
  text_of (check_box s t) = t
  text_of moves_window = []
  text_of (claims_press w) = text_of w
  text_of (click b w) = text_of w
  text_of (inset w) = text_of w
  text_of (exact w) = text_of w
  text_of (placed w) = text_of w
  text_of (column ws) = text_in ws
  text_of (row ws) = text_in ws
  text_of (stack ws) = text_in ws
  text_of (scrolls w) = text_of w

  pub text_in : Cells → Text
  text_in end = []
  text_in (rigid w ws) = text_of w ++ text_in ws
  text_in (flexed w ws) = text_of w ++ text_in ws
  text_in (expanded w ws) = text_of w ++ text_in ws
  text_in (stacked w ws) = text_of w ++ text_in ws

unfoldable mutual
  pub caption_of : Clickable → Widget → Text
  caption_of b nothing = []
  caption_of b spacer = []
  caption_of b (filled c w) = caption_of b w
  caption_of b (label t c) = []
  caption_of b (edits e) = []
  caption_of b (check_box s t) = []
  caption_of b moves_window = []
  caption_of b (claims_press w) = caption_of b w
  caption_of b (click b' w) = if same (button b) (button b') then text_of w else caption_of b w
  caption_of b (inset w) = caption_of b w
  caption_of b (exact w) = caption_of b w
  caption_of b (placed w) = caption_of b w
  caption_of b (column ws) = caption_in b ws
  caption_of b (row ws) = caption_in b ws
  caption_of b (stack ws) = caption_in b ws
  caption_of b (scrolls w) = caption_of b w

  pub caption_in : Clickable → Cells → Text
  caption_in b end = []
  caption_in b (rigid w ws) = caption_of b w ++ caption_in b ws
  caption_in b (flexed w ws) = caption_of b w ++ caption_in b ws
  caption_in b (expanded w ws) = caption_of b w ++ caption_in b ws
  caption_in b (stacked w ws) = caption_of b w ++ caption_in b ws

toggle_drawn :
    (hovered : Hover) (app : App)
    → caption_of toggle_btn (render_action_row hovered app) ≡ toggle_caption (toggle_running app)
unfolding render_action_row action_btn ghost_btn caption_of text_of
toggle_drawn hovered app = append-nil _

-- What a click on a button with this text comes to.
pub data Toggled (fwd : ForwardConfig) (app : App) : Text → App → Type 0 where
  stops : Toggled fwd app (text "断开") (disconnect_forward fwd.id app)
  starts :
      (app' : App)
      → app'.jobs ≡ checking by_check fwd ∷ app.jobs
      → app'.ui.connect_busy ≡ true
      → Toggled fwd app (text "连接") app'

clean_up-jobs :
    (status : Option Status) (id : Text) (app : App) → (clean_up status id app).jobs ≡ app.jobs
clean_up-jobs none id app = refl
clean_up-jobs (some s) id app = refl

check-Toggled :
    (fwd : ForwardConfig) (app : App)
    → (app.ui.connect_busy || app.ui.conflict_busy) ≡ false
    → Toggled fwd app
        (toggle_caption (is_up (get_status app.tunnels.manager fwd.id)))
        (check_port_and_connect fwd app)
unfolding check_port_and_connect
check-Toggled fwd app free = elim (Bool-cases (is_up (get_status app.tunnels.manager fwd.id))) [
  | inl up ↦ rw (free, up) stops
  | inr down ↦
      rw (free, down)
        (starts _ (ap (λ js. checking by_check fwd ∷ js) (clean_up-jobs _ fwd.id app)) refl)
]

current_id :
    (fwd : ForwardConfig) (app : App)
    → get_forward app.config ≡ some fwd
    → current_forward_id app.config ≡ fwd.id
unfolding current_forward_id
current_id fwd app e = rw e refl

-- When a forward is configured and no other goroutine connects: the first button of the main page says 断开
-- and a click on it ends the tunnel, and does nothing else, or it says 连接 and a click starts one goroutine,
-- which checks the port for the forward, and takes `connectBusy` for it.
pub render_action_row-Toggled :
    (hovered : Hover) (fwd : ForwardConfig) (app : App)
    → get_forward app.config ≡ some fwd
    → (app.ui.connect_busy || app.ui.conflict_busy) ≡ false
    → Toggled fwd app
        (caption_of toggle_btn (render_action_row hovered app))
        (toggle_connection app)
unfolding toggle_connection
render_action_row-Toggled hovered fwd app e free =
    rw (toggle_drawn hovered app, current_id fwd app e, e, toggle_connection)
      (check-Toggled fwd app free)
