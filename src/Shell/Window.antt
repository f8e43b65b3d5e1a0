-- ===== src/Shell/Window.antt =====
-- main.go: a request to show the window that comes while there is none is answered.
use mathlib.Core.Bool.{false≢true}
use mathlib.Core.Path.{subst}
use ssh_tunnel_manager.Common.{ap, ◌∙◌, sym, refl, true, false, [], ◌∷◌, ◌≡◌, Bool, List, ◌||◌}
use ssh_tunnel_manager.Shell.{
  Shutdown, Shell, Loop, Consumer, ShellEvent, creating, in_window, destroyed, waiting, receiving,
  raising, forwarding, asks, consumes, loops, closes, quits, receives_quit, signals, tears_down,
  shell_step, shell_run, consume, loop_step, close_window, shut_down, signal_quit, initial_shell,
  not_begun, disconnecting, exited,
}

abbrev is_forwarding : Consumer → Bool
is_forwarding forwarding = true
is_forwarding _ = false

-- A request is in one of the channels or on its way between them.
abbrev pub is_pending : Shell → Bool
is_pending s = s.show_ch || (is_forwarding s.consumer || s.show_req)

abbrev pub has_window : Loop → Bool
has_window in_window = true
has_window destroyed = true
has_window _ = false

-- `winAlive` is right.
abbrev pub IsAccurate : Shell → Type 0
IsAccurate s = s.win_alive ≡ has_window s.loop

abbrev shell_of : Bool → Bool → Bool → Bool → Bool → Loop → Consumer → Shutdown → Shell
shell_of c r q a m l k d = record {
  show_ch = c;
  show_req = r;
  quit_ch = q;
  win_alive = a;
  maximized = m;
  loop = l;
  consumer = k;
  shutdown = d;
}

step_tracked :
    (c r q a m : Bool) (l : Loop) (k : Consumer) (d : Shutdown) (e : ShellEvent)
    → a ≡ has_window l
    → IsAccurate (shell_step (shell_of c r q a m l k d) e)
unfolding shell_step consume loop_step close_window shut_down signal_quit
step_tracked c r q a m l k d asks h = h
step_tracked true r q a m l receiving d consumes h = h
step_tracked false r q a m l receiving d consumes h = h
step_tracked c r q a m l raising d consumes h = h
step_tracked c true q a m l forwarding d consumes h = h
step_tracked c false q a m l forwarding d consumes h = h
step_tracked c r q a m creating k d loops h = refl
step_tracked c r q a m in_window k d loops h = h
step_tracked c r q a m destroyed k d loops h = refl
step_tracked c true q a m waiting k d loops h = h
step_tracked c false q a m waiting k d loops h = h
step_tracked c r q a m creating k d closes h = h
step_tracked c r q a m in_window k d closes h = h
step_tracked c r q a m destroyed k d closes h = h
step_tracked c r q a m waiting k d closes h = h
step_tracked c r q a m l k d quits h = h
step_tracked c r false a m l k d receives_quit h = h
step_tracked c r true a m l k not_begun receives_quit h = h
step_tracked c r true a m l k disconnecting receives_quit h = h
step_tracked c r true a m l k exited receives_quit h = h
step_tracked c r q a m l k not_begun signals h = h
step_tracked c r q a m l k disconnecting signals h = h
step_tracked c r q a m l k exited signals h = h
step_tracked c r q a m l k not_begun tears_down h = h
step_tracked c r q a m l k disconnecting tears_down h = h
step_tracked c r q a m l k exited tears_down h = h

run_tracked : (s : Shell) (es : List ShellEvent) → IsAccurate s → IsAccurate (shell_run s es)
unfolding shell_run
run_tracked s [] h = h
run_tracked s (e ∷ es) h = run_tracked (shell_step s e) es (
    step_tracked s.show_ch s.show_req s.quit_ch s.win_alive s.maximized s.loop s.consumer s.shutdown
      e h)

-- The request is being answered, or it is still there.
pub data Kept (s : Shell) : Type 0 where
  answered : s.loop ≡ creating → Kept s
  kept : s.loop ≡ waiting → is_pending s ≡ true → Kept s

-- The shell without a window.
abbrev hidden : Bool → Bool → Bool → Bool → Consumer → Shutdown → Shell
hidden c r q m k d = shell_of c r q false m waiting k d

hidden-Kept :
    (c r q m : Bool) (k : Consumer) (d : Shutdown) (e : ShellEvent)
    → is_pending (hidden c r q m k d) ≡ true
    → Kept (shell_step (hidden c r q m k d) e)
unfolding shell_step consume loop_step close_window shut_down signal_quit
hidden-Kept c r q m k d asks p = kept refl refl
hidden-Kept true r q m receiving d consumes p = kept refl refl
hidden-Kept false r q m receiving d consumes p = kept refl p
hidden-Kept c r q m raising d consumes p = kept refl p
hidden-Kept c true q m forwarding d consumes p = kept refl p
hidden-Kept true false q m forwarding d consumes p = kept refl refl
hidden-Kept false false q m forwarding d consumes p = kept refl refl
hidden-Kept c true q m k d loops p = answered refl
hidden-Kept c false q m k d loops p = kept refl p
hidden-Kept c r q m k d closes p = kept refl p
hidden-Kept c r q m k d quits p = kept refl p
hidden-Kept c r false m k d receives_quit p = kept refl p
hidden-Kept c r true m k not_begun receives_quit p = kept refl p
hidden-Kept c r true m k disconnecting receives_quit p = kept refl p
hidden-Kept c r true m k exited receives_quit p = kept refl p
hidden-Kept c r q m k not_begun signals p = kept refl p
hidden-Kept c r q m k disconnecting signals p = kept refl p
hidden-Kept c r q m k exited signals p = kept refl p
hidden-Kept c r q m k not_begun tears_down p = kept refl p
hidden-Kept c r q m k disconnecting tears_down p = kept refl p
hidden-Kept c r q m k exited tears_down p = kept refl p

-- The steps that the two goroutines are waiting to make.
abbrev pub turns : List ShellEvent
turns = consumes ∷ consumes ∷ consumes ∷ loops ∷ loops ∷ []

hidden_shown :
    (c r q m : Bool) (k : Consumer) (d : Shutdown)
    → is_pending (hidden c r q m k d) ≡ true
    → (shell_run (hidden c r q m k d) turns).loop ≡ in_window
unfolding shell_run shell_step consume loop_step
hidden_shown true true q m receiving d p = refl
hidden_shown true false q m receiving d p = refl
hidden_shown false true q m receiving d p = refl
hidden_shown false false q m receiving d p = absurd (false≢true p)
hidden_shown true true q m raising d p = refl
hidden_shown true false q m raising d p = refl
hidden_shown false true q m raising d p = refl
hidden_shown false false q m raising d p = absurd (false≢true p)
hidden_shown true true q m forwarding d p = refl
hidden_shown true false q m forwarding d p = refl
hidden_shown false true q m forwarding d p = refl
hidden_shown false false q m forwarding d p = refl

as_hidden :
    (P : Shell → Type 0) (s : Shell)
    → s.loop ≡ waiting
    → s.win_alive ≡ has_window s.loop
    → (is_pending s ≡ true
        → P (hidden s.show_ch s.show_req s.quit_ch s.maximized s.consumer s.shutdown))
    → is_pending s ≡ true
    → P s
as_hidden P s w h f p =
    subst
      (λ a. P (shell_of s.show_ch s.show_req s.quit_ch a s.maximized s.loop s.consumer s.shutdown))
      (sym (h ∙ ap has_window w))
      (subst
        (λ l. P (shell_of s.show_ch s.show_req s.quit_ch false s.maximized l s.consumer s.shutdown))
        (sym w) (f p))

-- After every run: when `runAppLoop` waits without a window and a request to show it is in a channel or
-- on its way, then no step loses it before the loop begins to make a window, and three turns of the
-- consumer and two of the loop open one.
pub request-answered :
    (es : List ShellEvent)
    → let s = shell_run initial_shell es in
      s.loop ≡ waiting
      → is_pending s ≡ true
      → ((e : ShellEvent) → Kept (shell_step s e)) × ((shell_run s turns).loop ≡ in_window)
request-answered es w p =
    let s = shell_run initial_shell es in
    let h : IsAccurate s = run_tracked initial_shell es (unfold initial_shell in refl) in
    (
      λ e. as_hidden (λ t. Kept (shell_step t e)) s w h (hidden-Kept _ _ _ _ _ _ e) p,
      as_hidden (λ t. (shell_run t turns).loop ≡ in_window) s w h (hidden_shown _ _ _ _ _ _) p,
    )
