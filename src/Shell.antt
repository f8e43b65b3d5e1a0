-- ===== src/Shell.antt =====
-- main.go, tray.go and singleinstance_unix.go: the window, the requests to show it, and the way to the
-- exit. A step is one section of one goroutine.
pub mod Window
use ssh_tunnel_manager.Common.{Bool, true, false, not, ◌&&◌, ◌||◌, List, [], ◌∷◌, if◌then◌else◌}

-- Where `runAppLoop` is: before the window is made, in the event loop, between the end of the event loop
-- and the section that takes `winAlive` back, and at the receive from `showReq`.
pub data Loop : Type 0 where
  creating in_window destroyed waiting : Loop

-- The consumer of `showCh`: at its receive, before the raise of the window that it saw alive, and before
-- the send to `showReq`.
pub data Consumer : Type 0 where
  receiving raising forwarding : Consumer

-- The quit goroutines: `shutdown` has not begun, is in `DisconnectAll`, or has exited the process.
pub data Shutdown : Type 0 where
  not_begun disconnecting exited : Shutdown

-- The channels have a buffer of one, so a channel is whether it is full.
pub record Shell : Type 0 where
  pub show_ch : Bool
  pub show_req : Bool
  pub quit_ch : Bool
  pub win_alive : Bool
  pub maximized : Bool
  pub loop : Loop
  pub consumer : Consumer
  pub shutdown : Shutdown

unfoldable pub initial_shell : Shell
initial_shell = record {
  show_ch = false;
  show_req = false;
  quit_ch = false;
  win_alive = false;
  maximized = false;
  loop = creating;
  consumer = receiving;
  shutdown = not_begun;
}

pub data ShellEvent : Type 0 where
  -- A send to `showCh` that gives up when it is full: the tray, a second launch, or `trayConnect`.
  asks : ShellEvent
  consumes : ShellEvent
  -- A step of `runAppLoop`, and the end of the window.
  loops : ShellEvent
  closes : ShellEvent
  -- `signalQuit`, its receiver, a signal of the system, and the end of `DisconnectAll`.
  quits : ShellEvent
  receives_quit : ShellEvent
  signals : ShellEvent
  tears_down : ShellEvent

-- One step of the consumer. The send to `showReq` waits while it is full.
unfoldable pub consume : Shell → Shell
consume s = elim s.consumer [
  | receiving ↦
      if s.show_ch
      then record s { show_ch = false; consumer = if s.win_alive then raising else forwarding }
      else s
  | raising ↦ record s { consumer = receiving }
  | forwarding ↦ if s.show_req then s else record s { show_req = true; consumer = receiving }
]

-- One step of `runAppLoop`; inside the window it waits for events.
unfoldable pub loop_step : Shell → Shell
loop_step s = elim s.loop [
  | creating ↦ record s { loop = in_window; win_alive = true }
  | in_window ↦ s
  | destroyed ↦ record s { loop = waiting; win_alive = false; maximized = false }
  | waiting ↦ if s.show_req then record s { loop = creating; show_req = false } else s
]

unfoldable pub close_window : Shell → Shell
close_window s = elim s.loop [ in_window ↦ record s { loop = destroyed } | _ ↦ s ]

-- The body of the `sync.Once`.
unfoldable pub shut_down : Shell → Shell
shut_down s = elim s.shutdown [ not_begun ↦ record s { shutdown = disconnecting } | _ ↦ s ]

unfoldable pub signal_quit : Shell → Shell
signal_quit s = record s { quit_ch = true }

unfoldable pub shell_step : Shell → ShellEvent → Shell
unfolding consume loop_step close_window shut_down signal_quit
shell_step s asks = record s { show_ch = true }
shell_step s consumes = consume s
shell_step s loops = loop_step s
shell_step s closes = close_window s
shell_step s quits = signal_quit s
shell_step s receives_quit = if s.quit_ch then shut_down (record s { quit_ch = false }) else s
shell_step s signals = shut_down s
shell_step s tears_down = elim s.shutdown [ disconnecting ↦ record s { shutdown = exited } | _ ↦ s ]

unfoldable pub shell_run : Shell → List ShellEvent → Shell
unfolding shell_step
shell_run s [] = s
shell_run s (e ∷ es) = shell_run (shell_step s e) es
