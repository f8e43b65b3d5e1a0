-- ===== src/Lib.antt =====
-- The ssh-tunnel-manager: a desktop program that keeps one ssh tunnel to a host with a changing
-- address. A configuration (config.go) names the forward; the manager (ssh.go) starts an ssh process
-- for it, watches it, starts it again and tells the UI about every transition; addresses come from the
-- Baidu DNS API (internal/bcd, baidu_dns.go) or a resolver; secrets are encrypted on disk (crypto.go);
-- a drop-in for systemd-resolved (zone_forward.go) keeps the names fresh. The window (ui.go) edits the
-- configuration and starts, stops and restarts the tunnel in goroutines that hand their results back
-- through a queue of closures; main.go starts all of it, keeps a window or the tray, and ends it.
--
-- Files, with the code they model:
-- - Common and its modules: Boolean tests, lists, Go strings as lists of bytes (Strings, Sort), Go
--   maps as association lists (Maps), Go integers (Int), time.Duration (Duration).
-- - Config: the records of config.go and normalizeLegacy. Config.Save: LoadConfig and SaveConfig.
--   Config.Store: ConfigManager with Load, Save and the accessors. Config.Atomic, Config.Sealed
--   and Config.Reload hold the proofs.
-- - Files, Paths, Crypto: the file system as paths with contents, migrateFile of paths.go, and
--   crypto.go. Paths.Dirs: the directories and files of paths.go and getLogPath of logger.go.
--   Paths.Migrate, Crypto.RoundTrip and Crypto.Key hold the proofs.
-- - SshCommand, Resolve: sshArgs, buildSSHCommand, attachPasswordPipe, resolveConnectTarget, freshIPs,
--   ResolveHost and FlushDNS of ssh.go.
-- - Manager: SSHManager, SSHConn, the notification channel and the sections under the lock that begin
--   a connection. Manager.Sections: the sections that end or restart one (handleProcessExit, the
--   heartbeat, the publication of autoReconnect, Disconnect, DisconnectAll). Manager.Tasks: Connect,
--   monitorProcess, startDDNSMonitor and autoReconnect as tasks, cut where the source takes the lock
--   or waits. Manager.World: all of them together under a schedule. The other modules of Manager hold
--   the proofs: Notify, Keeps, Preserve, Steps, Pool, Invariant, Fresh, Reachable, Stop, Races, Exits,
--   Retries, Delivery, Secrecy. Manager.Line: the selects of notifyStatusKind one by one;
--   Manager.Line.Schedule one call in a schedule; Manager.Line.Order and Manager.Line.Posting hold the
--   proofs.
-- - ZoneForward: the drop-in file of zone_forward.go, and ZoneForward.Install its installation by a
--   root helper. ZoneForward.Content and ZoneForward.Staged hold the proofs.
-- - Bcd: internal/bcd/bcd.go. Bcd.Uri and Bcd.KeyFile hold the proofs.
-- - BaiduDns: the client of baidu_dns.go, and BaiduDns.Account the loading of its credentials.
--   BaiduDns.Paging, BaiduDns.Zone and BaiduDns.Records hold the proofs.
-- - Ui: the struct UI of ui.go, with the configuration, the manager, the resolver and the goroutines
--   around it. Ui.Settings: loadConfigToForm, saveSettings and restartWithConfig. Ui.Handlers: the
--   other handlers, the queue of the UI thread, handleEvents, and updateHeroStatus of page_main.go.
--   Ui.Zone: the row and the action of the zone forwarding. Ui.Jobs: the goroutines of ui.go, and
--   autoConnect, trayConnect and the callbacks of main.go, under a schedule that contains the
--   manager's. The proofs are in Ui.Effects, Ui.JobEffects, Ui.HandlerEffects, Ui.Exclusive, Ui.Dialog,
--   Ui.Release, Ui.Valid, Ui.Rollback, Ui.Rows, Ui.ZoneStatus and Ui.Reopen.
-- - Theme: the colors of theme.go. Page: the calls of Gio as a tree of widgets, and the drawing helpers
--   of page_main.go, page_settings.go, titlebar.go and theme.go. Page.Settings, Page.Main, Page.Dialog and
--   Page.Window: the functions of page_settings.go, page_main.go, dialog_conflict.go and titlebar.go, and
--   Layout of ui.go. Page.Bounded, Page.Controls, Page.Distinct, Page.Captions and Page.ZoneRow hold the
--   proofs.
-- - TestApi: the request and the message of testAPI in ui.go.
-- - Startup: main of main.go up to the first window. Startup.Guarded and
--   Startup.Again hold the proofs.
-- - Shell: the channels, runAppLoop, the consumer of showCh and shutdown of main.go, and signalQuit of
--   tray.go. Shell.Window holds the proofs.
-- - Tray: the menu, the tooltip and the icon of tray.go. Desktop: the app, the window loop and the tray as
--   one program, with the clicks on the menu and shutdown of main.go. Desktop.Induction,
--   Desktop.Projection, Desktop.Shown, Desktop.Quit, Desktop.Leaves and Desktop.Conflict hold the proofs.
-- - Instance: singleinstance_unix.go and the first lines of main. Instance.Single holds the proofs.
-- - LogFile: the rotation and the opening of logger.go. LogFile.Rotation holds the proofs.
-- - QueryTool: cmd/querydns/main.go. QueryTool.Agreement holds the proofs.
-- - Ports: CheckPortInUse, KillProcessByPort, their fallback and parsers in ssh.go. Ports.Digits
--   and Ports.Kill hold the proofs.
-- - Tests: runs at concrete inputs.
--
-- State and time. A pointer to an SSHConn is an index into a heap that only grows, so a conn that has
-- left the map can still be written, as in the source. A started process is an index into a list; it
-- ends when it is killed or by an event of the schedule, and writes to its standard error by another.
-- A schedule is any list of events: which task goes on with which answer of the network, the clock or
-- the operating system, the calls of the UI, the dispatcher, and what the processes do. A task whose
-- answer is not the one it waits for stays. Nothing runs on fuel: every definition is structural. A
-- call of notifyStatusKind is one step in a schedule of the manager, so no receive of the dispatcher
-- and no other sender (Connect queues "connecting" without the lock) comes between its three selects
-- there. Manager.Line is the channel apart from the rest, with any number of calls whose selects, and
-- the receives of the dispatcher, come in any order. DisconnectAll is one step in a schedule; the
-- steps of its calls apart from each other are schedules with several calls of Disconnect. Whether a
-- read of an unset index can happen is not a question of the source, whose pointers are never nil
-- here; such a read ends the task.
--
-- The app of Ui is a second schedule around the first: frames of the window, steps of the goroutines,
-- clicks in the tray, and steps of the manager. A handler runs within its frame, as on the UI thread; a
-- goroutine is cut where it waits for the port checker, a kill, Connect or the network. A goroutine that
-- calls Connect goes on when the task of that call is done; two calls for one forward may get each
-- other's result. A frame holds all clicks since the last one, so several buttons can be clicked in one.
-- The texts of errors of the system are arguments. The window loop of Shell is a schedule of its own,
-- since it shares with the app only the window and the request of trayConnect. Desktop puts both and the
-- tray into one schedule: a frame may come at any time in it, also while Shell has no window;
-- DisconnectAll of shutdown is one step and the exit of the process a later one. What a frame shows is a
-- function of the state, the hovered controls and the version; it is a tree with one node for each call
-- of Gio.
--
-- Numbers. Ports, retries and intervals are signed integers without bounds; the generation of the
-- heartbeat wraps around at 2^64. The period of the heartbeat is a time.Duration, 64 bits of nanoseconds,
-- and wraps around when it is made from seconds; the pauses between retries are seconds. Lower case in a
-- key file (strings.ToLower in bcd.go) is that of ASCII letters; that of a host name is a parameter, since it
-- goes by the tables of Unicode.
--
-- Durability. A save that the process does not finish leaves what its operations so far have written.
-- When the machine stops, a file that was written and not synced may hold anything; a rename and a removal
-- are durable at once. What pkexec does with its script is a function on the files.
--
-- Parameters, for code that is not in the repository: net/http (the query tool has a client of its
-- own), publicsuffix, strings.ToLower on host names, encoding/json, AES-GCM, base64, HMAC-SHA256, DNS
-- lookups, pkexec and the script that it runs, the random source and what the operating system answers
-- to calls on files and processes.
--
-- Not modelled: Gio (third_party/gio), and with it the sizes, paddings, radii and fonts of what is
-- drawn, and the colors of check boxes, hints and scrollbars; the picture of the tray icon, which is
-- here its color; the Windows variants; waiting times; log lines everywhere.
pub mod Common
pub mod Bcd
pub mod BaiduDns
pub mod Config
pub mod SshCommand
pub mod Resolve
pub mod Ports
pub mod Manager
pub mod Files
pub mod Paths
pub mod Crypto
pub mod ZoneForward
pub mod TestApi
pub mod Tests
pub mod Theme
pub mod Ui
pub mod Page
pub mod Tray
pub mod Desktop
pub mod Startup
pub mod Shell
pub mod Instance
pub mod LogFile
pub mod QueryTool
