-- ===== src/Manager/Delivery.antt =====
-- ssh.go: what rounds of the dispatcher call back.
use ssh_tunnel_manager.Common.{ℕ, zero, suc, List, [], ◌∷◌, ◌++◌}
use ssh_tunnel_manager.Manager.{SshManager, NotifyMsg, Callback, callbacks}
use ssh_tunnel_manager.Manager.World.{Event, dispatches}

-- `n` rounds of the dispatcher.
abbrev pub rounds_of : ℕ → List Event
rounds_of zero = []
rounds_of (suc n) = dispatches ∷ rounds_of n

-- What is called for a list of messages, with the callbacks of `m`.
abbrev pub deliveries : SshManager → List NotifyMsg → List Callback
deliveries m [] = []
deliveries m (msg ∷ ch) = callbacks m msg ++ deliveries m ch
