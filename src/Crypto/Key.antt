-- ===== src/Crypto/Key.antt =====
-- crypto.go: the key that one call returns is the key of all later calls.
use ssh_tunnel_manager.Common.{◌≡◌, Option, none, some, Text}
use ssh_tunnel_manager.Common.Maps.{lookup}
use ssh_tunnel_manager.Crypto.{Result, ok, err}
use ssh_tunnel_manager.Files.{FileSystem}

-- A key that is returned is in the key file.
abbrev IsStored : Text → FileSystem × Result Text → Type 0
IsStored path (fs, ok key) = lookup path fs ≡ some key
IsStored path (fs, err e) = Unit

value : Result Text → Option Text
value (ok key) = some key
value (err e) = none
