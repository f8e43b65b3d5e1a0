-- ===== src/Files.antt =====
-- The files that config.go, crypto.go and paths.go read and write: paths with their contents.
-- Permissions and directories are not modelled; what the operating system refuses is an argument of
-- the operations.
use ssh_tunnel_manager.Common.{
  ◌≡◌, Bool, false, not, ◌&&◌, ◌||◌, equal, if◌then◌else◌, List, [], ◌∷◌, none, some, Text,
}
use ssh_tunnel_manager.Common.Maps.{Dict, lookup, insert, erase}

abbrev pub FileSystem : Type 0
FileSystem = Dict Text

-- `store` creates a file or replaces its contents, and `sync` makes its contents durable.
pub data FileOp : Type 0 where
  store : Text → Text → FileOp
  sync : Text → FileOp
  remove : Text → FileOp
  rename : Text → Text → FileOp

unfoldable pub apply : FileOp → FileSystem → FileSystem
apply (store path contents) fs = insert path contents fs
apply (sync path) fs = fs
apply (remove path) fs = erase path fs
apply (rename old new) fs = elim (lookup old fs) [
  | none ↦ fs
  | some contents ↦ insert new contents (erase old fs)
]

unfoldable pub apply_all : List FileOp → FileSystem → FileSystem
unfolding apply
apply_all [] fs = fs
apply_all (op ∷ ops) fs = apply_all ops (apply op fs)

-- Which files have contents that are not durable yet.
abbrev pub Pending : Type 0
Pending = Text → Bool

unfoldable pub pending_after : FileOp → Pending → Pending
pending_after (store path contents) pending q = equal path q || pending q
pending_after (sync path) pending q = not (equal path q) && pending q
pending_after (remove path) pending q = not (equal path q) && pending q
pending_after (rename old new) pending q =
    if equal new q then pending old else not (equal old q) && pending q

unfoldable pub pending_in : List FileOp → Pending → Pending
unfolding pending_after
pending_in [] pending = pending
pending_in (op ∷ ops) pending = pending_in ops (pending_after op pending)

-- What a machine can have that stops after these operations: each file whose contents are durable has them,
-- and any other file has anything. All files were durable before.
abbrev pub Survives : List FileOp → FileSystem → FileSystem → Type 0
Survives ops before left =
    (path : Text)
    → pending_in ops (λ q. false) path ≡ false
    → lookup path left ≡ lookup path (apply_all ops before)
