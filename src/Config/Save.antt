-- ===== src/Config/Save.antt =====
-- config.go: `LoadConfig` and `SaveConfig`. The operations of a save on the file system are listed in
-- their order, so that a crash is a prefix of the list.
use ssh_tunnel_manager.Common.{Bool, not, List, [], ◌∷◌, Option, none, some, Text, if◌then◌else◌}
use ssh_tunnel_manager.Common.Maps.{lookup}
use ssh_tunnel_manager.Config.{AppState, normalize_legacy}
use ssh_tunnel_manager.Files.{FileSystem, FileOp, store, sync, remove, rename, apply_all}

-- The package encoding/json on `AppState`: the indented document with its newline, and the decoding of
-- the first value of a file.
pub record Json : Type 0 where
  pub encode : AppState → Text
  pub decode : Text → Option AppState

pub data LoadError : Type 0 where
  not_exist not_readable decode_failed : LoadError

pub data Loaded : Type 0 where
  loaded : AppState → Loaded
  not_loaded : LoadError → Loaded

-- `readable` tells whether a file that is there can be opened.
unfoldable pub load_config : Json → Bool → Text → FileSystem → Loaded
unfolding normalize_legacy
load_config json readable path fs = elim (lookup path fs) [
  | none ↦ not_loaded not_exist
  | some contents ↦ if not readable then not_loaded not_readable else elim (json.decode contents) [
    | none ↦ not_loaded decode_failed
    | some state ↦ loaded (normalize_legacy state)
  ]
]

pub data SaveError : Type 0 where
  create_failed chmod_failed encode_failed fsync_failed close_failed rename_failed : SaveError

-- What the operating system answers to a save: the name of the temporary file, whether each call
-- works, and what a failed write leaves in the file.
pub record Disk : Type 0 where
  pub tmp_name : Text
  pub creates : Bool
  pub chmods : Bool
  pub writes : Bool
  pub partial : Text
  pub syncs : Bool
  pub closes : Bool
  pub renames : Bool

-- A write begins with a part of the document in the file.
abbrev encoded_ops : Disk → Text → List FileOp → List FileOp
encoded_ops d contents rest =
    store d.tmp_name [] ∷ store d.tmp_name d.partial ∷ store d.tmp_name contents ∷ rest

-- After a `Sync` that worked.
abbrev synced_ops : Disk → Text → List FileOp → List FileOp
synced_ops d contents rest = encoded_ops d contents (sync d.tmp_name ∷ rest)

-- The operations up to the return, with the deferred removal of the temporary file.
unfoldable pub save_ops : Disk → Text → Text → List FileOp × Option SaveError
save_ops d path contents =
    if not d.creates
    then ([], some create_failed)
    else if not d.chmods
    then (store d.tmp_name [] ∷ remove d.tmp_name ∷ [], some chmod_failed)
    else if not d.writes
    then (
      store d.tmp_name [] ∷ store d.tmp_name d.partial ∷ remove d.tmp_name ∷ [],
      some encode_failed,
    )
    else if not d.syncs
    then (encoded_ops d contents (remove d.tmp_name ∷ []), some fsync_failed)
    else if not d.closes
    then (synced_ops d contents (remove d.tmp_name ∷ []), some close_failed)
    else if not d.renames
    then (synced_ops d contents (remove d.tmp_name ∷ []), some rename_failed)
    else (synced_ops d contents (rename d.tmp_name path ∷ remove d.tmp_name ∷ []), none)

unfoldable pub save_config :
    Json → Disk → Text → AppState → FileSystem → FileSystem × Option SaveError
unfolding normalize_legacy save_ops apply_all
save_config json d path state fs =
    let (ops, failure) = save_ops d path (json.encode (normalize_legacy state)) in
    (apply_all ops fs, failure)
