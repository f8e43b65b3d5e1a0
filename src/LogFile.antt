-- ===== src/LogFile.antt =====
-- logger.go: the log file and its rotation.
pub mod Rotation
use ssh_tunnel_manager.Common.{
  ℕ, Bool, [], ◌++◌, Option, none, some, Text, text, if◌then◌else◌, length, leb, ◌*◌, ◌^◌,
}
use ssh_tunnel_manager.Common.Maps.{lookup}
use ssh_tunnel_manager.Files.{FileSystem, store, remove, rename, apply}

abbrev pub max_log_size : ℕ
max_log_size = 5 * 2 ^ 20

abbrev pub previous : Text → Text
previous path = path ++ text ".1"

abbrev pub when_works : Bool → FileSystem → FileSystem → FileSystem
when_works works after before = if works then after else before

-- `removes` and `renames` tell whether the two calls work; their errors are ignored.
unfoldable pub rotate_log_if_needed : Bool → Bool → Text → FileSystem → FileSystem
rotate_log_if_needed removes renames path fs = elim (lookup path fs) [
  | none ↦ fs
  | some log ↦
      if leb max_log_size (length log)
      then (let fs1 = when_works removes (apply (remove (previous path)) fs) fs in
          when_works renames (apply (rename path (previous path)) fs1) fs1)
      else fs
]

abbrev pub opened : Text → FileSystem → FileSystem
opened path fs = elim (lookup path fs) [ none ↦ apply (store path []) fs | some log ↦ fs ]

-- `InitLogger` up to its first lines: `log_path` is `getLogPath()`, `opens` whether the file can be
-- opened. The result is the path.
unfoldable pub init_logger :
    Option Text → Bool → Bool → Bool → FileSystem → FileSystem × Option Text
init_logger none removes renames opens fs = (fs, none)
init_logger (some path) removes renames opens fs =
    let rotated = rotate_log_if_needed removes renames path fs in
    if opens then (opened path rotated, some path) else (rotated, none)
