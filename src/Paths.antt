-- ===== src/Paths.antt =====
-- paths.go: the move of a file of the legacy layout to its new place.
pub mod Migrate
pub mod Dirs
use ssh_tunnel_manager.Common.{Bool, [], ◌∷◌, ◌++◌, Option, none, some, Text, if◌then◌else◌}
use ssh_tunnel_manager.Common.Maps.{lookup}
use ssh_tunnel_manager.Files.{FileSystem, apply_all, store, remove}

-- `filepath.Join(dir, name)` for a clean directory and a plain name.
abbrev pub join_path : Text → Text → Text
join_path dir name = dir ++ (b'/' ∷ name)

-- What the operating system does for `migrateFile`. `exe_dir` is the directory of the executable,
-- `none` when it is not known; `opens` tells whether both files
-- can be opened; a copy that fails leaves `partial`.
pub record Migration : Type 0 where
  pub exe_dir : Option Text
  pub opens : Bool
  pub copies : Bool
  pub partial : Text
  pub removes : Bool

migrated : Migration → Text → Text → Text → FileSystem → FileSystem
unfolding apply_all
migrated mig src dst contents fs =
    if mig.opens
    then (if mig.copies
        then (if mig.removes
            then apply_all (store dst contents ∷ remove src ∷ []) fs
            else apply_all (store dst contents ∷ []) fs)
        else apply_all (store dst mig.partial ∷ []) fs)
    else fs

-- `O_EXCL`: nothing is written over a file that exists.
unfoldable pub migrate_file : Migration → Text → Text → FileSystem → FileSystem
unfolding migrated
migrate_file mig name dst fs = elim mig.exe_dir [
  | none ↦ fs
  | some dir ↦ elim (lookup (join_path dir name) fs) [
    | none ↦ fs
    | some contents ↦ elim (lookup dst fs) [
      | some _ ↦ fs
      | none ↦ migrated mig (join_path dir name) dst contents fs
    ]
  ]
]
