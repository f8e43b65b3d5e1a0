-- ===== src/Paths/Migrate.antt =====
-- paths.go and crypto.go: a migration loses nothing, and what a failed copy leads to.
use ssh_tunnel_manager.Common.{
  ◌≡◌, ◌≢◌, refl, ◌⊎◌, inl, inr, true, false, none, some, Text, arith, Option-cases, Bool-cases,
  equal_iff, equal_refl,
}
use ssh_tunnel_manager.Common.Maps.{lookup, insert, lookup-insert, lookup-erase}
use ssh_tunnel_manager.Files.{FileSystem}
use ssh_tunnel_manager.Paths.{Migration, migrate_file, migrated, join_path}

-- The legacy file's contents are still in one of the two places.
abbrev pub Kept : Text → Text → Text → FileSystem → Type 0
Kept src dst contents fs = (lookup src fs ≡ some contents) ⊎ (lookup dst fs ≡ some contents)

migrated-Kept :
    (mig : Migration) (src dst contents : Text) (fs : FileSystem)
    → src ≢ dst
    → lookup src fs ≡ some contents
    → Kept src dst contents (migrated mig src dst contents fs)
unfolding migrated
migrated-Kept mig src dst contents fs ne h = elim (Bool-cases mig.opens) [
  | inr f ↦ rw (f, migrated) (inl h)
  | inl o ↦ elim (Bool-cases mig.copies) [
    | inr f ↦
        rw (o, f, migrated)
          (inl (ground (arith, lookup-insert src dst mig.partial fs, equal_iff dst src)))
    | inl c ↦ elim (Bool-cases mig.removes) [
      | inr f ↦
          rw (o, c, f, migrated)
            (inr (ground (arith, lookup-insert dst dst contents fs, equal_refl dst)))
      | inl r ↦
          rw (o, c, r, migrated)
            (inr (
              ground (
                arith,
                lookup-insert dst dst contents fs,
                equal_refl dst,
                lookup-erase dst src (insert dst contents fs),
                equal_iff src dst,
              )))
    ]
  ]
]

migrate_file_present :
    (mig : Migration) (name dst there : Text) (fs : FileSystem)
    → lookup dst fs ≡ some there
    → migrate_file mig name dst fs ≡ fs
unfolding migrate_file
migrate_file_present mig name dst there fs e = elim (Option-cases mig.exe_dir) [
  | inl n ↦ rw (n, migrate_file) refl
  | inr (dir, d) ↦ elim (Option-cases (lookup (join_path dir name) fs)) [
    | inl n ↦ rw (d, migrate_file) (rw (n, migrate_file) refl)
    | inr (contents, h) ↦ rw (d, migrate_file) (rw (h, migrate_file) (rw (e, migrate_file) refl))
  ]
]

migrate_file_absent :
    (mig : Migration) (dir name dst contents : Text) (fs : FileSystem)
    → mig.exe_dir ≡ some dir
    → lookup (join_path dir name) fs ≡ some contents
    → lookup dst fs ≡ none
    → migrate_file mig name dst fs ≡ migrated mig (join_path dir name) dst contents fs
unfolding migrate_file
migrate_file_absent mig dir name dst contents fs d h n =
    rw (d, migrate_file) (rw (h, migrate_file) (rw (n, migrate_file) refl))

-- Whatever the operating system answers, a migration leaves the contents of the legacy file in the
-- legacy place or in the new one, which are two places; and when there is a file in the new place, no
-- file changes.
pub migrate_file-Kept :
    (mig : Migration) (dir name dst contents : Text) (fs : FileSystem)
    → mig.exe_dir ≡ some dir
    → join_path dir name ≢ dst
    → lookup (join_path dir name) fs ≡ some contents
    → let fs' = migrate_file mig name dst fs in
      Kept (join_path dir name) dst contents fs' × ((lookup dst fs ≡ none) ⊎ (fs' ≡ fs))
migrate_file-Kept mig dir name dst contents fs d ne h = elim (Option-cases (lookup dst fs)) [
  | inr (there, e) ↦ rw (migrate_file_present mig name dst there fs e) (inl h, inr refl)
  | inl n ↦
      rw (migrate_file_absent mig dir name dst contents fs d h n)
        (migrated-Kept mig (join_path dir name) dst contents fs ne h, inl n)
]

-- When the copy of a migration fails, what it has left in the new place stays there: no later migration
-- replaces it, whatever the operating system answers then.
pub migrate_file_partial :
    (mig later : Migration) (dir name dst contents : Text) (fs : FileSystem)
    → mig.exe_dir ≡ some dir
    → lookup (join_path dir name) fs ≡ some contents
    → lookup dst fs ≡ none
    → mig.opens ≡ true
    → mig.copies ≡ false
    → let fs' = migrate_file mig name dst fs in
      (lookup dst fs' ≡ some mig.partial) × (migrate_file later name dst fs' ≡ fs')
unfolding migrated
migrate_file_partial mig later dir name dst contents fs d h n o c =
    let left : lookup dst (migrate_file mig name dst fs) ≡ some mig.partial =
      rw (migrate_file_absent mig dir name dst contents fs d h n)
        (rw (o, c) (rw (lookup-insert dst dst mig.partial fs, equal_refl dst) refl)) in
    (left, migrate_file_present later name dst mig.partial _ left)
