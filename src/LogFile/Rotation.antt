-- ===== src/LogFile/Rotation.antt =====
-- logger.go: the rotation keeps the log below its size, and the text that it takes away.
use ssh_tunnel_manager.Common.{
  leb, ◌<◌, refl, true, false, ◌≡◌, inl, inr, Bool, arith, Bool-cases, none, some, Text, text,
  length, length-append, equal, equal_iff, equal_refl, ◌≤◌, ◌∙◌, ap,
}
use ssh_tunnel_manager.Common.Maps.{lookup, erase, lookup-insert, lookup-erase}
use ssh_tunnel_manager.Files.{FileSystem, remove, rename, apply}
use ssh_tunnel_manager.LogFile.{previous, max_log_size, rotate_log_if_needed, when_works}

previous_other : (path : Text) → equal (previous path) path ≡ false
previous_other path = elim (Bool-cases (equal (previous path) path)) [
  | inr e ↦ e
  | inl e ↦
      let same : previous path ≡ path = (equal_iff (previous path) path).0 e in
      absurd (omega (arith, ap length same, length-append path (text ".1")))
]

path_other : (path : Text) → equal path (previous path) ≡ false
path_other path = elim (Bool-cases (equal path (previous path))) [
  | inr e ↦ e
  | inl e ↦
      let same : path ≡ previous path = (equal_iff path (previous path)).0 e in
      absurd (omega (arith, ap length same, length-append path (text ".1")))
]

-- The rename of a log that is there.
renamed :
    (path log : Text) (fs : FileSystem)
    → lookup path fs ≡ some log
    → let fs' = apply (rename path (previous path)) fs in
      (lookup path fs' ≡ none) × (lookup (previous path) fs' ≡ some log)
unfolding apply
renamed path log fs h =
    rw (h, apply)
      (
        lookup-insert path (previous path) log (erase path fs)
            ∙ rw (previous_other path) (lookup-erase path path fs ∙ rw (equal_refl path) refl),
        lookup-insert (previous path) (previous path) log (erase path fs)
            ∙ rw (equal_refl (previous path)) refl,
      )

-- What happens to a log at `path` when the rename works.
pub data Rotated (path log : Text) (after : FileSystem) : Type 0 where
  too_long :
      max_log_size ≤ length log
      → lookup path after ≡ none
      → lookup (previous path) after ≡ some log
      → Rotated path log after
  short_enough : length log < max_log_size → lookup path after ≡ some log → Rotated path log after

removed :
    (removes : Bool) (path log : Text) (fs : FileSystem)
    → lookup path fs ≡ some log
    → lookup path (when_works removes (apply (remove (previous path)) fs) fs) ≡ some log
unfolding apply
removed true path log fs h = lookup-erase path (previous path) fs ∙ rw (previous_other path) h
removed false path log fs h = h

-- A log of at least 5 MiB moves as a whole to the previous file, also when the removal of that fails, and
-- a shorter log stays as it is; for a rename that works.
pub rotate_log_if_needed-Rotated :
    (removes : Bool) (path log : Text) (fs : FileSystem)
    → lookup path fs ≡ some log
    → Rotated path log (rotate_log_if_needed removes true path fs)
unfolding rotate_log_if_needed
rotate_log_if_needed-Rotated removes path log fs h =
    elim (Bool-cases (leb max_log_size (length log))) [
      | inl e ↦
          let fs1 = when_works removes (apply (remove (previous path)) fs) fs in
          let (gone, moved) = renamed path log fs1 (removed removes path log fs h) in
          rw (h, rotate_log_if_needed, e) (too_long (ground (arith, e)) gone moved)
      | inr e ↦ rw (h, rotate_log_if_needed, e) (short_enough (ground (arith, e)) h)
    ]
