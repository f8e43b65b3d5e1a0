-- ===== src/Config/Atomic.antt =====
-- config.go: what a save leaves that is cut off, where writes are durable only after a sync.
use mathlib.Core.Path.{subst}
use ssh_tunnel_manager.Common.{
  sym, equal, ap, All, length, ◌∙◌, true, false, ℕ, zero, suc, ◌≡◌, ◌≢◌, refl, ◌⊎◌, inl, inr, Bool,
  List, [], ◌∷◌, Option, none, some, Text, take, arith, equal_iff, equal_refl,
}
use ssh_tunnel_manager.Common.Maps.{insert, erase, lookup, lookup-insert, lookup-erase}
use ssh_tunnel_manager.Config.{AppState, normalize_legacy}
use ssh_tunnel_manager.Config.Save.{Json, Disk, SaveError, save_ops, save_config}
use ssh_tunnel_manager.Files.{
  FileSystem, FileOp, store, sync, remove, rename, apply, apply_all, Pending, pending_after,
  pending_in, Survives,
}

-- An operation on one file leaves another one as it is.
lookup-store :
    (path tmp contents : Text) (fs : FileSystem)
    → tmp ≢ path
    → lookup path (apply (store tmp contents) fs) ≡ lookup path fs
unfolding apply
lookup-store path tmp contents fs ne =
    ground (arith, lookup-insert path tmp contents fs, equal_iff tmp path)

lookup-remove :
    (path tmp : Text) (fs : FileSystem)
    → tmp ≢ path
    → lookup path (apply (remove tmp) fs) ≡ lookup path fs
unfolding apply
lookup-remove path tmp fs ne = ground (arith, lookup-erase path tmp fs, equal_iff tmp path)

rename_present :
    (old new contents : Text) (fs : FileSystem)
    → lookup old fs ≡ some contents
    → apply (rename old new) fs ≡ insert new contents (erase old fs)
unfolding apply
rename_present old new contents fs h = rw (h, apply) refl

lookup-stored :
    (path contents : Text) (fs : FileSystem)
    → lookup path (apply (store path contents) fs) ≡ some contents
unfolding apply
lookup-stored path contents fs = rw (lookup-insert path path contents fs, equal_refl path) refl

lookup-rename :
    (path tmp contents : Text) (fs : FileSystem)
    → lookup tmp fs ≡ some contents
    → lookup path (apply (rename tmp path) fs) ≡ some contents
lookup-rename path tmp contents fs h =
    rw (rename_present tmp path contents fs h)
      (rw (lookup-insert path path contents (erase tmp fs), equal_refl path) refl)

-- The operations that only touch the file `tmp`.
abbrev Touches : Text → FileOp → Type 0
Touches tmp (store path contents) = path ≡ tmp
Touches tmp (sync path) = path ≡ tmp
Touches tmp (remove path) = path ≡ tmp
Touches tmp (rename old new) = ⊥

module _ (tmp path : Text) (ne : tmp ≢ path) where
  lookup-apply :
      (op : FileOp) (fs : FileSystem) → Touches tmp op → lookup path (apply op fs) ≡ lookup path fs
  lookup-apply (store p contents) fs t = lookup-store path p contents fs (rw t ne)
  lookup-apply (sync p) fs t = unfold apply in refl
  lookup-apply (remove p) fs t = lookup-remove path p fs (rw t ne)
  lookup-apply (rename old new) fs t = elim t [ ]

  -- A prefix of such operations.
  lookup-prefix :
      (k : ℕ) (ops : List FileOp) (fs : FileSystem)
      → All (Touches tmp) ops
      → lookup path (apply_all (take k ops) fs) ≡ lookup path fs
  unfolding apply_all
  lookup-prefix zero ops fs h = refl
  lookup-prefix (suc k) [] fs h = refl
  lookup-prefix (suc k) (op ∷ ops) fs (h, hs) =
      lookup-prefix k ops (apply op fs) hs ∙ lookup-apply op fs h

  -- A prefix of the operations of a save that works, from the file with the whole document on.
  lookup-committed :
      (k : ℕ) (contents : Text) (fs : FileSystem)
      → let done =
          apply_all
            (take k (sync tmp ∷ rename tmp path ∷ remove tmp ∷ []))
            (apply (store tmp contents) fs) in
        (lookup path done ≡ lookup path fs) ⊎ (lookup path done ≡ some contents)
  unfolding apply_all
  lookup-committed zero contents fs = inl (lookup-store path tmp contents fs ne)
  lookup-committed (suc zero) contents fs = inl (lookup-store path tmp contents fs ne)
  lookup-committed (suc (suc k)) contents fs = inr (
      lookup-prefix k (remove tmp ∷ []) _ (refl, tt)
      ∙ lookup-rename path tmp contents _ (lookup-stored tmp contents fs))

  lookup-encoded :
      (k : ℕ) (partial contents : Text) (fs : FileSystem)
      → let done =
          apply_all
            (take k (
              store tmp []
              ∷ store tmp partial
              ∷ store tmp contents
              ∷ sync tmp
              ∷ rename tmp path
              ∷ remove tmp
              ∷ []))
            fs in
        (lookup path done ≡ lookup path fs) ⊎ (lookup path done ≡ some contents)
  unfolding apply_all
  lookup-encoded zero partial contents fs = inl refl
  lookup-encoded (suc zero) partial contents fs = inl (lookup-store path tmp [] fs ne)
  lookup-encoded (suc (suc zero)) partial contents fs =
      inl (lookup-store path tmp partial _ ne ∙ lookup-store path tmp [] fs ne)
  lookup-encoded (suc (suc (suc k))) partial contents fs =
      elim (lookup-committed k contents (apply (store tmp partial) (apply (store tmp []) fs))) [
        | inl e ↦ inl (e ∙ lookup-store path tmp partial _ ne ∙ lookup-store path tmp [] fs ne)
        | inr e ↦ inr e
      ]

module _ (tmp path : Text) (ne : tmp ≢ path) where
  other : equal tmp path ≡ false
  other = ground (arith, equal_iff tmp path, ne)

  pending-apply :
      (op : FileOp) (pending : Pending)
      → Touches tmp op
      → pending path ≡ false
      → pending_after op pending path ≡ false
  unfolding pending_after
  pending-apply (store p contents) pending t h = rw (t, other) h
  pending-apply (sync p) pending t h = rw (t, other) h
  pending-apply (remove p) pending t h = rw (t, other) h
  pending-apply (rename old new) pending t h = elim t [ ]

  -- The config file stays durable while only the temporary file is touched.
  pending-prefix :
      (k : ℕ) (ops : List FileOp) (pending : Pending)
      → All (Touches tmp) ops
      → pending path ≡ false
      → pending_in (take k ops) pending path ≡ false
  unfolding pending_in
  pending-prefix zero ops pending t h = h
  pending-prefix (suc k) [] pending t h = h
  pending-prefix (suc k) (op ∷ ops) pending (t, ts) h =
      pending-prefix k ops (pending_after op pending) ts (pending-apply op pending t h)

  -- It stays durable when the temporary file is renamed to it, since that has been synced.
  pending-renamed :
      (k : ℕ) (pending : Pending)
      → pending path ≡ false
      → pending_in (take k (sync tmp ∷ rename tmp path ∷ remove tmp ∷ [])) pending path ≡ false
  unfolding pending_in pending_after
  pending-renamed zero pending h = h
  pending-renamed (suc zero) pending h = rw (other) h
  pending-renamed (suc (suc zero)) pending h = rw (equal_refl path, equal_refl tmp) refl
  pending-renamed (suc (suc (suc zero))) pending h =
      rw (other, equal_refl path, equal_refl tmp) refl
  pending-renamed (suc (suc (suc (suc k)))) pending h =
      rw (other, equal_refl path, equal_refl tmp) refl

  pending-saved :
      (k : ℕ) (partial contents : Text)
      → pending_in
          (take k (
            store tmp []
            ∷ store tmp partial
            ∷ store tmp contents
            ∷ sync tmp
            ∷ rename tmp path
            ∷ remove tmp
            ∷ []))
          (λ q. false)
          path
        ≡ false
  unfolding pending_in pending_after
  pending-saved zero partial contents = refl
  pending-saved (suc zero) partial contents = rw other refl
  pending-saved (suc (suc zero)) partial contents = rw other refl
  pending-saved (suc (suc (suc k))) partial contents = pending-renamed k _ (rw other refl)

-- Each outcome of a save either touches only the temporary file, or reports no error and renames the
-- whole document into place.
data Outcome (d : Disk) (path contents : Text) : List FileOp × Option SaveError → Type 0 where
  failed :
      (ops : List FileOp) (e : SaveError)
      → All (Touches d.tmp_name) ops
      → Outcome d path contents (ops, some e)
  saved : Outcome d path contents (
    store d.tmp_name []
        ∷ store d.tmp_name d.partial
        ∷ store d.tmp_name contents
        ∷ sync d.tmp_name
        ∷ rename d.tmp_name path
        ∷ remove d.tmp_name
        ∷ [],
    none,
  )

save_ops-Outcome :
    (d : Disk) (path contents : Text) → Outcome d path contents (save_ops d path contents)
unfolding save_ops
save_ops-Outcome d path contents = answered d.creates d.chmods d.writes d.syncs d.closes d.renames
  where
    answered :
        (a b c e f g : Bool)
        → let d' = record d {
          creates = a;
          chmods = b;
          writes = c;
          syncs = e;
          closes = f;
          renames = g;
        } in
          Outcome d' path contents (save_ops d' path contents)
    answered false _ _ _ _ _ = failed _ _ tt
    answered true false _ _ _ _ = failed _ _ (refl, (refl, tt))
    answered true true false _ _ _ = failed _ _ (refl, (refl, (refl, tt)))
    answered true true true false _ _ = failed _ _ (refl, (refl, (refl, (refl, tt))))
    answered true true true true false _ = failed _ _ (refl, (refl, (refl, (refl, (refl, tt)))))
    answered true true true true true false = failed _ _ (refl, (refl, (refl, (refl, (refl, tt)))))
    answered true true true true true true = saved

Outcome-atomic :
    (d : Disk) (path contents : Text) (fs : FileSystem) (k : ℕ) {r : List FileOp × Option SaveError}
    → d.tmp_name ≢ path
    → Outcome d path contents r
    → let crashed = apply_all (take k r.0) fs in
      (lookup path crashed ≡ lookup path fs) ⊎ (lookup path crashed ≡ some contents)
Outcome-atomic d path contents fs k ne (failed ops e h) =
    inl (lookup-prefix d.tmp_name path ne k ops fs h)
Outcome-atomic d path contents fs k ne saved =
    lookup-encoded d.tmp_name path ne k d.partial contents fs

Outcome-durable :
    (d : Disk) (path contents : Text) (k : ℕ) {r : List FileOp × Option SaveError}
    → d.tmp_name ≢ path
    → Outcome d path contents r
    → pending_in (take k r.0) (λ q. false) path ≡ false
Outcome-durable d path contents k ne (failed ops e h) =
    pending-prefix d.tmp_name path ne k ops (λ q. false) h refl
Outcome-durable d path contents k ne saved = pending-saved d.tmp_name path ne k d.partial contents

-- Wherever a save is cut off, also by a stop of the machine that leaves anything in the files whose last
-- writes were not synced: the config file has what it had before, or the whole new document, never a part
-- of it, and never nothing in place of the old one. The temporary file is another file.
pub save_ops_atomic :
    (d : Disk) (path contents : Text) (fs left : FileSystem) (k : ℕ)
    → d.tmp_name ≢ path
    → Survives (take k (save_ops d path contents).0) fs left
    → (lookup path left ≡ lookup path fs) ⊎ (lookup path left ≡ some contents)
save_ops_atomic d path contents fs left k ne survives =
    let outcome = save_ops-Outcome d path contents in
    subst (λ l. (l ≡ lookup path fs) ⊎ (l ≡ some contents))
      (sym (survives path (Outcome-durable d path contents k ne outcome)))
      (Outcome-atomic d path contents fs k ne outcome)

take_all : (ops : List FileOp) → take (length ops) ops ≡ ops
take_all [] = refl
take_all (op ∷ ops) = ap (λ xs. op ∷ xs) (take_all ops)

-- What a whole save does to the config file, by its result.
abbrev pub IsSaved : Text → Text → FileSystem → FileSystem × Option SaveError → Type 0
IsSaved path contents fs (fs', none) = lookup path fs' ≡ some contents
IsSaved path contents fs (fs', some e) = lookup path fs' ≡ lookup path fs

Outcome-IsSaved :
    (d : Disk) (path contents : Text) (fs : FileSystem) {r : List FileOp × Option SaveError}
    → d.tmp_name ≢ path
    → Outcome d path contents r
    → IsSaved path contents fs (apply_all r.0 fs, r.1)
unfolding apply_all
Outcome-IsSaved d path contents fs ne (failed ops e h) =
    rw (← take_all ops) (lookup-prefix d.tmp_name path ne (length ops) ops fs h)
Outcome-IsSaved d path contents fs ne saved =
    lookup-remove path d.tmp_name _ ne
    ∙ lookup-rename path d.tmp_name contents _ (lookup-stored d.tmp_name contents _)

-- A save without an error leaves the document of the normalised state in the config file; one that
-- returns an error leaves the file as it was. The temporary file is another file.
pub save_config-IsSaved :
    (json : Json) (d : Disk) (path : Text) (state : AppState) (fs : FileSystem)
    → d.tmp_name ≢ path
    → IsSaved path (json.encode (normalize_legacy state)) fs (save_config json d path state fs)
unfolding save_config
save_config-IsSaved json d path state fs ne =
    Outcome-IsSaved d path (json.encode (normalize_legacy state)) fs ne
      (save_ops-Outcome d path (json.encode (normalize_legacy state)))

-- A save touches no file but the config file and the temporary file.
Outcome-other :
    (d : Disk) (path other contents : Text) (fs : FileSystem) {r : List FileOp × Option SaveError}
    → d.tmp_name ≢ other
    → path ≢ other
    → Outcome d path contents r
    → lookup other (apply_all r.0 fs) ≡ lookup other fs
unfolding apply_all
Outcome-other d path other contents fs ne np (failed ops e h) =
    rw (← take_all ops) (lookup-prefix d.tmp_name other ne (length ops) ops fs h)
Outcome-other d path other contents fs ne np saved =
    lookup-remove other d.tmp_name _ ne
    ∙ ap (lookup other)
        (rename_present d.tmp_name path contents _ (lookup-stored d.tmp_name contents _))
    ∙ lookup-store other path contents _ np
    ∙ lookup-remove other d.tmp_name _ ne
    ∙ lookup-store other d.tmp_name contents _ ne
    ∙ lookup-store other d.tmp_name d.partial _ ne
    ∙ lookup-store other d.tmp_name [] fs ne

pub lookup-save_config_other :
    (json : Json) (d : Disk) (path other : Text) (state : AppState) (fs : FileSystem)
    → d.tmp_name ≢ other
    → path ≢ other
    → lookup other (save_config json d path state fs).0 ≡ lookup other fs
unfolding save_config
lookup-save_config_other json d path other state fs ne np =
    Outcome-other d path other (json.encode (normalize_legacy state)) fs ne np
      (save_ops-Outcome d path (json.encode (normalize_legacy state)))
