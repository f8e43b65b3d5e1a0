-- ===== src/ZoneForward/Staged.antt =====
-- zone_forward.go: what the installation of the drop-in leaves of its temporary file.
use ssh_tunnel_manager.Common.{
  if◌then◌else◌, refl, ◌≡◌, ◌≢◌, Option, none, some, Text, equal_refl, ◌∙◌,
}
use ssh_tunnel_manager.Common.Maps.{lookup, lookup-insert}
use ssh_tunnel_manager.Files.{FileSystem, apply_all}
use ssh_tunnel_manager.ZoneForward.Install.{
  Staging, Polkit, written, run_polkit_script, install_script,
}

-- The removal of the temporary file, and what it leaves of another one.
pub record Cleaned (s : Staging) (path : Text) (before after : FileSystem) : Type 0 where
  pub tmp : lookup s.tmp_name after ≡ (if s.removes then none else lookup s.tmp_name before)
  pub same : lookup path after ≡ lookup path before

-- How a call ends that has begun with the files `before`; `path` is any file but the temporary one.
pub data Applied (s : Staging) (p : Polkit) (content : Text) (before : FileSystem) (path : Text)
    (r : FileSystem × Option Text) : Type 0 where
  not_begun : (e : Text) → r ≡ (before, some e) → Applied s p content before path r
  not_staged :
      (left : FileSystem)
      → lookup path left ≡ lookup path before
      → Cleaned s path left r.0
      → (e : Text) → r.1 ≡ some e
      → Applied s p content before path r
  helper_ran :
      (staged : FileSystem)
      → lookup s.tmp_name staged ≡ some content
      → lookup path staged ≡ lookup path before
      → Cleaned s path (run_polkit_script p (install_script p s.tmp_name) staged).0 r.0
      → r.1 ≡ (run_polkit_script p (install_script p s.tmp_name) staged).1
      → Applied s p content before path r

module _ (s : Staging) (path : Text) (ne : s.tmp_name ≢ path) where
  staged :
      (contents : Text) (fs : FileSystem)
      → lookup s.tmp_name (written s contents fs) ≡ some contents
  unfolding apply_all
  staged contents fs =
      lookup-insert s.tmp_name s.tmp_name contents _ ∙ rw (equal_refl s.tmp_name) refl
