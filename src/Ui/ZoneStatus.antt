-- ===== src/Ui/ZoneStatus.antt =====
-- ui.go: what a lookup of the zone row comes to.
use ssh_tunnel_manager.Common.{refl, Bool, true, false, not, ◌||◌, inl, inr, Bool-cases, Text, text}
use ssh_tunnel_manager.Common.Strings.{contains}
use ssh_tunnel_manager.SshCommand.{is_empty}
use ssh_tunnel_manager.Ui.Effects.{RowShows, no_action, enables, updates, removes}
use ssh_tunnel_manager.Ui.Zone.{Lookups, row_of, row_for, zone_status}
use ssh_tunnel_manager.ZoneForward.{
  Rendered, content, no_content, expected_zone_forward_content, zone_forward_status,
}

row_of-RowShows : (r : Bool × Bool) → RowShows (row_of r).1 (row_of r).2
row_of-RowShows (false, up_to_date) = enables refl refl
row_of-RowShows (true, false) = updates refl refl
row_of-RowShows (true, true) = removes refl refl

row_for-RowShows : (l : Lookups) (r : Rendered) → RowShows (row_for l r).1 (row_for l r).2
row_for-RowShows l (no_content e) = no_action refl refl
row_for-RowShows l (content expected) = row_of-RowShows (zone_forward_status l.drop_in expected)

pub zone_status-RowShows :
    (l : Lookups) (zone : Text) → RowShows (zone_status l zone).1 (zone_status l zone).2
unfolding zone_status
zone_status-RowShows l zone = elim (Bool-cases (is_empty zone || not (contains zone (text ".")))) [
  | inl e ↦ rw e (no_action refl refl)
  | inr e ↦ rw e (row_for-RowShows l (expected_zone_forward_content l.dns zone))
]
