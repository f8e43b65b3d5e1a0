-- ===== src/Tests/Lines.antt =====
-- The notification channel at a concrete history: sixty-five calls, the last one at a full channel.
use ssh_tunnel_manager.Common.{ℕ, zero, suc, ◌≡◌, refl, List, [], ◌∷◌, text, length, false}
use ssh_tunnel_manager.Manager.{NotifyMsg, connecting, running}
use ssh_tunnel_manager.Manager.Line.{
  Line, Traffic, TrafficEvent, begins, selects, quiet, traffic_run, traffic_step, received,
  select_in_turn, lost,
}
use ssh_tunnel_manager.Manager.Line.Order.{Ordered}
use ssh_tunnel_manager.Manager.Line.Schedule.{call_in_turn}
use ssh_tunnel_manager.Manager.Line.Posting.{Posted, traffic_run-Posted}

abbrev attempt : NotifyMsg
attempt = record { id = text "db"; status = connecting; terminal = false }

abbrev success : NotifyMsg
success = record { id = text "db"; status = running; terminal = false }

-- Calls that get in at once.
abbrev calls_from : ℕ → ℕ → List TrafficEvent
calls_from k zero = []
calls_from k (suc n) = begins attempt ∷ selects k ∷ calls_from (suc k) n

abbrev full : Traffic
full = traffic_run quiet (calls_from 0 64)

abbrev full_line : Line
full_line = full.line

full_line_length : length full_line.channel ≡ 64
unfolding traffic_run traffic_step
full_line_length = refl

-- The dispatcher receives after the first select, and the second throws a message away.
lost_with_room : lost (select_in_turn success 1 0 full_line).1.taken ≡ 1
unfolding traffic_run select_in_turn lost traffic_step received
lost_with_room = refl

traffic_run-Posted_example :
    Ordered full_line
    × Posted success full (traffic_run full (call_in_turn success 1 0 (length full.senders)))
traffic_run-Posted_example = traffic_run-Posted (calls_from 0 64) success 1 0
