-- ===== src/Manager/Notify.antt =====
-- The channel of status transitions and its dispatcher.
use ssh_tunnel_manager.Common.{
  ◌-◌, ◌≤◌, ◌<◌, ◌≡◌, Bool, List, [], ◌∷◌, ◌++◌, Text, arith, length, drop, ltb, if◌then◌else◌,
  length-append,
}
use ssh_tunnel_manager.Manager.{SshManager, Status, NotifyMsg, notify_capacity, notify_status_kind}

length-drop_one : (ch : List NotifyMsg) → length (drop 1 ch) ≡ length ch - 1
length-drop_one [] = omega arith
length-drop_one (msg ∷ ch) = omega arith

abbrev pub room : List NotifyMsg → List NotifyMsg
room ch = if ltb (length ch) notify_capacity then ch else drop 1 ch

-- When nothing comes between the selects and the channel is within its capacity, a transition gets into it
-- as its newest message. Only when the channel is full is a message lost, and then it is the oldest one.
pub notify_status_kind-room :
    (id : Text) (status : Status) (terminal : Bool) (m : SshManager)
    → length m.notify_ch ≤ notify_capacity
    → notify_status_kind id status terminal m ≡ record m {
      notify_ch =
          room m.notify_ch ++ (record { id = id; status = status; terminal = terminal } ∷ []);
    }
unfolding notify_status_kind
notify_status_kind-room id status terminal m h = ground (arith, length-drop_one m.notify_ch)

length-room :
    (ch : List NotifyMsg) → length ch ≤ notify_capacity → length (room ch) < notify_capacity
length-room ch h = ground (arith, length-drop_one ch)

-- The channel keeps within its buffer.
pub notify_status_kind_bounded :
    (id : Text) (status : Status) (terminal : Bool) (m : SshManager)
    → length m.notify_ch ≤ notify_capacity
    → length (notify_status_kind id status terminal m).notify_ch ≤ notify_capacity
notify_status_kind_bounded id status terminal m h =
    rw (notify_status_kind-room id status terminal m h) (
      omega (
        arith,
        length-append (room m.notify_ch)
            (record { id = id; status = status; terminal = terminal } ∷ []),
        length-room m.notify_ch h,
      ))
