-- ===== src/Manager/Line.antt =====
-- ssh.go: notifyStatusKind with its three selects one by one, between which the dispatcher can receive and
-- other senders can be at work.
pub mod Order
pub mod Schedule
pub mod Posting
use ssh_tunnel_manager.Common.{
  ℕ, zero, suc, ◌+◌, ◌≤◌, ◌≡◌, refl, sym, ap, ◌∙◌, Bool, true, false, inl, inr, Bool-cases, List,
  [], ◌∷◌, ◌++◌, append_assoc, append-nil, map, Option, none, some, length, ltb, if◌then◌else◌,
  get_elem?, set, arith, length-append,
}
use ssh_tunnel_manager.Manager.{NotifyMsg, notify_capacity}

-- The channel, the messages that have left it, each with whether the dispatcher got it, and the messages
-- that have got in, in their order.
pub record Line : Type 0 where
  pub channel : List NotifyMsg
  pub taken : List (NotifyMsg × Bool)
  pub entered : List NotifyMsg

-- A call of `notifyStatusKind` before its three selects, and at its end.
pub data Sender : Type 0 where
  trying dropping retrying : NotifyMsg → Sender
  sent gave_up : NotifyMsg → Sender

-- The select with a send: `otherwise` is its default.
abbrev pub enter : NotifyMsg → Sender → Line → Sender × Line
enter msg otherwise l =
    if ltb (length l.channel) notify_capacity
    then (
      sent msg,
      record l { channel = l.channel ++ (msg ∷ []); entered = l.entered ++ (msg ∷ []) },
    )
    else (otherwise, l)

-- The select with a receive, and the receive of the dispatcher.
abbrev pub take_oldest : Bool → Line → Line
take_oldest delivered l = elim l.channel [
  | [] ↦ l
  | msg ∷ rest ↦ record l { channel = rest; taken = l.taken ++ ((msg, delivered) ∷ []) }
]

unfoldable pub select : Sender → Line → Sender × Line
select (trying msg) l = enter msg (dropping msg) l
select (dropping msg) l = (retrying msg, take_oldest false l)
select (retrying msg) l = enter msg (gave_up msg) l
select (sent msg) l = (sent msg, l)
select (gave_up msg) l = (gave_up msg, l)

-- Any number of senders, of which one at most holds the lock, and the dispatcher.
pub record Traffic : Type 0 where
  pub line : Line
  pub senders : List Sender

pub data TrafficEvent : Type 0 where
  begins : NotifyMsg → TrafficEvent
  selects : ℕ → TrafficEvent
  receives : TrafficEvent

abbrev pub quiet : Traffic
quiet = record { line = record { channel = []; taken = []; entered = [] }; senders = [] }

-- The next select of sender `k`.
unfoldable pub select_of : Traffic → ℕ → Option Sender → Traffic
unfolding select
select_of t k none = t
select_of t k (some s) =
    let (s', line) = select s t.line in record { line = line; senders = set t.senders k s' }

unfoldable pub traffic_step : Traffic → TrafficEvent → Traffic
unfolding select_of
traffic_step t (begins msg) = record t { senders = t.senders ++ (trying msg ∷ []) }
traffic_step t receives = record t { line = take_oldest true t.line }
traffic_step t (selects k) = select_of t k (get_elem? t.senders k)

unfoldable pub traffic_run : Traffic → List TrafficEvent → Traffic
traffic_run t [] = t
traffic_run t (e ∷ es) = traffic_run (traffic_step t e) es

-- `n` receives of the dispatcher.
unfoldable pub received : ℕ → Line → Line
received zero l = l
received (suc n) l = received n (take_oldest true l)

-- The three selects of a sender that no other one gets between, with `a` and `b` receives of the
-- dispatcher between them.
unfoldable pub select_in_turn : NotifyMsg → ℕ → ℕ → Line → Sender × Line
unfolding select
select_in_turn msg a b l =
    let (first, l1) = select (trying msg) l in
    let (second, l2) = select first (received a l1) in select second (received b l2)

-- The messages thrown away.
unfoldable pub lost : List (NotifyMsg × Bool) → ℕ
lost [] = zero
lost ((msg, delivered) ∷ taken) = (if delivered then zero else 1) + lost taken
