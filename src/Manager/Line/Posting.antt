-- ===== src/Manager/Line/Posting.antt =====
-- ssh.go: what a call of notifyStatusKind does with its message while the dispatcher receives.
use mathlib.Core.Path.{subst}
use ssh_tunnel_manager.Common.{
  ℕ, zero, suc, ◌+◌, ◌≤◌, ◌≡◌, refl, ◌⊎◌, sym, ap, ◌∙◌, Bool, true, false, inl, inr, Bool-cases,
  List, [], ◌∷◌, ◌++◌, length, ltb, if◌then◌else◌, arith,
}
use ssh_tunnel_manager.Manager.{NotifyMsg, notify_capacity, send_or_drop}
use ssh_tunnel_manager.Manager.Line.{
  Line, Sender, dropping, gave_up, sent, take_oldest, select, Traffic, TrafficEvent, quiet,
  traffic_run, received, enter, lost, select_in_turn,
}
use ssh_tunnel_manager.Manager.Line.Order.{Ordered, traffic_run-Ordered}
use ssh_tunnel_manager.Manager.Line.Schedule.{call_in_turn, traffic_run-call_in_turn}

-- What the dispatcher's receives leave as it was.
record Received (l l' : Line) : Type 0 where
  entered_same : l'.entered ≡ l.entered
  lost_same : lost l'.taken ≡ lost l.taken
  shorter : length l'.channel ≤ length l.channel

lost-append_one :
    (taken : List (NotifyMsg × Bool)) (msg : NotifyMsg) (b : Bool)
    → lost (taken ++ ((msg, b) ∷ [])) ≡ lost taken + (if b then zero else 1)
unfolding lost
lost-append_one [] msg true = refl
lost-append_one [] msg false = refl
lost-append_one ((m, d) ∷ taken) msg b = ground (arith, lost-append_one taken msg b)

take_oldest-Received : (l : Line) → Received l (take_oldest true l)
take_oldest-Received l = by_channel l.channel l.taken l.entered
  where
    by_channel :
        (ch : List NotifyMsg) (taken : List (NotifyMsg × Bool)) (entered : List NotifyMsg)
        → let l : Line = record { channel = ch; taken = taken; entered = entered } in
          Received l (take_oldest true l)
    by_channel [] taken entered = record {
      entered_same = refl;
      lost_same = refl;
      shorter = omega arith;
    }
    by_channel (msg ∷ rest) taken entered = record {
      entered_same = refl;
      lost_same = ground (arith, lost-append_one taken msg true);
      shorter = omega arith;
    }

Received-trans : {k l m : Line} → Received k l → Received l m → Received k m
Received-trans h h' = record {
  entered_same = h'.entered_same ∙ h.entered_same;
  lost_same = h'.lost_same ∙ h.lost_same;
  shorter = omega (arith, h.shorter, h'.shorter);
}

received-Received : (n : ℕ) (l : Line) → Received l (received n l)
unfolding received
received-Received zero l = record { entered_same = refl; lost_same = refl; shorter = omega arith }
received-Received (suc n) l =
    Received-trans (take_oldest-Received l) (received-Received n (take_oldest true l))

-- The same of the selects in turn, from the channel `l`.
record PostedIn (msg : NotifyMsg) (l : Line) (r : Sender × Line) : Type 0 where
  got_in : r.0 ≡ sent msg
  last_in : r.1.entered ≡ l.entered ++ (msg ∷ [])
  spared :
      (lost r.1.taken ≡ lost l.taken)
      ⊎ ((length l.channel ≡ 64) × (lost r.1.taken ≤ suc (lost l.taken)))

-- The last call has sent its message and no other call has gone on; nothing was thrown away if there was
-- room, and one message at most if not.
pub record Posted (msg : NotifyMsg) (t t' : Traffic) : Type 0 where
  pub has_sent : t'.senders ≡ t.senders ++ (sent msg ∷ [])
  pub newest : t'.line.entered ≡ t.line.entered ++ (msg ∷ [])
  pub kept :
      (lost t'.line.taken ≡ lost t.line.taken)
      ⊎ ((length t.line.channel ≡ 64) × (lost t'.line.taken ≤ suc (lost t.line.taken)))

enter-room :
    (msg : NotifyMsg) (otherwise : Sender) (l : Line)
    → length l.channel ≤ 63
    → enter msg otherwise l ≡ (
      sent msg,
      record l { channel = l.channel ++ (msg ∷ []); entered = l.entered ++ (msg ∷ []) },
    )
enter-room msg otherwise l h = elim (Bool-cases (ltb (length l.channel) notify_capacity)) [
  | inl e ↦ rw e refl
  | inr e ↦ absurd (ground (arith, e, h))
]

-- The room that throwing the oldest away makes.
record Dropped (l l' : Line) : Type 0 where
  entered_kept : l'.entered ≡ l.entered
  one_more : lost l'.taken ≤ suc (lost l.taken)
  has_room : length l'.channel ≤ 63

take_oldest-Dropped : (l : Line) → length l.channel ≤ 64 → Dropped l (take_oldest false l)
take_oldest-Dropped l h = by_channel l.channel l.taken l.entered h
  where
    by_channel :
        (ch : List NotifyMsg) (taken : List (NotifyMsg × Bool)) (entered : List NotifyMsg)
        → length ch ≤ 64
        → let l : Line = record { channel = ch; taken = taken; entered = entered } in
          Dropped l (take_oldest false l)
    by_channel [] taken entered h = record {
      entered_kept = refl;
      one_more = omega arith;
      has_room = omega arith;
    }
    by_channel (msg ∷ rest) taken entered h = record {
      entered_kept = refl;
      one_more = ground (arith, lost-append_one taken msg false);
      has_room = omega (arith, h);
    }

-- The second and the third select, at a full channel.
retry-PostedIn :
    (msg : NotifyMsg) (b : ℕ) (l l1 : Line)
    → length l.channel ≡ 64
    → Received l l1
    → let (second, l2) = select (dropping msg) l1 in PostedIn msg l (select second (received b l2))
unfolding select
retry-PostedIn msg b l l1 full h = rw (enter-room msg (gave_up msg) (received b l2) room) (record {
  got_in = refl;
  last_in = ap (λ ms. ms ++ (msg ∷ [])) (r.entered_same ∙ d.entered_kept ∙ h.entered_same);
  spared = inr (full, ground (arith, r.lost_same, d.one_more, h.lost_same));
})
  where
    l2 : Line
    l2 = take_oldest false l1

    d : Dropped l1 l2
    d = take_oldest-Dropped l1 (omega (arith, h.shorter, full))

    r : Received l2 (received b l2)
    r = received-Received b l2

    room : length (received b l2).channel ≤ 63
    room = omega (arith, r.shorter, d.has_room)

select_in_turn-PostedIn :
    (msg : NotifyMsg) (a b : ℕ) (l : Line)
    → length l.channel ≤ 64
    → PostedIn msg l (select_in_turn msg a b l)
unfolding select_in_turn select
select_in_turn-PostedIn msg a b l h = elim (Bool-cases (ltb (length l.channel) notify_capacity)) [
  | inr e ↦
      rw e (retry-PostedIn msg b l (received a l) (ground (arith, e, h)) (received-Received a l))
  | inl e ↦
      rw e (record { got_in = refl; last_in = (r l').entered_same; spared = inl (r l').lost_same })
]
  where
    l' : Line
    l' = record l { channel = l.channel ++ (msg ∷ []); entered = l.entered ++ (msg ∷ []) }

    r : (m : Line) → Received m (received b (received a m))
    r m = Received-trans (received-Received a m) (received-Received b (received a m))

-- After any begun calls, selects and receives, the channel and the messages that left it are those that
-- got in, in their order. A call that begins then, and whose three selects no other sender comes between,
-- gets its message in as the newest, with any receives of the dispatcher between the selects: it throws
-- away one message at most, and none if the channel had room when it began. No other call has gone on.
pub traffic_run-Posted :
    (es : List TrafficEvent) (msg : NotifyMsg) (a b : ℕ)
    → let t = traffic_run quiet es in
      Ordered t.line × Posted msg t (traffic_run t (call_in_turn msg a b (length t.senders)))
traffic_run-Posted es msg a b = (
  o,
  subst (Posted msg t) (sym (traffic_run-call_in_turn msg a b t)) (record {
    has_sent = ap (λ s. t.senders ++ (s ∷ [])) p.got_in;
    newest = p.last_in;
    kept = p.spared;
  }),
)
  where
    t : Traffic
    t = traffic_run quiet es

    o : Ordered t.line
    o = traffic_run-Ordered quiet es (record { bounded = omega arith; in_order = refl })

    p : PostedIn msg t.line (select_in_turn msg a b t.line)
    p = select_in_turn-PostedIn msg a b t.line o.bounded

-- With no receive between its selects a call is the one step that the schedules of the manager make.
uninterrupted :
    (msg : NotifyMsg) (l : Line)
    → (select_in_turn msg zero zero l).1.channel ≡ send_or_drop msg l.channel
unfolding select_in_turn select received
uninterrupted msg l = by_channel l.channel l.taken l.entered
  where
    by_channel :
        (ch : List NotifyMsg) (taken : List (NotifyMsg × Bool)) (entered : List NotifyMsg)
        → let l : Line = record { channel = ch; taken = taken; entered = entered } in
          (select_in_turn msg zero zero l).1.channel ≡ send_or_drop msg ch
    by_channel [] taken entered = refl
    by_channel (m ∷ rest) taken entered = ground (arith, ltb (length (m ∷ rest)) notify_capacity)
