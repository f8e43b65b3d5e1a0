-- ===== src/Manager/Line/Schedule.antt =====
-- ssh.go: a call of notifyStatusKind as a part of a schedule of selects and receives.
use ssh_tunnel_manager.Common.{
  ℕ, zero, suc, ◌≡◌, refl, ◌∙◌, List, [], ◌∷◌, ◌++◌, length, get_elem?-append_at, true, set, arith,
}
use ssh_tunnel_manager.Manager.{NotifyMsg}
use ssh_tunnel_manager.Manager.Line.{
  Line, Sender, trying, take_oldest, select, Traffic, TrafficEvent, begins, selects, receives,
  traffic_step, traffic_run, select_of, received, select_in_turn,
}

-- `n` receives before `es`.
abbrev pub receives_before : ℕ → List TrafficEvent → List TrafficEvent
receives_before zero es = es
receives_before (suc n) es = receives ∷ receives_before n es

-- The call of sender `k`, with `a` and `b` receives between its selects.
abbrev pub call_in_turn : NotifyMsg → ℕ → ℕ → ℕ → List TrafficEvent
call_in_turn msg a b k =
    begins msg ∷ selects k ∷ receives_before a (selects k ∷ receives_before b (selects k ∷ []))

set-append_length :
    (ss : List Sender) (s s' : Sender) → set (ss ++ (s ∷ [])) (length ss) s' ≡ ss ++ (s' ∷ [])
set-append_length [] s s' = refl
set-append_length (x ∷ ss) s s' = ground (arith, set-append_length ss s s')

traffic_run-receives :
    (n : ℕ) (es : List TrafficEvent) (ss : List Sender) (l : Line)
    → traffic_run (record { line = l; senders = ss }) (receives_before n es)
      ≡ traffic_run (record { line = received n l; senders = ss }) es
unfolding traffic_run traffic_step received
traffic_run-receives zero es ss l = refl
traffic_run-receives (suc n) es ss l = traffic_run-receives n es ss (take_oldest true l)

traffic_run-selects :
    (es : List TrafficEvent) (ss : List Sender) (s : Sender) (l : Line)
    → traffic_run (record { line = l; senders = ss ++ (s ∷ []) }) (selects (length ss) ∷ es)
      ≡ traffic_run (record { line = (select s l).1; senders = ss ++ ((select s l).0 ∷ []) }) es
unfolding traffic_run traffic_step select_of
traffic_run-selects es ss s l =
    rw (get_elem?-append_at ss [] s) (rw (set-append_length ss s (select s l).0) refl)

-- The schedule of the call alone is `select_in_turn`.
pub traffic_run-call_in_turn :
    (msg : NotifyMsg) (a b : ℕ) (t : Traffic)
    → let r = select_in_turn msg a b t.line in
      traffic_run t (call_in_turn msg a b (length t.senders))
      ≡ record { line = r.1; senders = t.senders ++ (r.0 ∷ []) }
unfolding traffic_run traffic_step select_in_turn
traffic_run-call_in_turn msg a b t =
    traffic_run-selects (receives_before a third) ss (trying msg) t.line
    ∙ traffic_run-receives a third (ss ++ (r1.0 ∷ [])) r1.1
    ∙ traffic_run-selects (receives_before b last) ss r1.0 (received a r1.1)
    ∙ traffic_run-receives b last (ss ++ (r2.0 ∷ [])) r2.1
    ∙ traffic_run-selects [] ss r2.0 (received b r2.1)
  where
    ss : List Sender
    ss = t.senders

    last : List TrafficEvent
    last = selects (length ss) ∷ []

    third : List TrafficEvent
    third = selects (length ss) ∷ receives_before b last

    r1 : Sender × Line
    r1 = select (trying msg) t.line

    r2 : Sender × Line
    r2 = select r1.0 (received a r1.1)
