-- ===== src/Manager/Line/Order.antt =====
-- ssh.go: what the notification channel keeps, whatever comes between the selects.
use ssh_tunnel_manager.Common.{
  ℕ, ◌≤◌, ◌≡◌, refl, sym, ap, ◌∙◌, Bool, true, false, inl, inr, Bool-cases, List, [], ◌∷◌, ◌++◌,
  append_assoc, map, Option, none, some, length, ltb, get_elem?, arith, length-append,
}
use ssh_tunnel_manager.Manager.{NotifyMsg, notify_capacity}
use ssh_tunnel_manager.Manager.Line.{
  Line, Sender, trying, dropping, retrying, sent, gave_up, take_oldest, select, Traffic,
  TrafficEvent, begins, selects, receives, traffic_step, traffic_run, enter, select_of,
}

-- The messages that left and those that wait are those that got in, in the same order.
pub record Ordered (l : Line) : Type 0 where
  pub bounded : length l.channel ≤ 64
  pub in_order : map (λ m. m.0) l.taken ++ l.channel ≡ l.entered

map-append_one :
    (taken : List (NotifyMsg × Bool)) (msg : NotifyMsg) (b : Bool)
    → map (λ m. m.0) (taken ++ ((msg, b) ∷ [])) ≡ map (λ m. m.0) taken ++ (msg ∷ [])
map-append_one [] msg b = refl
map-append_one (t ∷ taken) msg b = ap (λ ms. t.0 ∷ ms) (map-append_one taken msg b)

take_oldest-Ordered : (b : Bool) (l : Line) → Ordered l → Ordered (take_oldest b l)
take_oldest-Ordered b l o = by_channel l.channel l.taken l.entered o.bounded o.in_order
  where
    by_channel :
        (ch : List NotifyMsg) (taken : List (NotifyMsg × Bool)) (entered : List NotifyMsg)
        → length ch ≤ 64
        → map (λ m. m.0) taken ++ ch ≡ entered
        → Ordered (take_oldest b (record { channel = ch; taken = taken; entered = entered }))
    by_channel [] taken entered h e = record { bounded = h; in_order = e }
    by_channel (msg ∷ rest) taken entered h e = record {
      bounded = omega (arith, h);
      in_order =
          ap (λ ms. ms ++ rest) (map-append_one taken msg b)
          ∙ append_assoc (map (λ m. m.0) taken) (msg ∷ []) rest
          ∙ e;
    }

enter-Ordered :
    (msg : NotifyMsg) (otherwise : Sender) (l : Line)
    → Ordered l
    → Ordered (enter msg otherwise l).1
enter-Ordered msg otherwise l o = elim (Bool-cases (ltb (length l.channel) notify_capacity)) [
  | inr e ↦ rw e o
  | inl e ↦ rw e (record {
    bounded = ground (arith, e, length-append l.channel (msg ∷ []));
    in_order =
        sym (append_assoc (map (λ m. m.0) l.taken) l.channel (msg ∷ []))
        ∙ ap (λ ms. ms ++ (msg ∷ [])) o.in_order;
  })
]

select-Ordered : (s : Sender) (l : Line) → Ordered l → Ordered (select s l).1
unfolding select
select-Ordered (trying msg) l o = enter-Ordered msg (dropping msg) l o
select-Ordered (dropping msg) l o = take_oldest-Ordered false l o
select-Ordered (retrying msg) l o = enter-Ordered msg (gave_up msg) l o
select-Ordered (sent msg) l o = o
select-Ordered (gave_up msg) l o = o

select_of-Ordered :
    (t : Traffic) (k : ℕ) (found : Option Sender)
    → Ordered t.line
    → Ordered (select_of t k found).line
unfolding select_of
select_of-Ordered t k none o = o
select_of-Ordered t k (some s) o = select-Ordered s t.line o

traffic_step-Ordered :
    (t : Traffic) (e : TrafficEvent) → Ordered t.line → Ordered (traffic_step t e).line
unfolding traffic_step
traffic_step-Ordered t (begins msg) o = o
traffic_step-Ordered t receives o = take_oldest-Ordered true t.line o
traffic_step-Ordered t (selects k) o = select_of-Ordered t k (get_elem? t.senders k) o

pub traffic_run-Ordered :
    (t : Traffic) (es : List TrafficEvent) → Ordered t.line → Ordered (traffic_run t es).line
unfolding traffic_run
traffic_run-Ordered t [] o = o
traffic_run-Ordered t (e ∷ es) o =
    traffic_run-Ordered (traffic_step t e) es (traffic_step-Ordered t e o)
