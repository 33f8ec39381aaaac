-- ===== src/Events/Router/Sent.antt =====
-- Which events are handed to the sink.
use wavefront_collector_for.Prelude.{
  ℕ, ◌+◌, List, [], ◌∷◌, ◌++◌, map, keep, Bool, true, false, not, ◌&&◌, ◌≡◌, refl, ◌∙◌, sym, arith,
  length, append-nil, append_assoc, inl, inr, Bool-cases,
}
use wavefront_collector_for.Events.Selection.{EventFilter, matches}
use wavefront_collector_for.Events.Router.{
  EventRouter, KubeEvent, Event, of_type, default_to, is_old, tags_of, new_event, add_event,
  add_events,
}

abbrev pub fresh : ℕ × KubeEvent → Bool
fresh (now, e) = not (is_old now e)

-- not too old, and let through by the filter
abbrev pub wanted : EventFilter → ℕ × KubeEvent → Bool
wanted filters (now, e) = not (is_old now e) && matches filters (tags_of e)

abbrev pub made : ℕ × KubeEvent → Event
made (now, e) =
    new_event e.message e.last_timestamp e.host (tags_of e)
      (of_type (default_to "Normal" e.type) ∷ [])

-- what the router has after the events `done` beyond what it had
pub record Routed (before after : EventRouter) (events : List (ℕ × KubeEvent)) : Type 0 where
  pub exported : after.exported ≡ before.exported ++ map made (keep (wanted before.filters) events)
  pub sent : after.sent ≡ before.sent + length (keep (wanted before.filters) events)
  pub received : after.received ≡ before.received + length (keep fresh events)
  pub filtered :
      after.filtered + after.sent + before.received ≡ before.filtered + before.sent + after.received

add_old :
    (now : ℕ) (e : KubeEvent) (er : EventRouter) → is_old now e ≡ true → add_event now e er ≡ er
unfolding add_event
add_old now e er old = rw old refl

after_drop : EventRouter → EventRouter
after_drop er = record er { received = er.received + 1; filtered = er.filtered + 1 }

add_dropped :
    (now : ℕ) (e : KubeEvent) (er : EventRouter)
    → is_old now e ≡ false
    → matches er.filters (tags_of e) ≡ false
    → add_event now e er ≡ after_drop er
unfolding add_event after_drop
add_dropped now e er new dropped = rw (new, dropped) refl

after_send : Event → EventRouter → EventRouter
after_send made er = record er {
  received = er.received + 1;
  sent = er.sent + 1;
  exported = er.exported ++ made ∷ [];
}

add_wanted :
    (now : ℕ) (e : KubeEvent) (er : EventRouter)
    → is_old now e ≡ false
    → matches er.filters (tags_of e) ≡ true
    → add_event now e er ≡ after_send (made (now, e)) er
unfolding add_event after_send
add_wanted now e er new passes = rw (new, passes) refl

-- Of the events that come in, exactly those that are not older than a minute and that the filter lets
-- through are handed to the sink, in order and each with its type and tags. They are counted as sent, the
-- others that are not too old as filtered, and both as received.
pub Routed-add_events :
    (events : List (ℕ × KubeEvent)) (er : EventRouter) → Routed er (add_events events er) events
unfolding add_events keep after_drop after_send
Routed-add_events [] er = record {
  exported = sym (append-nil _);
  sent = omega arith;
  received = omega arith;
  filtered = omega arith;
}
Routed-add_events ((now, e) ∷ events) er = elim (Bool-cases (is_old now e)) [
  | inl old ↦
      let ih = Routed-add_events events er in
      rw (add_old now e er old) (record {
        exported = rw old ih.exported;
        sent = rw old ih.sent;
        received = rw old ih.received;
        filtered = ih.filtered;
      })
  | inr new ↦ elim (Bool-cases (matches er.filters (tags_of e))) [
    | inl passes ↦
        let ih = Routed-add_events events (after_send (made (now, e)) er) in
        rw (add_wanted now e er new passes) (record {
          exported =
              rw (new, passes) (ih.exported ∙ append_assoc er.exported (made (now, e) ∷ []) _);
          sent = rw (new, passes) (omega (arith, ih.sent));
          received = rw new (omega (arith, ih.received));
          filtered = omega (arith, ih.filtered);
        })
    | inr dropped ↦
        let ih = Routed-add_events events (after_drop er) in
        rw (add_dropped now e er new dropped) (record {
          exported = rw (new, dropped) ih.exported;
          sent = rw (new, dropped) ih.sent;
          received = rw new (omega (arith, ih.received));
          filtered = omega (arith, ih.filtered);
        })
  ]
]
