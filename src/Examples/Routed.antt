-- ===== src/Examples/Routed.antt =====
-- The event router at concrete inputs.
use wavefront_collector_for.Prelude.{
  ℕ, ◌+◌, ◌*◌, List, [], ◌∷◌, none, some, true, ◌≡◌, refl, arith, eq_iff,
}
use mathlib.Core.Option
use wavefront_collector_for.Prelude.Maps.{lookup}
use wavefront_collector_for.Leadership.{Election, on_new_leader}
use wavefront_collector_for.Events.Selection.{EventFilter, matches}
use wavefront_collector_for.Events.Router.{
  EventRouter, KubeEvent, unmade, opened, closed, add_events, handle, stop, minute,
}
use wavefront_collector_for.Events.Router.Panics.{Panics, demoted-Panics}
use wavefront_collector_for.Events.Router.Sent.{Routed, Routed-add_events}

abbrev all_events : EventFilter
all_events = record { allow_list = []; deny_list = []; allow_list_sets = []; deny_list_sets = [] }

abbrev router : EventRouter
router = record {
  filters = all_events;
  scrape_cluster = true;
  stop = unmade;
  received = 0;
  filtered = 0;
  sent = 0;
  exported = [];
}

abbrev routing : EventRouter
routing = record router { stop = opened }

abbrev elected : Election
elected = record {
  subscribers = ("eventRouter", true ∷ []) ∷ [];
  started = true;
  is_leader = true;
  leader_id = "node-1";
  leading_gauge = 1;
  election_error = 0;
}

demoted-Panics_example :
    let t = on_new_leader "node-1" "node-2" elected in
    let paused = record routing { stop = closed } in
    (Option.map (λ messages. handle messages router) (lookup "eventRouter" t.subscribers)
      ≡ some (some paused))
    × Panics (lookup "eventRouter" (on_new_leader "node-1" "node-3" t).subscribers) router
    × ((stop paused t).0 ≡ none)
unfolding lookup handle
demoted-Panics_example =
    demoted-Panics "node-1" "node-2" "node-3" "eventRouter" (true ∷ []) elected router routing refl
      (λ e. ground (arith, (eq_iff "node-2" "node-1").1 e))
      (λ e. ground (arith, (eq_iff "node-3" "node-1").1 e)) refl refl refl

abbrev backoff : KubeEvent
backoff = record {
  message = "Back-off restarting failed container";
  last_timestamp = minute * 5;
  type = "Warning";
  reason = "BackOff";
  component = "kubelet";
  host = "node-1";
  namespace = "default";
  kind = "Pod";
  name = "web";
}

abbrev two_events : List (ℕ × KubeEvent)
two_events = (minute * 5 + 1, backoff) ∷ (minute * 7, backoff) ∷ []

Routed-add_events_example : Routed router (add_events two_events router) two_events
Routed-add_events_example = Routed-add_events two_events router

one_sent : (add_events two_events router).sent ≡ 1
unfolding add_events matches
one_sent = refl
