-- ===== src/Examples/Led.antt =====
-- Leader election and discovered endpoints at concrete inputs.
use wavefront_collector_for.Prelude.{
  String, [], ◌∷◌, none, some, true, false, ◌≡◌, refl, eq_iff, ◌==◌, if◌then◌else◌, arith,
}
use wavefront_collector_for.Prelude.Maps.{lookup}
use wavefront_collector_for.Leadership.{Election, resumed, paused, on_new_leader}
use wavefront_collector_for.Leadership.Demotion.{reelected_stays_paused, outcome}
use wavefront_collector_for.Leadership.Subscribers.{first_victory}
use wavefront_collector_for.Discovery.Endpoints.{Endpoint, Factory, EndpointHandler}

abbrev leader : Election
leader = record {
  subscribers = ("events", true ∷ []) ∷ [];
  started = true;
  is_leader = true;
  leader_id = "node-1";
  leading_gauge = 1;
  election_error = 0;
}

abbrev follower : Election
follower = record leader {
  subscribers = ("events", []) ∷ [];
  is_leader = false;
  leader_id = "node-2";
}

reelected_stays_paused_example :
    let t = on_new_leader "node-1" "node-1" (on_new_leader "node-1" "node-2" leader) in
    (t.leader_id ≡ "node-1") × (outcome (lookup "events" t.subscribers) resumed ≡ some paused)
unfolding lookup
reelected_stays_paused_example =
    reelected_stays_paused "node-1" "node-2" "events" (true ∷ []) resumed leader refl
      (λ e. ground (arith, (eq_iff "node-2" "node-1").1 e)) refl

first_victory_example :
    let t = on_new_leader "node-1" "node-1" follower in
    (t.is_leader ≡ true) × (outcome (lookup "events" t.subscribers) paused ≡ some resumed)
unfolding lookup
first_victory_example = first_victory "node-1" "events" [] paused follower refl refl

abbrev prometheus : Factory String
prometheus = record { name = "prometheus"; build = λ url. if url == "" then none else some url }

abbrev found : Endpoint String
found = record { name = "pod-a"; plugin_type = "prometheus"; config = "http://10.0.0.1/metrics" }

abbrev unusable : Endpoint String
unusable = record found { config = "" }

abbrev handler : EndpointHandler String
handler = record {
  providers = ("prometheus", prometheus) ∷ [];
  counts = ("prometheus", 0) ∷ [];
  calls = [];
}
