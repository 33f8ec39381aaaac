-- ===== src/Leadership/Demotion.antt =====
-- What becomes of a node that has led once.
use wavefront_collector_for.Prelude.{
  String, List, [], ◌∷◌, ◌++◌, Option, none, some, Bool, true, false, ◌≡◌, ◌≢◌, refl, ap, eq_iff,
  eq_refl, arith,
}
use wavefront_collector_for.Prelude.Maps.{Map, lookup}
use wavefront_collector_for.Leadership.{
  Election, Event, System, resumed, paused, tell_all, on_new_leader, leading, run, step, steps,
}
use mathlib.Core.Option

step-is_leader :
    (node : String) (e : Event) (s : Election)
    → s.is_leader ≡ true
    → (step node e s).is_leader ≡ true
unfolding step
step-is_leader node e s h = ground arith

-- Once a node has led, Leading reports that it leads after any further subscriptions, cancellations
-- and elections, whoever is elected.
pub leading_for_good :
    (node : String) (events : List Event) (s : Election)
    → s.is_leader ≡ true
    → leading true (steps node events s) ≡ true
unfolding steps leading
leading_for_good node [] s h = h
leading_for_good node (e ∷ events) s h =
    leading_for_good node events (step node e s) (step-is_leader node e s h)

pub lookup-tell_all :
    (b : Bool) (name : String) (m : Map (List Bool))
    → lookup name (tell_all b m) ≡ Option.map (λ sent. sent ++ b ∷ []) (lookup name m)
unfolding lookup tell_all
lookup-tell_all b name [] = refl
lookup-tell_all b name ((j, sent) ∷ m) = ground (arith, lookup-tell_all b name m)

pub demoted :
    (node other : String) (s : Election)
    → s.is_leader ≡ true
    → other ≢ node
    → (on_new_leader node other s).subscribers ≡ tell_all false s.subscribers
unfolding on_new_leader
demoted node other s h ne = ground (arith, eq_iff other node)

pub still_leader :
    (node other : String) (s : Election)
    → s.is_leader ≡ true
    → (on_new_leader node other s).is_leader ≡ true
unfolding on_new_leader
still_leader node other s h = ground arith

leader_id-on_new_leader : (a b : String) (s : Election) → (on_new_leader a b s).leader_id ≡ b
unfolding on_new_leader
leader_id-on_new_leader a b s = ground arith

reelected :
    (node : String) (s : Election)
    → s.is_leader ≡ true
    → (on_new_leader node node s).subscribers ≡ s.subscribers
unfolding on_new_leader
reelected node s h = ground (arith, eq_refl node)

run-append : (system : System) (sent : List Bool) → run system (sent ++ false ∷ []) ≡ paused
unfolding run
run-append system [] = refl
run-append system (true ∷ sent) = run-append resumed sent
run-append system (false ∷ sent) = run-append paused sent

abbrev pub outcome : Option (List Bool) → System → Option System
outcome none system = none
outcome (some sent) system = some (run system sent)

-- A leader that loses an election and wins the next one leaves every subscriber paused, though it
-- is the leader: nobody is told of the second victory.
pub reelected_stays_paused :
    (node other name : String) (sent : List Bool) (system : System) (s : Election)
    → s.is_leader ≡ true
    → other ≢ node
    → lookup name s.subscribers ≡ some sent
    → let t = on_new_leader node node (on_new_leader node other s) in
      (t.leader_id ≡ node) × (outcome (lookup name t.subscribers) system ≡ some paused)
reelected_stays_paused node other name sent system s h ne l =
    let m = on_new_leader node other s in
    let hm : m.is_leader ≡ true = still_leader node other s h in
    (
      leader_id-on_new_leader node node m,
      rw (reelected node m hm, demoted node other s h ne, lookup-tell_all, l)
          (ap some (run-append system sent)),
    )
