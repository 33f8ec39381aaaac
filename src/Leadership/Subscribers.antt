-- ===== src/Leadership/Subscribers.antt =====
-- What subscribers are told while the node has not lost an election.
use wavefront_collector_for.Prelude.{
  String, List, [], ◌∷◌, ◌++◌, some, Bool, true, false, ◌≡◌, refl, ap, eq_refl, arith,
  if◌then◌else◌,
}
use wavefront_collector_for.Prelude.Maps.{lookup, lookup-insert}
use wavefront_collector_for.Leadership.{
  Election, System, resumed, paused, tell_all, subscribe, on_new_leader, run, new_channel,
}
use wavefront_collector_for.Leadership.Demotion.{lookup-tell_all, outcome}

run-true : (system : System) (sent : List Bool) → run system (sent ++ true ∷ []) ≡ resumed
unfolding run
run-true system [] = refl
run-true system (true ∷ sent) = run-true resumed sent
run-true system (false ∷ sent) = run-true paused sent

won :
    (node : String) (s : Election)
    → s.is_leader ≡ false
    → ((on_new_leader node node s).is_leader ≡ true)
      × ((on_new_leader node node s).subscribers ≡ tell_all true s.subscribers)
unfolding on_new_leader
won node s h = ground (arith, eq_refl node)

-- The first victory of a node resumes the system of every subscriber.
pub first_victory :
    (node name : String) (sent : List Bool) (system : System) (s : Election)
    → s.is_leader ≡ false
    → lookup name s.subscribers ≡ some sent
    → let t = on_new_leader node node s in
      (t.is_leader ≡ true) × (outcome (lookup name t.subscribers) system ≡ some resumed)
first_victory node name sent system s h l =
    let (a, b) = won node s h in (a, rw (b, lookup-tell_all, l) (ap some (run-true system sent)))

-- A subscription fails exactly if the election has not started and the elector cannot be created;
-- it then changes only the error counter. If it succeeds the subscriber's system resumes at once if
-- the node leads, and stays as it is if not.
pub subscribe_lem :
    (elector : Bool) (name : String) (system : System) (s : Election)
    → let (t, done) = subscribe elector name s in
      (done ≡ (if s.started then true else elector))
      × (done ≡ false → t.subscribers ≡ s.subscribers)
      × (done ≡ true
          → outcome (lookup name t.subscribers) system
            ≡ some (if s.is_leader then resumed else system))
unfolding subscribe run
subscribe_lem elector name system s = (
  ground arith,
  λ h. ground arith,
  λ h.
      ground (arith, eq_refl name, lookup-insert name name (new_channel s.is_leader) s.subscribers),
)
