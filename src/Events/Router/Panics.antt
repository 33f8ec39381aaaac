-- ===== src/Events/Router/Panics.antt =====
-- A router that was demoted panics at the next change of the leader, or when it is stopped.
use wavefront_collector_for.Prelude.{
  String, List, [], ◌∷◌, ◌++◌, Option, none, some, Bool, true, false, ◌≡◌, ◌≢◌, refl, ◌∙◌, sym, ap,
  inl, inr, Option-cases,
}
use mathlib.Core.Option
use wavefront_collector_for.Prelude.Maps.{lookup}
use wavefront_collector_for.Leadership.{Election, on_new_leader}
use wavefront_collector_for.Leadership.Demotion.{lookup-tell_all, demoted, still_leader}
use wavefront_collector_for.Events.Router.{EventRouter, opened, closed, pause, handle, stop}

handle-pause :
    (xs : List Bool) (er paused : EventRouter)
    → pause er ≡ some paused
    → handle (false ∷ xs) er ≡ handle xs paused
unfolding handle
handle-pause xs er paused e = rw (e, handle) refl

handle-panic : (xs : List Bool) (er : EventRouter) → pause er ≡ none → handle (false ∷ xs) er ≡ none
unfolding handle
handle-panic xs er e = rw (e, handle) refl

handle-append :
    (xs ys : List Bool) (er mid : EventRouter)
    → handle xs er ≡ some mid
    → handle (xs ++ ys) er ≡ handle ys mid
unfolding handle
handle-append [] ys er mid h = cc
handle-append (true ∷ xs) ys er mid h = handle-append xs ys _ mid h
handle-append (false ∷ xs) ys er mid h = elim (Option-cases (pause er)) [
  | inl e ↦ cc (handle-panic xs er e)
  | inr (p, e) ↦
      handle-pause (xs ++ ys) er p e ∙ handle-append xs ys p mid (sym (handle-pause xs er p e) ∙ h)
]

pause-opened : (er : EventRouter) → er.stop ≡ opened → pause er ≡ some (record er { stop = closed })
unfolding pause
pause-opened er h = rw h refl

pause-closed : (er : EventRouter) → er.stop ≡ closed → pause er ≡ none
unfolding pause
pause-closed er h = rw h refl

abbrev pub Panics : Option (List Bool) → EventRouter → Type 0
Panics none er = ⊥
Panics (some messages) er = handle messages er ≡ none

-- Where a router runs as the leader, another node that is elected stops it. If then a third is elected, the
-- router is told to pause once more, and panics; if it is stopped instead, it panics too.
pub demoted-Panics :
    (node other third name : String) (sent : List Bool) (s : Election) (er running : EventRouter)
    → s.is_leader ≡ true
    → other ≢ node
    → third ≢ node
    → lookup name s.subscribers ≡ some sent
    → handle sent er ≡ some running
    → running.stop ≡ opened
    → let t = on_new_leader node other s in
      let paused = record running { stop = closed } in
      (Option.map (λ messages. handle messages er) (lookup name t.subscribers) ≡ some (some paused))
      × Panics (lookup name (on_new_leader node third t).subscribers) er
      × ((stop paused t).0 ≡ none)
unfolding stop handle
demoted-Panics node other third name sent s er running h ne ne' l e o =
    let t = on_new_leader node other s in
    let paused = record running { stop = closed } in
    let first : lookup name t.subscribers ≡ some (sent ++ false ∷ []) =
      rw (demoted node other s h ne, lookup-tell_all, l) refl in
    let second : lookup name (on_new_leader node third t).subscribers
        ≡ some ((sent ++ false ∷ []) ++ false ∷ []) =
      rw (demoted node third t (still_leader node other s h) ne', lookup-tell_all, first) refl in
    let once : handle (sent ++ false ∷ []) er ≡ some paused =
      handle-append sent (false ∷ []) er running e
      ∙ handle-pause [] running paused (pause-opened running o) in
    (
      rw first (ap some once),
      rw second (
          handle-append (sent ++ false ∷ []) (false ∷ []) er paused once
          ∙ handle-panic [] paused (pause-closed paused refl)),
      pause-closed paused refl,
    )
