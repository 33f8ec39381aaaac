-- ===== src/Events/Selection/Rules.antt =====
-- What the lists of the filter ask of an event.
use wavefront_collector_for.Prelude.{
  String, List, [], ◌∷◌, ◌⊎◌, inl, inr, true, false, ◌≡◌, ◌≢◌, ◌↔◌, refl, arith, All, Bool-cases,
}
use wavefront_collector_for.Prelude.Maps.{Map}
use wavefront_collector_for.Filter.{Glob, matches_tags, matches_all_tags}
use wavefront_collector_for.Filter.Matching.{
  Hit, AnyHit, matches_tags-AnyHit, AnyHit-matches_tags, matches_all_tags-All,
}
use wavefront_collector_for.Events.Selection.{EventFilter, matches_a_set, matches}

-- one of the sets is matched in full
pub data AnySet (tags : Map String) : List (Map Glob) → Type 0 where
  here : {m : Map Glob} {ms : List (Map Glob)} → All (Hit tags) m → AnySet tags (m ∷ ms)
  there : {m : Map Glob} {ms : List (Map Glob)} → AnySet tags ms → AnySet tags (m ∷ ms)

matches_a_set-AnySet :
    (sets : List (Map Glob)) (tags : Map String)
    → (matches_a_set sets tags ≡ true) ↔ AnySet tags sets
unfolding matches_a_set
matches_a_set-AnySet [] tags = (λ h. cc, λ a. elim a [ ])
matches_a_set-AnySet (m ∷ ms) tags =
    let (f, b) = matches_a_set-AnySet ms tags in
    let (all, hit) = matches_all_tags-All m tags in
    (
      λ h. elim (Bool-cases (matches_all_tags m tags)) [
        | inl e ↦ here (all e)
        | inr e ↦ there (f (rw e at h))
      ],
      λ a. elim a [ here p ↦ rw (hit p) refl | there p ↦ ground (arith, b p) ],
    )

matches-parts :
    (ef : EventFilter) (tags : Map String)
    → matches ef tags ≡ true
    → ((ef.allow_list ≡ []) ⊎ (matches_tags ef.allow_list tags ≡ true))
      × (matches_tags ef.deny_list tags ≡ false)
      × ((ef.allow_list_sets ≡ []) ⊎ (matches_a_set ef.allow_list_sets tags ≡ true))
unfolding matches matches_tags
matches-parts ef tags h = ground arith

-- An event that a filter lets through has a tag that the allow list matches, if there is one, and
-- none that the deny list matches, and matches one of the allowed sets in full, if there are any.
pub matches-allowed :
    (ef : EventFilter) (tags : Map String)
    → matches ef tags ≡ true
    → ((ef.allow_list ≡ []) ⊎ AnyHit tags ef.allow_list)
      × (¬ AnyHit tags ef.deny_list)
      × ((ef.allow_list_sets ≡ []) ⊎ AnySet tags ef.allow_list_sets)
matches-allowed ef tags h =
    let (a, d, s) = matches-parts ef tags h in
    (
      elim a [ inl e ↦ inl e | inr e ↦ inr (matches_tags-AnyHit ef.allow_list tags e) ],
      λ hit. cc (d, AnyHit-matches_tags ef.deny_list tags hit),
      elim s [ inl e ↦ inl e | inr e ↦ inr ((matches_a_set-AnySet ef.allow_list_sets tags).0 e) ],
    )

-- Where sets are allowed, the denied sets play no part.
pub matches-deny_list_sets :
    (ef : EventFilter) (tags : Map String) (sets : List (Map Glob))
    → ef.allow_list_sets ≢ []
    → matches (record ef { deny_list_sets = sets }) tags ≡ matches ef tags
unfolding matches
matches-deny_list_sets ef tags sets ne = ground (arith, ne)
