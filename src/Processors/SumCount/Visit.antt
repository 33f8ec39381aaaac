-- ===== src/Processors/SumCount/Visit.antt =====
-- What one visit of the loop does to the sets: nothing, or it replaces the values of one group.
use wavefront_collector_for.Prelude.{
  Option, none, some, true, false, ◌≡◌, refl, ◌∙◌, ap, arith, Bool-cases, Option-cases, inl, inr,
}
use wavefront_collector_for.Prelude.Maps.{Map, lookup, insert}
use wavefront_collector_for.Prelude.Result.{ok, ok-injective, >>=-eq-ok}
use wavefront_collector_for.Float64.{Float64}
use wavefront_collector_for.Metrics.Types.{MetricSet, Sets, Value}
use wavefront_collector_for.Metrics.Keys.{ResourceKey}
use wavefront_collector_for.Processors.Aggregate.{aggregate, aggregate_count}
use wavefront_collector_for.Processors.SumCount.{
  SumCountAggregateSpec, add_member, visit_set, visit,
}
use wavefront_collector_for.Processors.SumCount.Grouping.{Grouping, first_some, resolve}

module _ {F : Type 0} ⦃fl : Float64 F⦄ (spec : SumCountAggregateSpec F) (G : Grouping spec) where
  -- the key k has no set that is a member of a group
  pub data Visited (k : ResourceKey) (sets : Sets F) (sets' : Sets F) : Type 0 where
    absent : lookup k sets ≡ none → sets' ≡ sets → Visited k sets sets'
    outside :
        (rs : MetricSet F)
        → lookup k sets ≡ some rs
        → spec.is_part_of_group rs ≡ false
        → sets' ≡ sets
        → Visited k sets sets'
    ungrouped :
        (rs : MetricSet F)
        → lookup k sets ≡ some rs
        → spec.is_part_of_group rs ≡ true
        → G.target rs ≡ none
        → sets' ≡ sets
        → Visited k sets sets'
    no_group :
        (rs : MetricSet F) (g : ResourceKey)
        → lookup k sets ≡ some rs
        → spec.is_part_of_group rs ≡ true
        → G.target rs ≡ some g
        → lookup g sets ≡ none
        → G.fresh rs ≡ none
        → sets' ≡ sets
        → Visited k sets sets'
    added :
        (rs gs : MetricSet F) (g : ResourceKey) (values : Map (Value F))
        → lookup k sets ≡ some rs
        → spec.is_part_of_group rs ≡ true
        → G.target rs ≡ some g
        → first_some (lookup g sets) (G.fresh rs) ≡ some gs
        → aggregate rs.values
            (aggregate_count rs.values gs.values spec.resource_count_metric)
            spec.resource_sum_metrics
          ≡ ok values
        → sets' ≡ insert g (record gs { values = values }) sets
        → Visited k sets sets'

  first_some-none : (o p : Option (MetricSet F)) → first_some o p ≡ none → (o ≡ none) × (p ≡ none)
  first_some-none o p h = ground arith

  add_member-Visited :
      (k : ResourceKey) (rs : MetricSet F) (t : Option ResourceKey) (o : Option (MetricSet F))
      (sets sets' : Sets F)
      → lookup k sets ≡ some rs
      → spec.is_part_of_group rs ≡ true
      → G.target rs ≡ t
      → G.fresh rs ≡ o
      → add_member spec rs (resolve t o sets) sets ≡ ok sets'
      → Visited k sets sets'
  unfolding add_member
  add_member-Visited k rs none o sets sets' e p t f h =
      ungrouped rs e p t (ok-injective sets sets' h)
  add_member-Visited k rs (some g) o sets sets' e p t f h =
      elim (Option-cases (first_some (lookup g sets) o)) [
        | inl n ↦
            let (a, b) = first_some-none (lookup g sets) o n in
            no_group rs g e p t a (f ∙ b) (ok-injective sets sets' (rw n at h))
        | inr (gs, s) ↦
            let h' : add_member spec rs (g, some gs) sets ≡ ok sets' = rw s at h in
            let (values, q, r) =
              >>=-eq-ok
                (aggregate rs.values
                  (aggregate_count rs.values gs.values spec.resource_count_metric)
                  spec.resource_sum_metrics)
                (λ values. ok (insert g (record gs { values = values }) sets)) h' in
            added rs gs g values e p t (ap (first_some (lookup g sets)) f ∙ s) q
              (ok-injective _ sets' r)
      ]

  -- A successful visit of a key changes nothing, where there is no set under the key, or the set is no
  -- member, or its group has no key or no set, and else adds the set to its group.
  pub visit-Visited :
      (k : ResourceKey) (sets sets' : Sets F) → visit spec k sets ≡ ok sets' → Visited k sets sets'
  unfolding visit visit_set
  visit-Visited k sets sets' h = elim (Option-cases (lookup k sets)) [
    | inl e ↦ absent e (ok-injective sets sets' (rw e at h))
    | inr (rs, e) ↦
        let h' : visit_set spec k (some rs) sets ≡ ok sets' = rw e at h in
        elim (Bool-cases (spec.is_part_of_group rs)) [
          | inl p ↦
              let h'' : add_member spec rs (spec.group sets k rs) sets ≡ ok sets' = rw p at h' in
              add_member-Visited k rs (G.target rs) (G.fresh rs) sets sets' e p refl refl
                (rw (G.group_eq sets k rs) at h'')
          | inr p ↦ outside rs e p (ok-injective sets sets' (rw p at h'))
        ]
  ]
