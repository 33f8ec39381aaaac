-- ===== src/Processors/SumCount/Counts/Shares.antt =====
-- One visit: the count of the group grows by the contribution, and all contributions stay.
use mathlib.Core.Path.{subst}
use wavefront_collector_for.Prelude.{
  ◌+◌, ◌%◌, ◌^◌, none, some, true, false, ◌≡◌, refl, sym, ◌∙◌, ap, ◌==◌, eq_iff, ◌||◌, is_some,
  arith, Bool-cases, Option-cases, inl, inr,
}
use wavefront_collector_for.Prelude.Maps.{Map, lookup, insert, lookup-insert}
use wavefront_collector_for.Prelude.Result.{ok}
use wavefront_collector_for.Float64.{Float64}
use wavefront_collector_for.Metrics.Types.{MetricSet, Sets, Value}
use wavefront_collector_for.Metrics.Keys.{ResourceKey}
use wavefront_collector_for.Processors.Aggregate.{aggregate, aggregate_count, source_count}
use wavefront_collector_for.Processors.Aggregate.Totals.{
  times, count_in, lookup-aggregate, count_in-aggregate_count,
}
use wavefront_collector_for.Processors.SumCount.{SumCountAggregateSpec}
use wavefront_collector_for.Processors.SumCount.Grouping.{Grouping, first_some}
use wavefront_collector_for.Processors.SumCount.Visit.{
  Visited, absent, outside, ungrouped, no_group, added,
}
use wavefront_collector_for.Processors.SumCount.Counts.{group_count, contribution, Apart}

module _ {F : Type 0} ⦃fl : Float64 F⦄ (spec : SumCountAggregateSpec F) (G : Grouping spec) where
  -- where the set of a group comes from
  data Source (sets : Sets F) (rs gs : MetricSet F) (g : ResourceKey) : Type 0 where
    old : lookup g sets ≡ some gs → Source sets rs gs g
    new : lookup g sets ≡ none → G.fresh rs ≡ some gs → Source sets rs gs g

  Source-of :
      (sets : Sets F) (rs gs : MetricSet F) (g : ResourceKey)
      → first_some (lookup g sets) (G.fresh rs) ≡ some gs
      → Source sets rs gs g
  Source-of sets rs gs g h = elim (Option-cases (lookup g sets)) [
    | inl n ↦ new n (rw n at h)
    | inr (s, e) ↦ old (e ∙ rw e at h)
  ]

  Source-exists :
      (sets : Sets F) (rs gs : MetricSet F) (g : ResourceKey)
      → Source sets rs gs g
      → (G.creates || is_some (lookup g sets)) ≡ true
  Source-exists sets rs gs g (old e) = rw e (ground arith)
  Source-exists sets rs gs g (new n f) =
      let c : G.creates ≡ true = sym (G.fresh_exists rs) ∙ ap is_some f in rw c refl

  Source-count_in :
      (sets : Sets F) (rs gs : MetricSet F) (g : ResourceKey)
      → Source sets rs gs g
      → group_count spec G sets g ≡ count_in (lookup spec.resource_count_metric gs.values)
  unfolding lookup
  Source-count_in sets rs gs g (old e) = rw e refl
  Source-count_in sets rs gs g (new n f) = rw (n, G.fresh_values rs gs f) refl

  Source-member :
      (sets : Sets F) (rs gs : MetricSet F) (g : ResourceKey)
      → Apart spec G sets
      → G.target rs ≡ some g
      → Source sets rs gs g
      → G.member gs.labels ≡ false
  Source-member sets rs gs g apart t (old e) = apart rs gs g t e
  Source-member sets rs gs g apart t (new n f) = G.fresh_member rs gs f

  not_part : (s : MetricSet F) → G.member s.labels ≡ false → spec.is_part_of_group s ≡ false
  not_part s h = elim (Bool-cases (spec.is_part_of_group s)) [
    | inl p ↦ cc (G.part_member s p)
    | inr n ↦ n
  ]

  -- the count of a group that a member was added to
  count-added :
      (sets : Sets F) (rs gs : MetricSet F) (g : ResourceKey) (values : Map (Value F))
      → times spec.resource_count_metric spec.resource_sum_metrics ≡ 0
      → Source sets rs gs g
      → aggregate rs.values
          (aggregate_count rs.values gs.values spec.resource_count_metric)
          spec.resource_sum_metrics
        ≡ ok values
      → count_in (lookup spec.resource_count_metric values) % 2 ^ 64
        ≡ (group_count spec G sets g + source_count (lookup spec.resource_count_metric rs.values))
          % 2 ^ 64
  count-added sets rs gs g values t s h =
      rw
        (
          lookup-aggregate rs.values
              (aggregate_count rs.values gs.values spec.resource_count_metric) values
              spec.resource_sum_metrics spec.resource_count_metric t h,
          Source-count_in sets rs gs g s,
        )
        (count_in-aggregate_count rs.values gs.values spec.resource_count_metric)

  -- replacing the values of a group changes no contribution
  contribution-added :
      (sets : Sets F) (rs gs : MetricSet F) (j : ResourceKey) (values : Map (Value F))
      (g i : ResourceKey)
      → Source sets rs gs j
      → G.member gs.labels ≡ false
      → contribution spec G (insert j (record gs { values = values }) sets) g i
        ≡ contribution spec G sets g i
  unfolding contribution
  contribution-added sets rs gs j values g i (old o) m =
      rw (lookup-insert j g, lookup-insert j i)
        (ground (
          arith,
          eq_iff j g,
          eq_iff j i,
          o,
          not_part gs m,
          not_part (record gs { values = values }) m,
        ))
  contribution-added sets rs gs j values g i (new n f) m =
      let c : G.creates ≡ true = sym (G.fresh_exists rs) ∙ ap is_some f in
      rw (lookup-insert j g, lookup-insert j i)
        (ground (arith, c, eq_iff j g, eq_iff j i, n, not_part (record gs { values = values }) m))

  pub count-visit :
      (k g : ResourceKey) (sets sets' : Sets F)
      → times spec.resource_count_metric spec.resource_sum_metrics ≡ 0
      → Visited spec G k sets sets'
      → group_count spec G sets' g % 2 ^ 64
        ≡ (group_count spec G sets g + contribution spec G sets g k) % 2 ^ 64
  unfolding contribution
  count-visit k g sets sets' t (absent e r) = rw (r, e) (omega arith)
  count-visit k g sets sets' t (outside rs e p r) = rw (r, e, p) (omega arith)
  count-visit k g sets sets' t (ungrouped rs e p a r) = rw (r, e, p, a) (omega arith)
  count-visit k g sets sets' t (no_group rs j e p a n f r) =
      rw (r, e, p, a) (ground (arith, eq_iff j g, G.fresh_exists rs, n, f))
  count-visit k g sets sets' t (added rs gs j values e p a s h r) =
      let src = Source-of sets rs gs j s in
      rw (r, e, p, a, lookup-insert)
        (ground (
          arith,
          count-added sets rs gs j values t src h,
          eq_iff j g,
          Source-exists sets rs gs j src,
        ))

  -- every key keeps its contribution
  pub contribution-visit :
      (k g i : ResourceKey) (sets sets' : Sets F)
      → Apart spec G sets
      → Visited spec G k sets sets'
      → contribution spec G sets' g i ≡ contribution spec G sets g i
  contribution-visit k g i sets sets' apart (absent e r) = rw r refl
  contribution-visit k g i sets sets' apart (outside rs e p r) = rw r refl
  contribution-visit k g i sets sets' apart (ungrouped rs e p a r) = rw r refl
  contribution-visit k g i sets sets' apart (no_group rs j e p a n f r) = rw r refl
  contribution-visit k g i sets sets' apart (added rs gs j values e p a s h r) =
      let src = Source-of sets rs gs j s in
      rw r (contribution-added sets rs gs j values g i src (Source-member sets rs gs j apart a src))

  pub Apart-visit :
      (k : ResourceKey) (sets sets' : Sets F)
      → Apart spec G sets
      → Visited spec G k sets sets'
      → Apart spec G sets'
  Apart-visit k sets sets' apart (absent e r) = rw r apart
  Apart-visit k sets sets' apart (outside rs e p r) = rw r apart
  Apart-visit k sets sets' apart (ungrouped rs e p a r) = rw r apart
  Apart-visit k sets sets' apart (no_group rs j e p a n f r) = rw r apart
  Apart-visit k sets sets' apart (added rs gs j values e p a s h r) =
      let m = Source-member sets rs gs j apart a (Source-of sets rs gs j s) in
      rw r λ rs' gs' g t l. elim (Bool-cases (j == g)) [
        | inl q ↦
            let l' : some (record gs { values = values }) ≡ some gs' = rw (lookup-insert, q) at l in
            let x : record gs { values = values } ≡ gs' = cc in
            subst (λ y. G.member y.labels ≡ false) x m
        | inr q ↦ apart rs' gs' g t (rw (lookup-insert, q) at l)
      ]
