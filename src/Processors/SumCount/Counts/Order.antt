-- ===== src/Processors/SumCount/Counts/Order.antt =====
-- The whole loop: the count of a group is the sum of the contributions, so the order in which the
-- batch is visited does not matter.
use mathlib.Core.List.{Perm, Permᴰ}
use mathlib.Core.Logic.{∥∥₁_elim}
use native.Mathlib.Nat.{ℕ_set}
use wavefront_collector_for.Prelude.{◌+◌, ◌%◌, ◌^◌, List, [], ◌∷◌, ◌≡◌, refl, ◌∙◌, ap, arith}
use wavefront_collector_for.Prelude.Result.{ok, ok-injective, >>=-eq-ok}
use wavefront_collector_for.Float64.{Float64}
use wavefront_collector_for.Metrics.Types.{Sets}
use wavefront_collector_for.Metrics.Keys.{ResourceKey}
use wavefront_collector_for.Processors.Aggregate.Totals.{times}
use wavefront_collector_for.Processors.SumCount.{SumCountAggregateSpec, visit, process_spec}
use wavefront_collector_for.Processors.SumCount.Grouping.{Grouping}
use wavefront_collector_for.Processors.SumCount.Visit.{Visited, visit-Visited}
use wavefront_collector_for.Processors.SumCount.Counts.{group_count, contribution, total, Apart}
use wavefront_collector_for.Processors.SumCount.Counts.Shares.{
  count-visit, contribution-visit, Apart-visit,
}

module _ {F : Type 0} ⦃fl : Float64 F⦄ (spec : SumCountAggregateSpec F) (G : Grouping spec) where
  total-visit :
      (k g : ResourceKey) (sets sets' : Sets F) (order : List ResourceKey)
      → Apart spec G sets
      → Visited spec G k sets sets'
      → total spec G sets' g order ≡ total spec G sets g order
  unfolding total
  total-visit k g sets sets' [] apart v = refl
  total-visit k g sets sets' (i ∷ order) apart v = omega (
    arith,
    contribution-visit spec G k g i sets sets' apart v,
    total-visit k g sets sets' order apart v,
  )

  -- After a loop that succeeds, the count of a group is, modulo 2 ^ 64, what the batch held for it
  -- before and the sum of what the visited sets contribute to it, if the count is not itself one of
  -- the summed metrics and no set under a group's key is a member.
  pub count-process_spec :
      (order : List ResourceKey) (g : ResourceKey) (sets sets' : Sets F)
      → times spec.resource_count_metric spec.resource_sum_metrics ≡ 0
      → Apart spec G sets
      → process_spec spec order sets ≡ ok sets'
      → group_count spec G sets' g % 2 ^ 64
        ≡ (group_count spec G sets g + total spec G sets g order) % 2 ^ 64
  unfolding process_spec total
  count-process_spec [] g sets sets' t apart h = rw (ok-injective sets sets' h) (omega arith)
  count-process_spec (k ∷ order) g sets sets' t apart h =
      let (mid, p, q) = >>=-eq-ok (visit spec k sets) (λ s. process_spec spec order s) h in
      let v = visit-Visited spec G k sets mid p in
      omega (
        arith,
        count-visit spec G k g sets mid t v,
        total-visit k g sets mid order apart v,
        count-process_spec order g mid sets' t (Apart-visit spec G k sets mid apart v) q,
      )

  total-Permᴰ :
      (sets : Sets F) (g : ResourceKey) {o p : List ResourceKey}
      → Permᴰ o p
      → total spec G sets g o ≡ total spec G sets g p
  unfolding total
  total-Permᴰ sets g Permᴰ.nil = refl
  total-Permᴰ sets g (Permᴰ.cons e d) =
      omega (arith, ap (contribution spec G sets g) e, total-Permᴰ sets g d)
  total-Permᴰ sets g (Permᴰ.swap e f) =
      omega (arith, ap (contribution spec G sets g) e, ap (contribution spec G sets g) f)
  total-Permᴰ sets g (Permᴰ.trans c d) = total-Permᴰ sets g c ∙ total-Permᴰ sets g d

  total-Perm :
      (sets : Sets F) (g : ResourceKey) (o p : List ResourceKey)
      → Perm o p
      → total spec G sets g o ≡ total spec G sets g p
  total-Perm sets g o p h = ∥∥₁_elim h (ℕ_set _ _) (λ d. total-Permᴰ sets g d)

  -- Two successful loops that visit the same keys in different orders leave the same count, modulo
  -- 2 ^ 64, in every group, if the count is not itself one of the summed metrics and no set under a
  -- group's key is a member.
  pub count-Perm :
      (o p : List ResourceKey) (g : ResourceKey) (sets a b : Sets F)
      → times spec.resource_count_metric spec.resource_sum_metrics ≡ 0
      → Apart spec G sets
      → Perm o p
      → process_spec spec o sets ≡ ok a
      → process_spec spec p sets ≡ ok b
      → group_count spec G a g % 2 ^ 64 ≡ group_count spec G b g % 2 ^ 64
  count-Perm o p g sets a b t apart perm x y = omega (
    arith,
    count-process_spec o g sets a t apart x,
    count-process_spec p g sets b t apart y,
    total-Perm sets g o p perm,
  )
