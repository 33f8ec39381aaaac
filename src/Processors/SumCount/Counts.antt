-- ===== src/Processors/SumCount/Counts.antt =====
-- The count of a group after the loop is the sum of what its members contribute, in whatever order
-- the batch is visited.
pub mod Shares
pub mod Order
use wavefront_collector_for.Prelude.{
  ℕ, zero, suc, ◌+◌, ◌%◌, ◌^◌, String, List, [], ◌∷◌, Option, none, some, Bool, true, false, not,
  ◌≡◌, refl, sym, ◌∙◌, ◌≢◌, ap, ◌==◌, ◌&&◌, ◌||◌, is_some, if◌then◌else◌,
}
use wavefront_collector_for.Prelude.Maps.{Map, lookup}
use wavefront_collector_for.Metrics.Types.{MetricSet, Sets, Value}
use wavefront_collector_for.Metrics.Keys.{ResourceKey}
use wavefront_collector_for.Processors.Aggregate.{source_count}
use wavefront_collector_for.Processors.Aggregate.Totals.{count_in}
use wavefront_collector_for.Processors.SumCount.{SumCountAggregateSpec}
use wavefront_collector_for.Processors.SumCount.Grouping.{Grouping}

abbrev pub aims_at : ResourceKey → Option ResourceKey → Bool
aims_at g none = false
aims_at g (some j) = j == g

module _ {F : Type 0} where
  abbrev pub value_at : String → Option (MetricSet F) → Option (Value F)
  value_at name none = none
  value_at name (some s) = lookup name s.values

module _ {F : Type 0} (spec : SumCountAggregateSpec F) (G : Grouping spec) where
  -- the count that the batch holds for the group g
  abbrev pub group_count : Sets F → ResourceKey → ℕ
  group_count sets g = count_in (value_at spec.resource_count_metric (lookup g sets))

  abbrev pub share : Bool → ResourceKey → Option (MetricSet F) → ℕ
  share present g none = 0
  share present g (some rs) =
      if spec.is_part_of_group rs && (aims_at g (G.target rs) && present)
      then source_count (lookup spec.resource_count_metric rs.values)
      else 0

  -- what the set under the key k adds to the count of the group g: the count that it holds, 1 if it
  -- holds none, and 0 if it is no member of g or the group can get no set
  unfoldable pub contribution : Sets F → ResourceKey → ResourceKey → ℕ
  contribution sets g k = share (G.creates || is_some (lookup g sets)) g (lookup k sets)

  unfoldable pub total : Sets F → ResourceKey → List ResourceKey → ℕ
  total sets g [] = 0
  total sets g (k ∷ order) = contribution sets g k + total sets g order

  -- no set under the key of a group passes the test for members
  abbrev pub Apart : Sets F → Type 0
  Apart sets =
      (rs gs : MetricSet F) (g : ResourceKey)
      → G.target rs ≡ some g
      → lookup g sets ≡ some gs
      → G.member gs.labels ≡ false
