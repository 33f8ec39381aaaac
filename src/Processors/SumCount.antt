-- ===== src/Processors/SumCount.antt =====
-- plugins/processors/sum_count_aggregator.go: counts and sums of the members of a group, over the
-- metric sets of a batch. A `*metrics.Set` stands in the batch under one key only, so writing the
-- group's set back under its key is what the code's writes through the pointer do.
pub mod Groups
pub mod Grouping
pub mod Visit
pub mod Counts
use wavefront_collector_for.Prelude.{
  String, List, [], ◌∷◌, Option, none, some, Bool, not, if◌then◌else◌,
}
use wavefront_collector_for.Prelude.Maps.{lookup, insert}
use wavefront_collector_for.Prelude.Result.{Result, ok, ◌>>=◌}
use wavefront_collector_for.Float64.{Float64}
use wavefront_collector_for.Metrics.Types.{MetricSet, Sets}
use wavefront_collector_for.Metrics.Keys.{ResourceKey}
use wavefront_collector_for.Processors.Aggregate.{AggregateError, aggregate, aggregate_count}

pub record SumCountAggregateSpec (F : Type 0) : Type 0 where
  pub resource_sum_metrics : List String
  pub resource_count_metric : String
  pub is_part_of_group : MetricSet F → Bool
  -- the key of the group, and its set unless that is nil
  pub group : Sets F → ResourceKey → MetricSet F → ResourceKey × Option (MetricSet F)

module _ {F : Type 0} ⦃fl : Float64 F⦄ (spec : SumCountAggregateSpec F) where
  unfoldable pub add_member :
      MetricSet F → ResourceKey × Option (MetricSet F) → Sets F → Result AggregateError (Sets F)
  add_member rs (group_key, none) sets = ok sets
  add_member rs (group_key, some group_set) sets =
      aggregate rs.values (aggregate_count rs.values group_set.values spec.resource_count_metric)
        spec.resource_sum_metrics
      >>= λ values. ok (insert group_key (record group_set { values = values }) sets)

  unfoldable pub visit_set :
      ResourceKey → Option (MetricSet F) → Sets F → Result AggregateError (Sets F)
  visit_set key none sets = ok sets
  visit_set key (some rs) sets =
      if not (spec.is_part_of_group rs)
      then ok sets
      else add_member rs (spec.group sets key rs) sets

  -- the body of the loop, for one key of the batch
  unfoldable pub visit : ResourceKey → Sets F → Result AggregateError (Sets F)
  visit key sets = visit_set key (lookup key sets) sets

  -- one `range` over the batch, which visits the keys in the order of the list
  unfoldable pub process_spec : List ResourceKey → Sets F → Result AggregateError (Sets F)
  process_spec [] sets = ok sets
  process_spec (key ∷ order) sets = visit key sets >>= λ sets'. process_spec order sets'

-- Process: each spec ranges over the batch anew, in an order of its own
unfoldable pub process :
    {F : Type 0} ⦃fl : Float64 F⦄
    → List (SumCountAggregateSpec F × List ResourceKey)
    → Sets F
    → Result AggregateError (Sets F)
process [] sets = ok sets
process ((spec, order) ∷ specs) sets = process_spec spec order sets >>= λ sets'. process specs sets'
