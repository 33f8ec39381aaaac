-- ===== src/Processors/Aggregate.antt =====
-- plugins/processors/helper.go: adding the values of one metric set to those of another.
pub mod Totals
-- The two sets are different objects in every call: a group is never one of its own members.
use wavefront_collector_for.Prelude.{
  ℕ, String, List, [], ◌∷◌, Option, none, some, if◌then◌else◌, not,
}
use wavefront_collector_for.Prelude.Maps.{Map, lookup, insert}
use wavefront_collector_for.Prelude.Result.{Result, ok, err, ◌>>=◌}
use wavefront_collector_for.Float64.{Float64}
use wavefront_collector_for.Metrics.Types.{
  Value, ValueType, value_int64, value_float, value_other, same_type, add64,
}

pub data AggregateError : Type 0 where
  -- "aggregator: type not supported in <name>"
  type_not_supported : String → AggregateError

-- `srcCount`
unfoldable pub source_count : {F : Type 0} → Option (Value F) → ℕ
source_count none = 1
source_count (some v) = v.int_value

module _ {F : Type 0} ⦃fl : Float64 F⦄ where
  -- the branches on `aggregatedValue.ValueType`
  unfoldable pub add_by_type :
      String → ValueType → Value F → Value F → Result AggregateError (Value F)
  add_by_type metric_name value_int64 a v =
      ok (record a { int_value = add64 a.int_value v.int_value })
  add_by_type metric_name value_float a v =
      ok (record a { float_value = fl.add a.float_value v.float_value })
  add_by_type metric_name (value_other n) a v = err (type_not_supported metric_name)

  unfoldable pub add_value : String → Value F → Value F → Result AggregateError (Value F)
  unfolding add_by_type
  add_value metric_name a v =
      if not (same_type a.value_type v.value_type)
      then err (type_not_supported metric_name)
      else add_by_type metric_name a.value_type a v

  -- the new `dst.Values[metricName]`
  unfoldable pub aggregated : String → Value F → Option (Value F) → Result AggregateError (Value F)
  unfolding add_value
  aggregated metric_name v none = ok v
  aggregated metric_name v (some a) = add_value metric_name a v

  -- one round of the loop
  unfoldable pub aggregate_one :
      String → Option (Value F) → Map (Value F) → Result AggregateError (Map (Value F))
  aggregate_one metric_name none dst = ok dst
  aggregate_one metric_name (some v) dst =
      aggregated metric_name v (lookup metric_name dst) >>= λ a. ok (insert metric_name a dst)

  unfoldable pub aggregate :
      Map (Value F) → Map (Value F) → List String → Result AggregateError (Map (Value F))
  aggregate src dst [] = ok dst
  aggregate src dst (metric_name ∷ metrics_to_aggregate) =
      aggregate_one metric_name (lookup metric_name src) dst >>= λ dst'.
      aggregate src dst' metrics_to_aggregate

  unfoldable pub counted : ℕ → Option (Value F) → Value F
  counted n none = record { int_value = n; float_value = fl.zero; value_type = value_int64 }
  counted n (some v) = record v { int_value = add64 v.int_value n }

  unfoldable pub aggregate_count : Map (Value F) → Map (Value F) → String → Map (Value F)
  unfolding counted
  aggregate_count src dst metric_name =
      insert metric_name (counted (source_count (lookup metric_name src)) (lookup metric_name dst))
        dst
