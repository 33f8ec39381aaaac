-- ===== src/Metrics/Types.antt =====
-- internal/metrics/types.go, set.go and batch.go: metric values, metric sets and batches.
-- An int64 is kept as its 64 bits, a number below 2 ^ 64; a `time.Time` as the nanoseconds since the
-- zero time. `F` is the carrier of `float64`.
use wavefront_collector_for.Prelude.{
  ℕ, ◌+◌, ◌%◌, ◌^◌, String, List, Option, none, some, Bool, true, false, eqb,
}
use wavefront_collector_for.Prelude.Maps.{Map}
use wavefront_collector_for.Metrics.Labels.{LabelDescriptor}

-- the sum of two int64, which wraps round
abbrev pub add64 : ℕ → ℕ → ℕ
add64 a b = (a + b) % 2 ^ 64

pub data MetricType : Type 0 where
  cumulative gauge delta : MetricType

pub data MetricUnit : Type 0 where
  count bytes milliseconds nanoseconds millicores : MetricUnit

-- an int8; `value_other` is any value but the two named ones
pub data ValueType : Type 0 where
  value_int64 value_float : ValueType
  value_other : ℕ → ValueType

abbrev pub same_type : ValueType → ValueType → Bool
same_type value_int64 value_int64 = true
same_type value_float value_float = true
same_type (value_other a) (value_other b) = eqb a b
same_type _ _ = false

pub record MetricDescriptor : Type 0 where
  pub name : String
  pub description : String
  pub labels : List LabelDescriptor
  pub type : MetricType
  pub value_type : ValueType
  pub units : MetricUnit

pub record Value (F : Type 0) : Type 0 where
  pub int_value : ℕ
  pub float_value : F
  pub value_type : ValueType

pub record LabeledValue (F : Type 0) : Type 0 where
  pub name : String
  pub labels : Map String
  pub value : Value F

-- `metrics.Set`, named for what it holds
pub record MetricSet (F : Type 0) : Type 0 where
  pub collection_start_time : ℕ
  pub entity_create_time : ℕ
  pub scrape_time : ℕ
  pub values : Map (Value F)
  pub labels : Map String
  pub labeled_values : List (LabeledValue F)

abbrev pub Sets : Type 0 → Type 0
Sets F = Map (MetricSet F)

-- what GetValue returns: an int64, a float64 or nil
pub data Number (F : Type 0) : Type 0 where
  int64 : ℕ → Number F
  float64 : F → Number F

unfoldable pub get_value : {F : Type 0} → Value F → Option (Number F)
get_value {F} v = select v.value_type
  where
    select : ValueType → Option (Number F)
    select value_int64 = some (int64 v.int_value)
    select value_float = some (float64 v.float_value)
    select (value_other n) = none
