-- ===== src/Processors/Distributions.antt =====
-- plugins/processors/distribution_rate_calculator.go and cumulative_distribution_converter.go: the
-- distributions of a batch as their change since the batch before, and as frequencies. The hash of a
-- distribution is a parameter, `sum256`.
pub mod Series
pub mod Passed
use mathlib.Core.Option
use wavefront_collector_for.Prelude.{
  ℕ, ◌+◌, String, List, [], ◌∷◌, Option, none, some, Bool, is_some, and_then, if◌then◌else◌,
}
use wavefront_collector_for.Prelude.Maps.{Map, lookup, insert}
use wavefront_collector_for.Float64.{Float64}
use wavefront_collector_for.Wf.Distribution.{Distribution, clone, key}
use wavefront_collector_for.Wf.Distribution.Smooth.{to_frequency}
use wavefront_collector_for.Wf.Distribution.Rate.{rate}
use wavefront_collector_for.Wf.Metric.{Metric}

-- the state of a DistributionRateCalculator in the middle of a batch: the distributions of the last
-- batch by their keys, the keys seen in this one, and the counter of duplicates by name
pub record Calculation (F : Type 0) : Type 0 where
  pub prev_distributions : Map (Distribution F)
  pub seen : Map Bool
  pub duplicates : Map ℕ

abbrev plus_one : Option ℕ → ℕ
plus_one none = 1
plus_one (some n) = n + 1

abbrev pub append_result :
    {F : Type 0} → Option (Distribution F) → List (Metric F) → List (Metric F)
append_result none rest = rest
append_result (some d) rest = Metric.distribution d ∷ rest

module _ {F : Type 0} ⦃fl : Float64 F⦄ (sum256 : String → String) where
  -- the function that filterMapInPlace applies, for a distribution
  unfoldable pub calculate :
      Distribution F → Calculation F → Option (Distribution F) × Calculation F
  calculate d s =
      let k = key sum256 d in
      if is_some (lookup k s.seen)
      then (
        none,
        record s {
          duplicates = insert d.name (plus_one (lookup d.name s.duplicates)) s.duplicates;
        },
      )
      else (
        rate sum256 d (lookup k s.prev_distributions),
        record s {
          prev_distributions = insert k (clone d) s.prev_distributions;
          seen = insert k Bool.true s.seen;
        },
      )

  -- filterMapInPlace
  unfoldable pub calculate_all : List (Metric F) → Calculation F → List (Metric F) × Calculation F
  unfolding calculate
  calculate_all [] s = ([], s)
  calculate_all (Metric.point p ∷ ms) s =
      let (rest, t) = calculate_all ms s in (Metric.point p ∷ rest, t)
  calculate_all (Metric.distribution d ∷ ms) s =
      let (result, t) = calculate d s in
      let (rest, u) = calculate_all ms t in (append_result result rest, u)

-- CumulativeDistributionConverter.Process with mapInPlace; `none` is a panic of ToFrequency
abbrev pub convert : {F : Type 0} ⦃fl : Float64 F⦄ → Metric F → Option (Metric F)
convert (Metric.point p) = some (Metric.point p)
convert (Metric.distribution d) = Option.map Metric.distribution (to_frequency d)

unfoldable pub convert_all :
    {F : Type 0} ⦃fl : Float64 F⦄ → List (Metric F) → Option (List (Metric F))
unfolding and_then
convert_all [] = some []
convert_all (m ∷ ms) = and_then (convert m) (λ m'. Option.map (λ rest. m' ∷ rest) (convert_all ms))
