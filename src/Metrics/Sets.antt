-- ===== src/Metrics/Sets.antt =====
-- internal/metrics/set.go: the labels of a metric and the number of points of a set.
use wavefront_collector_for.Prelude.{
  ℕ, ◌+◌, String, List, [], ◌∷◌, Bool, true, false, length, ◌==◌, is_some, if◌then◌else◌,
}
use wavefront_collector_for.Prelude.Maps.{Map, lookup, copy_into}
use wavefront_collector_for.Metrics.Types.{LabeledValue, MetricSet}

module _ {F : Type 0} where
  -- the loop over the labeled values, which stops at the first of that name
  unfoldable pub find_labeled : String → Map String → List (LabeledValue F) → Map String × Bool
  find_labeled name set_labels [] = ([], false)
  find_labeled name set_labels (l ∷ ls) =
      if l.name == name
      then (copy_into set_labels (copy_into l.labels []), true)
      else find_labeled name set_labels ls

  unfoldable pub find_labels : MetricSet F → String → Map String × Bool
  unfolding find_labeled
  find_labels s name =
      if is_some (lookup name s.values)
      then (s.labels, true)
      else find_labeled name s.labels s.labeled_values

  unfoldable pub set_points : MetricSet F → ℕ
  set_points s = length s.values + length s.labeled_values
