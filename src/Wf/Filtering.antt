-- ===== src/Wf/Filtering.antt =====
-- internal/wf/filter.go: a metric that the filter does not accept is dropped and counted; one that
-- it accepts loses the tags that do not match.
use wavefront_collector_for.Prelude.{
  ℕ, ◌+◌, List, [], ◌∷◌, ◌++◌, Option, none, some, if◌then◌else◌, ◌≡◌, arith, length, length-append,
}
use wavefront_collector_for.Filter.{GlobFilter, match_metric, match_tag}
use wavefront_collector_for.Wf.Metric.{Metric, name, tags, filter_tags}

module _ {F : Type 0} where
  -- Filter: the metric or nil, and by how much the counter of filtered points grows
  unfoldable pub filter : Option GlobFilter → Metric F → Option (Metric F) × ℕ
  filter none m = (some m, 0)
  filter (some f) m =
      if match_metric f (name m) (tags m)
      then (some (filter_tags m (match_tag f)), 0)
      else (none, 1)

  abbrev pub append_some : List (Metric F) → Option (Metric F) → List (Metric F)
  append_some points none = points
  append_some points (some m) = points ++ m ∷ []

  unfoldable pub filter_append :
      Option GlobFilter → List (Metric F) → Metric F → List (Metric F) × ℕ
  unfolding filter
  filter_append f points m =
      let (kept, filtered) = filter f m in (append_some points kept, filtered)

  -- Each metric is either appended or counted as filtered.
  pub filter_append-length :
      (f : Option GlobFilter) (points : List (Metric F)) (m : Metric F)
      → length (filter_append f points m).0 + (filter_append f points m).1 ≡ length points + 1
  unfolding filter_append
  filter_append-length none points m = ground (arith, length-append points (m ∷ []))
  filter_append-length (some f) points m =
      ground (arith, length-append points (filter_tags m (match_tag f) ∷ []))
