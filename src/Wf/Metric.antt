-- ===== src/Wf/Metric.antt =====
-- internal/wf/metric.go: a metric is a point or a distribution. A batch holds no nil metric.
use wavefront_collector_for.Prelude.{ℕ, ◌+◌, String, List, [], ◌∷◌, Bool}
use wavefront_collector_for.Prelude.Maps.{Map}
use wavefront_collector_for.Metrics.Types.{Sets}
use wavefront_collector_for.Metrics.Sets.{set_points}
use wavefront_collector_for.Wf.Point.{Point, tags_of}
use wavefront_collector_for.Wf.Point
use wavefront_collector_for.Wf.Distribution.{Distribution}
use wavefront_collector_for.Wf.Distribution

pub data Metric (F : Type 0) : Type 0 where
  point : Point F → Metric F
  distribution : Distribution F → Metric F

-- internal/metrics/batch.go
pub record Batch (F : Type 0) : Type 0 where
  pub timestamp : ℕ
  pub sets : Sets F
  pub metrics : List (Metric F)

module _ {F : Type 0} where
  unfoldable pub name : Metric F → String
  name (point p) = p.metric
  name (distribution d) = d.name

  unfoldable pub tags : Metric F → Map String
  unfolding tags_of
  tags (point p) = tags_of p
  tags (distribution d) = d.tags

  unfoldable pub filter_tags : Metric F → (String → Bool) → Metric F
  filter_tags (point p) pred = point (Point.filter_tags p pred)
  filter_tags (distribution d) pred = distribution (Distribution.filter_tags d pred)

  unfoldable pub override_tag : Metric F → String → String → Metric F
  override_tag (point p) k v = point (Point.override_tag p k v)
  override_tag (distribution d) k v = distribution (Distribution.override_tag d k v)

  unfoldable pub add_tags : Metric F → Map String → Metric F
  add_tags (point p) more = point (Point.add_tags p more)
  add_tags (distribution d) more = distribution (Distribution.add_tags d more)

  -- Points: a distribution counts as 7
  unfoldable pub points : Metric F → ℕ
  points (point p) = 1
  points (distribution d) = 7

  sum_sets : Sets F → ℕ
  sum_sets [] = 0
  sum_sets ((k, s) ∷ sets) = set_points s + sum_sets sets

  sum_metrics : List (Metric F) → ℕ
  sum_metrics [] = 0
  sum_metrics (m ∷ ms) = points m + sum_metrics ms

  unfoldable pub batch_points : Batch F → ℕ
  unfolding sum_sets sum_metrics points
  batch_points b = sum_sets b.sets + sum_metrics b.metrics
