-- ===== src/Examples/Histograms.antt =====
-- Distributions at concrete inputs.
use wavefront_collector_for.Prelude.{ℕ, ◌^◌, String, List, [], ◌∷◌, true, ◌≡◌, refl, is_some}
use wavefront_collector_for.Float64.{nat}
use wavefront_collector_for.Wf.Point.{Point}
use wavefront_collector_for.Wf.Distribution.{Centroid, Distribution}
use wavefront_collector_for.Wf.Distribution.Smooth.{to_frequency}
use wavefront_collector_for.Wf.Distribution.Smooth.Bounds.{to_frequency-is_some}
use wavefront_collector_for.Wf.Metric.{Metric}

abbrev low : Centroid ℕ
low = record { value = 1; count = 4 }

abbrev high : Centroid ℕ
high = record { value = 2 ^ 70; count = 9 }

abbrev latency : Distribution ℕ
latency = record {
  cumulative = true;
  name = "latency";
  tags = [];
  source = "pod-a";
  centroids = low ∷ high ∷ [];
  timestamp = 0;
}

to_frequency-is_some_example : is_some (to_frequency latency) ≡ true
to_frequency-is_some_example = to_frequency-is_some latency low (high ∷ []) refl refl

abbrev no_hash : String → String
no_hash text = text

abbrev up : Point ℕ
up = record {
  metric = "up";
  value = 1;
  timestamp = 0;
  source = "pod-a";
  tags = [];
  label_pairs = [];
}

abbrev batch : List (Metric ℕ)
batch = Metric.distribution latency ∷ Metric.point up ∷ Metric.distribution latency ∷ []
