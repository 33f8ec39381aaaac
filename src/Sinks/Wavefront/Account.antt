-- ===== src/Sinks/Wavefront/Account.antt =====
-- Every metric of a batch is counted once: as sent, as failed, or as filtered.
use wavefront_collector_for.Prelude.{ℕ, suc, ◌+◌, List, [], ◌∷◌, Bool, ◌≡◌, length, arith}
use wavefront_collector_for.Float64.{Float64}
use wavefront_collector_for.Wf.Metric.{Metric}
use wavefront_collector_for.Wf.Filtering.{filter}
use wavefront_collector_for.Sinks.Wavefront.{WavefrontSink, Call, ExportState, export_one, export}

abbrev pub accounted : {C : Type 0} → ExportState C → ℕ
accounted s = s.sent_points + s.err_points + s.filtered_points

module _ {F : Type 0} ⦃fl : Float64 F⦄ {C : Type 0} (call : C → Call F → C × Bool)
    (sink : WavefrontSink) where
  accounted-export_one :
      (m : Metric F) (s : ExportState C) → accounted (export_one call sink m s) ≡ suc (accounted s)
  unfolding export_one filter
  accounted-export_one m s = ground arith

  -- Exporting a batch adds to the three counters, together, as many as the batch has metrics.
  pub accounted-export :
      (ms : List (Metric F)) (s : ExportState C)
      → accounted (export call sink ms s) ≡ accounted s + length ms
  unfolding export
  accounted-export [] s = omega arith
  accounted-export (m ∷ ms) s =
      omega (arith, accounted-export_one m s, accounted-export ms (export_one call sink m s))
