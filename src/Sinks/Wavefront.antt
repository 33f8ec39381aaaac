-- ===== src/Sinks/Wavefront.antt =====
-- plugins/sinks/wavefront/wavefront.go: Export, SendMetric and SendDistribution. The client of the
-- Wavefront SDK is a parameter: a state, and for each call the state after it and whether it failed.
-- The counters of the metrics registry are kept in the state of the export.
pub mod Account
pub mod Tags
use Prim.Native.Char.{Char, code}
use Prim.Native.String.{◌++◌, len}
use wavefront_collector_for.Prelude.{
  ℕ, ◌+◌, String, List, [], ◌∷◌, Option, none, some, Bool, true, false, ltb, eqb, is_empty,
  if◌then◌else◌,
}
use wavefront_collector_for.Prelude.Text.{replace}
use wavefront_collector_for.Prelude.Maps.{Map}
use wavefront_collector_for.Float64.{Float64}
use wavefront_collector_for.Metrics.Labels.{label_cluster}
use wavefront_collector_for.Filter.{GlobFilter}
use wavefront_collector_for.Wf.Point.{tags_of}
use wavefront_collector_for.Wf.Distribution.{SentCentroid, sendable_centroids}
use wavefront_collector_for.Wf.Metric.{Metric, override_tag, add_tags}
use wavefront_collector_for.Wf.Filtering.{filter}
use wavefront_collector_for.Sinks.TagCleaning.{clean_tags, max_wavefront_tags}

pub record WavefrontSink : Type 0 where
  pub cluster_name : String
  pub prefix : String
  pub global_tags : Map String
  pub filters : Option GlobFilter

-- a call of the client
pub data Call (F : Type 0) : Type 0 where
  metric : String → F → ℕ → String → Map String → Call F
  distribution : String → List (SentCentroid F) → ℕ → String → Map String → Call F

minus : Char
minus = "-"

-- sanitizedChars.Replace: "+" becomes "-"
unfoldable pub sanitize : String → String
unfolding minus replace
sanitize = replace b'+' minus

unfoldable pub sent_name : WavefrontSink → String → String
unfolding sanitize
sent_name sink name =
    if ltb 0 (len sink.prefix) then sink.prefix ++ "." ++ sanitize name else sanitize name

pub record ExportState (C : Type 0) : Type 0 where
  pub client : C
  pub sent_points : ℕ
  pub err_points : ℕ
  pub filtered_points : ℕ

-- the tags that Export adds
unfoldable pub enrich : {F : Type 0} → WavefrontSink → Metric F → Metric F
enrich sink m = add_tags (override_tag m label_cluster.key sink.cluster_name) sink.global_tags

module _ {F : Type 0} ⦃fl : Float64 F⦄ {C : Type 0} (call : C → Call F → C × Bool)
    (sink : WavefrontSink) where
  -- Send: the client after it, and whether it returned an error
  unfoldable pub send : Metric F → C → C × Bool
  send (Metric.point p) client = call client (
      metric (sent_name sink p.metric) p.value p.timestamp p.source
        (clean_tags (tags_of p) max_wavefront_tags).tags)
  send (Metric.distribution d) client =
      let centroids = sendable_centroids d.centroids in
      let result = call client (
        distribution (sent_name sink d.name) centroids d.timestamp d.source
          (clean_tags d.tags max_wavefront_tags).tags) in
      if d.cumulative
      then (client, true)
      else if is_empty centroids
      then (client, false)
      else result

  abbrev count_sent : C × Bool → ExportState C → ExportState C
  count_sent (client, true) s = record s { client = client; err_points = s.err_points + 1 }
  count_sent (client, false) s = record s { client = client; sent_points = s.sent_points + 1 }

  abbrev send_kept : Option (Metric F) × ℕ → ExportState C → ExportState C
  send_kept (none, filtered) s = record s { filtered_points = s.filtered_points + filtered }
  send_kept (some m, filtered) s =
      count_sent (send m s.client) (record s { filtered_points = s.filtered_points + filtered })

  -- the body of the loop of Export
  unfoldable pub export_one : Metric F → ExportState C → ExportState C
  export_one m s = send_kept (filter sink.filters (enrich sink m)) s

  unfoldable pub export : List (Metric F) → ExportState C → ExportState C
  export [] s = s
  export (m ∷ points) s = export points (export_one m s)
