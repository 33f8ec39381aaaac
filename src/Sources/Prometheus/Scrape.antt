-- ===== src/Sources/Prometheus/Scrape.antt =====
-- Scrape and parseMetrics of plugins/sources/prometheus/prometheus.go. `parse` is the text parser of the
-- client library: the families that it read, and an error, with which it may have read some. The `err`
-- that the loop assigns is a variable of the loop's own, so the one that is returned stays nil.
pub mod Answered
use wavefront_collector_for.Prelude.{
  ℕ, suc, ◌+◌, String, List, [], ◌∷◌, Option, none, some, Bool, true, false, not, eqb, length,
  if◌then◌else◌,
}
use wavefront_collector_for.Prelude.Maps.{Map}
use wavefront_collector_for.Prelude.Result.{Result, ok, err}
use wavefront_collector_for.Float64.{Float64}
use wavefront_collector_for.Wf.Metric.{Metric, Batch, batch_points}
use wavefront_collector_for.Sources.Prometheus.{MetricFamily, PointBuilder, Built, build}
use wavefront_collector_for.Sources.Prometheus.Reader.{chunks}

pub data ScrapeError : Type 0 where
  get_failed : String → ScrapeError
  http_error : ℕ → ScrapeError
  parse_failed : String → ScrapeError

-- the status and the lines of the body
pub record Response : Type 0 where
  pub status_code : ℕ
  pub body : List String

pub record Counters : Type 0 where
  pub collect_errors : ℕ
  pub eps : ℕ
  pub collected_points : ℕ
  pub pps : ℕ
  pub filtered_points : ℕ

abbrev pub count_error : Counters → Counters
count_error c = record c { collect_errors = c.collect_errors + 1; eps = c.eps + 1 }

module _ {F : Type 0} where
  abbrev pub batch_of : ℕ → List (Metric F) → Batch F
  batch_of timestamp metrics = record { timestamp = timestamp; sets = []; metrics = metrics }

  abbrev pub delivered :
      ℕ
      → Counters
      → Option (Built F × Option String)
      → Option (Result ScrapeError (Batch F) × Counters)
  delivered timestamp c none = none
  delivered timestamp c (some (built, some e)) = some (
    err (parse_failed e),
    count_error (record c { filtered_points = c.filtered_points + built.1 }),
  )
  delivered timestamp c (some (built, none)) =
      let n = batch_points (batch_of timestamp built.0) in
      some (
        ok (batch_of timestamp built.0),
        record c {
          collected_points = c.collected_points + n;
          pps = c.pps + n;
          filtered_points = c.filtered_points + built.1;
        },
      )

module _ {F : Type 0} ⦃f : Float64 F⦄ (print : F → String) (of_uint64 : ℕ → F)
    (parse : String → Map (MetricFamily F) × Option String) (b : PointBuilder)
    (converts : Bool) where
  -- from the n-th chunk; `clock n` is the second at which its points are built
  unfoldable pub add_chunks : (ℕ → ℕ) → ℕ → List String → Built F → Built F
  add_chunks clock n [] done = done
  add_chunks clock n (chunk ∷ more) done =
      add_chunks clock (suc n) more
        (build print of_uint64 b converts (parse chunk).0 (clock n) done)

  abbrev pub parsed : (ℕ → ℕ) → Option (List String) → Option (Built F × Option String)
  parsed clock none = none
  parsed clock (some texts) = some (add_chunks clock 0 texts ([], 0), none)

  -- the points with what the filter dropped, and the error; `none` where the fuel runs out
  unfoldable pub parse_metrics : (ℕ → ℕ) → List String → Option (Built F × Option String)
  unfolding chunks add_chunks
  parse_metrics clock lines = parsed clock (chunks (length lines) lines)

  abbrev pub checked :
      ℕ → (ℕ → ℕ) → Response → Counters → Option (Result ScrapeError (Batch F) × Counters)
  checked timestamp clock resp c =
      if not (eqb resp.status_code 200)
      then some (err (http_error resp.status_code), count_error c)
      else delivered timestamp c (parse_metrics clock resp.body)

  unfoldable pub scrape :
      ℕ
      → (ℕ → ℕ)
      → Result String Response
      → Counters
      → Option (Result ScrapeError (Batch F) × Counters)
  unfolding parse_metrics
  scrape timestamp clock (err e) c = some (err (get_failed e), count_error c)
  scrape timestamp clock (ok resp) c = checked timestamp clock resp c
