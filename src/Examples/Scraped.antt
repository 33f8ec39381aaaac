-- ===== src/Examples/Scraped.antt =====
-- Scrapes of Prometheus and of the kubelet at concrete inputs, over the natural numbers in place of
-- float64.
use wavefront_collector_for.Prelude.{
  ℕ, ◌+◌, String, List, [], ◌∷◌, map, Option, none, some, true, false, ◌≡◌, refl, arith, All,
  length, sum_of,
}
use wavefront_collector_for.Prelude.Maps.{Map, lookup, insert}
use wavefront_collector_for.Prelude.Result.{ok, err}
use wavefront_collector_for.Float64.{nat}
use wavefront_collector_for.Wf.Metric.{Metric}
use wavefront_collector_for.Wf.Filtering.{filter_append}
use wavefront_collector_for.Sources.Prometheus.{
  PromMetric, MetricFamily, PointBuilder, build, build_tags, other_type, histogram_type,
}
use wavefront_collector_for.Sources.Prometheus.Built.{family_points, total-build}
use wavefront_collector_for.Sources.Prometheus.Reader.{chunks}
use wavefront_collector_for.Sources.Prometheus.Reader.Chunks.{
  Block, IsBlock, lines_of, all_lines, written, chunks_lem,
}
use wavefront_collector_for.Sources.Prometheus.Scrape.{
  get_failed, Counters, count_error, batch_of, scrape,
}
use wavefront_collector_for.Sources.Prometheus.Scrape.Answered.{
  collected, built_from, scrape_outcome,
}

abbrev text : List String
text =
    "# TYPE up gauge" ∷ "up 1" ∷ "" ∷ "# HELP requests All requests" ∷ "# TYPE requests counter"
    ∷ "requests{code=200} 12" ∷ "requests{code=500} 3" ∷ []

-- two chunks, one for each family
two_chunks :
    chunks 7 text
    ≡ some (
        "# TYPE up gauge\nup 1\n\n"
        ∷ "# HELP requests All requests\n# TYPE requests counter\nrequests{code=200} 12\nrequests{code=500} 3\n"
        ∷ [])
unfolding chunks
two_chunks = refl

chunks_lem_example :
    (blocks : List Block) × (chunks 7 text ≡ some (map (λ b. written (lines_of b)) blocks))
    × (all_lines blocks ≡ text)
    × All IsBlock blocks
chunks_lem_example = chunks_lem 7 text (omega arith)

abbrev requests : PromMetric ℕ
requests = record {
  label = ("code", "200") ∷ ("pod", "") ∷ ("code", "500") ∷ [];
  gauge = none;
  counter = some 12;
  untyped = none;
  summary = record { quantiles = []; sample_count = 0; sample_sum = 0 };
  histogram = record { buckets = []; sample_count = 0; sample_sum = 0 };
}

abbrev latency : PromMetric ℕ
latency = record requests {
  counter = none;
  histogram = record {
    buckets =
        record { upper_bound = 1; cumulative_count = 3 }
        ∷ record { upper_bound = 5; cumulative_count = 4 }
        ∷ [];
    sample_count = 4;
    sample_sum = 9;
  };
}

abbrev builder : PointBuilder
builder = record {
  filters = none;
  source = "node-1";
  prefix = "prom.";
  omit_bucket_suffix = false;
  tags = ("pod", "api") ∷ ("zone", "") ∷ [];
}

abbrev families : Map (MetricFamily ℕ)
families =
    ("requests_total", record { type = other_type; metrics = requests ∷ [] })
    ∷ ("latency_seconds", record { type = histogram_type; metrics = latency ∷ [] })
    ∷ []

abbrev shown : ℕ → String
shown n = "n"

abbrev same : ℕ → ℕ
same n = n

-- one counter, one distribution, two buckets and two totals
six_metrics : length (build shown same builder true families 100 ([], 0)).0 ≡ 6
unfolding build filter_append
six_metrics = refl

total-build_example :
    length (build shown same builder true families 100 ([], 0)).0
      + (build shown same builder true families 100 ([], 0)).1
    ≡ 0 + 0 + sum_of (λ entry. family_points true entry.1) families
total-build_example = total-build shown same builder true families 100 ([], 0)

the_pod : lookup "pod" (build_tags builder requests) ≡ some "api"
unfolding build_tags lookup insert
the_pod = refl

abbrev parser : String → Map (MetricFamily ℕ) × Option String
parser chunk = (families, some "unexpected end of input")

abbrev idle : Counters
idle = record { collect_errors = 0; eps = 0; collected_points = 0; pps = 0; filtered_points = 0 }

abbrev scraped : List Block → List (Metric ℕ) × ℕ
scraped blocks = built_from shown same parser builder true (λ n. 100 + n) 0 blocks

scrape_outcome_example :
    (scrape shown same parser builder true 1 (λ n. 100 + n) (err "refused") idle
      ≡ some (err (get_failed "refused"), count_error idle))
    × ((blocks : List Block) × (all_lines blocks ≡ text)
        × All IsBlock blocks
        × (scrape shown same parser builder true 1
              (λ n. 100 + n)
              (ok (record { status_code = 200; body = text }))
              idle
            ≡ some (
              ok (batch_of 1 (scraped blocks).0),
              collected shown same parser builder true idle 1 (scraped blocks),
            )))
scrape_outcome_example =
    scrape_outcome shown same parser builder true 1 (λ n. 100 + n) idle "refused"
      (record { status_code = 200; body = text })
