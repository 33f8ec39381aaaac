-- ===== src/Examples/Sourced.antt =====
-- Providers and timers at concrete inputs.
use wavefront_collector_for.Prelude.{true, ℕ, ◌+◌, ◌%◌, ◌≤◌, [], ◌∷◌, ◌≡◌, refl, arith}
use wavefront_collector_for.Prelude.Maps.{lookup}
use wavefront_collector_for.Float64.{nat}
use wavefront_collector_for.Wf.Metric.{Batch}
use wavefront_collector_for.Sources.Scraping.{fetched, failed, ScrapeState, scrape}
use wavefront_collector_for.Sources.Scraping.Answered.{answered, first_failure, scrape_lem}
use wavefront_collector_for.Sources.Timer.{scale_interval, wait_to_next_interval}
use wavefront_collector_for.Sources.Timer.Ticks.{wait-Ticks}
use wavefront_collector_for.Sources.Providers.{
  SourceProvider, SourceManager, added, deleted, handle,
}
use wavefront_collector_for.Sources.Providers.Aligned.{AlignedAt, AlignedAt-handle}

-- the least factor over the natural numbers is 1: the wait is then at least a whole interval
wait-Ticks_example :
    (scale_interval {F = ℕ} 60 1 ≤ wait_to_next_interval {F = ℕ} 1 60 70)
    × (wait_to_next_interval {F = ℕ} 1 60 70 ≤ 60 + scale_interval {F = ℕ} 60 1)
    × ((70 + wait_to_next_interval {F = ℕ} 1 60 70) % 60 ≡ 0)
unfolding scale_interval
wait-Ticks_example = wait-Ticks 1 60 70 (omega arith) (omega arith)

abbrev kubelet : SourceProvider
kubelet = record { name = "summary"; collection_interval = 0; timeout = 30 }

abbrev manager : SourceManager
manager = record {
  default_collection_interval = 60;
  metrics_source_providers = ("summary", kubelet) ∷ [];
  metrics_source_timers = ("summary", 60) ∷ [];
  metrics_source_quits = ("summary", 0) ∷ [];
  next_quit = 1;
  closed = [];
  cleaned_up = [];
  provider_count = 1;
}

AlignedAt-handle_example :
    AlignedAt "summary" (handle (added kubelet ∷ deleted "summary" ∷ []) manager)
unfolding lookup
AlignedAt-handle_example =
    AlignedAt-handle "summary" (added kubelet ∷ deleted "summary" ∷ []) manager (refl, refl)

abbrev scraped : Batch ℕ
scraped = record { timestamp = 5; sets = []; metrics = [] }

abbrev idle : ScrapeState ℕ
idle = record {
  channel = [];
  scrape_errors = 0;
  scrape_warnings = 0;
  scrape_timeouts = 0;
  scrape_latency = [];
}

scrape_lem_example :
    let t = scrape 30 (fetched scraped 45 ∷ failed true ∷ fetched scraped 1 ∷ []) idle in
    (t.channel ≡ scraped ∷ [])
    × (t.scrape_warnings ≡ 1)
    × (t.scrape_errors ≡ 0)
    × (t.scrape_timeouts ≤ 1)
unfolding answered first_failure
scrape_lem_example = scrape_lem 30 (fetched scraped 45 ∷ failed true ∷ fetched scraped 1 ∷ []) idle
