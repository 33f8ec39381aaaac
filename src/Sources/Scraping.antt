-- ===== src/Sources/Scraping.antt =====
-- scrape of plugins/sources/manager.go: one round over the sources of a provider. What a source
-- answers is a parameter; a duration is its nanoseconds, and one that is not positive is 0.
pub mod Answered
use wavefront_collector_for.Prelude.{
  ℕ, ◌+◌, List, [], ◌∷◌, ◌++◌, Bool, true, false, leb, ltb, if◌then◌else◌,
}
use wavefront_collector_for.Wf.Metric.{Batch}

-- what Scrape of a source gives, and how long it took
pub data Scraped (F : Type 0) : Type 0 where
  -- an error, of a source that was discovered or of one that was configured
  failed : Bool → Scraped F
  fetched : Batch F → ℕ → Scraped F

pub record ScrapeState (F : Type 0) : Type 0 where
  -- what was sent on the response channel
  pub channel : List (Batch F)
  pub scrape_errors : ℕ
  pub scrape_warnings : ℕ
  pub scrape_timeouts : ℕ
  pub scrape_latency : List ℕ

abbrev pub timeout_of : ℕ → ℕ
timeout_of timeout = if ltb 0 timeout then timeout else 60000000000

module _ {F : Type 0} where
  unfoldable pub scrape_failed : Bool → ScrapeState F → ScrapeState F
  scrape_failed true s = record s { scrape_warnings = s.scrape_warnings + 1 }
  scrape_failed false s = record s { scrape_errors = s.scrape_errors + 1 }

  unfoldable pub scrape_fetched : ℕ → Batch F → ℕ → ScrapeState F → ScrapeState F
  scrape_fetched timeout data_batch latency s = record s {
    channel = s.channel ++ data_batch ∷ [];
    scrape_latency = s.scrape_latency ++ latency ∷ [];
    scrape_timeouts =
        if leb (timeout_of timeout) latency then s.scrape_timeouts + 1 else s.scrape_timeouts;
  }

  -- the loop: an error ends it
  unfoldable pub scrape : ℕ → List (Scraped F) → ScrapeState F → ScrapeState F
  unfolding scrape_failed scrape_fetched
  scrape timeout [] s = s
  scrape timeout (failed auto_discovered ∷ sources) s = scrape_failed auto_discovered s
  scrape timeout (fetched data_batch latency ∷ sources) s =
      scrape timeout sources (scrape_fetched timeout data_batch latency s)
