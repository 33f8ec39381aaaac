-- ===== src/Sources/Scraping/Answered.antt =====
-- What a round sends and counts.
use wavefront_collector_for.Prelude.{
  ℕ, ◌+◌, ◌≤◌, List, [], ◌∷◌, ◌++◌, Option, none, some, Bool, true, false, ◌≡◌, sym, ◌∙◌,
  append-nil, append_assoc, length, arith,
}
use wavefront_collector_for.Wf.Metric.{Batch}
use wavefront_collector_for.Sources.Scraping.{
  Scraped, failed, fetched, ScrapeState, scrape_failed, scrape_fetched, scrape,
}

abbrev pub warned : Option Bool → ℕ
warned none = 0
warned (some true) = 1
warned (some false) = 0

abbrev pub erred : Option Bool → ℕ
erred none = 0
erred (some true) = 0
erred (some false) = 1

module _ {F : Type 0} where
  -- the batches before the first error
  unfoldable pub answered : List (Scraped F) → List (Batch F)
  answered [] = []
  answered (failed b ∷ sources) = []
  answered (fetched data_batch latency ∷ sources) = data_batch ∷ answered sources

  -- whether there is an error, and whether its source was discovered
  unfoldable pub first_failure : List (Scraped F) → Option Bool
  first_failure [] = none
  first_failure (failed b ∷ sources) = some b
  first_failure (fetched data_batch latency ∷ sources) = first_failure sources

  channel-scrape :
      (timeout : ℕ) (sources : List (Scraped F)) (s : ScrapeState F)
      → (scrape timeout sources s).channel ≡ s.channel ++ answered sources
  unfolding scrape scrape_failed scrape_fetched answered
  channel-scrape timeout [] s = sym (append-nil s.channel)
  channel-scrape timeout (failed true ∷ sources) s = sym (append-nil s.channel)
  channel-scrape timeout (failed false ∷ sources) s = sym (append-nil s.channel)
  channel-scrape timeout (fetched b latency ∷ sources) s =
      channel-scrape timeout sources (scrape_fetched timeout b latency s)
      ∙ append_assoc s.channel (b ∷ []) (answered sources)

  counts-scrape :
      (timeout : ℕ) (sources : List (Scraped F)) (s : ScrapeState F)
      → let t = scrape timeout sources s in
        (t.scrape_warnings ≡ s.scrape_warnings + warned (first_failure sources))
        × (t.scrape_errors ≡ s.scrape_errors + erred (first_failure sources))
        × (t.scrape_timeouts ≤ s.scrape_timeouts + length (answered sources))
  unfolding scrape scrape_failed scrape_fetched answered first_failure
  counts-scrape timeout [] s = (omega arith, omega arith, omega arith)
  counts-scrape timeout (failed true ∷ sources) s = (omega arith, omega arith, omega arith)
  counts-scrape timeout (failed false ∷ sources) s = (omega arith, omega arith, omega arith)
  counts-scrape timeout (fetched b latency ∷ sources) s =
      let (w, e, t) = counts-scrape timeout sources (scrape_fetched timeout b latency s) in
      (w, e, ground (arith, t))

  -- A round sends the batches of the sources before the first that fails, in their order, and counts
  -- that failure once, as a warning if the source was discovered and as an error if not; it counts at
  -- most as many timeouts as it sends batches.
  pub scrape_lem :
      (timeout : ℕ) (sources : List (Scraped F)) (s : ScrapeState F)
      → let t = scrape timeout sources s in
        (t.channel ≡ s.channel ++ answered sources)
        × (t.scrape_warnings ≡ s.scrape_warnings + warned (first_failure sources))
        × (t.scrape_errors ≡ s.scrape_errors + erred (first_failure sources))
        × (t.scrape_timeouts ≤ s.scrape_timeouts + length (answered sources))
  scrape_lem timeout sources s =
      let (w, e, t) = counts-scrape timeout sources s in (channel-scrape timeout sources s, w, e, t)
