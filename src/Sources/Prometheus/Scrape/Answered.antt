-- ===== src/Sources/Prometheus/Scrape/Answered.antt =====
-- What a scrape answers and counts.
use wavefront_collector_for.Prelude.{
  ℕ, suc, ◌+◌, String, List, [], ◌∷◌, ◌++◌, Option, some, none, sym, ◌∙◌, Bool, ◌≡◌, refl, map, All,
  length, arith, ap, Bool-cases, inl, inr, eqb, if◌then◌else◌,
}
use wavefront_collector_for.Prelude.Maps.{Map}
use wavefront_collector_for.Prelude.Result.{ok, err}
use wavefront_collector_for.Float64.{Float64}
use wavefront_collector_for.Wf.Metric.{batch_points}
use wavefront_collector_for.Sources.Prometheus.{MetricFamily, PointBuilder, Built, more, build}
use wavefront_collector_for.Sources.Prometheus.Appended.{nil-more, more-nil, more_assoc, build-more}
use wavefront_collector_for.Sources.Prometheus.Reader.Chunks.{
  Block, IsBlock, lines_of, all_lines, written, chunks_lem,
}
use wavefront_collector_for.Sources.Prometheus.Scrape.{
  get_failed, http_error, Response, Counters, count_error, add_chunks, parsed, batch_of, delivered,
  scrape,
}

module _ {F : Type 0} ⦃f : Float64 F⦄ (print : F → String) (of_uint64 : ℕ → F)
    (parse : String → Map (MetricFamily F) × Option String) (b : PointBuilder)
    (converts : Bool) where
  abbrev pub collected : Counters → ℕ → Built F → Counters
  collected c timestamp built =
      let n = batch_points (batch_of timestamp built.0) in
      record c {
        collected_points = c.collected_points + n;
        pps = c.pps + n;
        filtered_points = c.filtered_points + built.1;
      }

  -- the metrics of the families that the parser read in a block, whether it failed or not, and how many
  -- the filter dropped
  abbrev pub block_metrics : ℕ → Block → Built F
  block_metrics now block =
      build print of_uint64 b converts (parse (written (lines_of block))).0 now ([], 0)

  -- those of the blocks from the n-th, one after the other
  abbrev pub built_from : (ℕ → ℕ) → ℕ → List Block → Built F
  built_from clock n [] = ([], 0)
  built_from clock n (block ∷ blocks) = (
    (block_metrics (clock n) block).0 ++ (built_from clock (suc n) blocks).0,
    (block_metrics (clock n) block).1 + (built_from clock (suc n) blocks).1,
  )

  add_chunks-built_from :
      (clock : ℕ → ℕ) (blocks : List Block) (n : ℕ) (done : Built F)
      → add_chunks print of_uint64 parse b converts clock n
          (map (λ block. written (lines_of block)) blocks)
          done
        ≡ more done (built_from clock n blocks)
  unfolding add_chunks
  add_chunks-built_from clock [] n done = sym (more-nil done)
  add_chunks-built_from clock (block ∷ blocks) n done =
      let families = (parse (written (lines_of block))).0 in
      add_chunks-built_from clock blocks (suc n)
        (build print of_uint64 b converts families (clock n) done)
      ∙ ap (λ x. more x (built_from clock (suc n) blocks))
          (build-more print of_uint64 b converts (clock n) families done)
      ∙ more_assoc done (block_metrics (clock n) block) (built_from clock (suc n) blocks)

  -- A scrape fails exactly where the request does or its status is not 200, and counts one error then. Any
  -- other ends with a batch of the points of the blocks that make up the text, whatever errors the parser
  -- reports in any of them, and counts them as collected, and as filtered those that the filter dropped.
  pub scrape_outcome :
      (timestamp : ℕ) (clock : ℕ → ℕ) (c : Counters) (e : String) (resp : Response)
      → (scrape print of_uint64 parse b converts timestamp clock (err e) c
          ≡ some (err (get_failed e), count_error c))
        × ((blocks : List Block) × (all_lines blocks ≡ resp.body)
            × All IsBlock blocks
            × (scrape print of_uint64 parse b converts timestamp clock (ok resp) c
                ≡ some (
                    if eqb resp.status_code 200
                    then (
                      ok (batch_of timestamp (built_from clock 0 blocks).0),
                      collected c timestamp (built_from clock 0 blocks),
                    )
                    else (err (http_error resp.status_code), count_error c))))
  unfolding scrape
  scrape_outcome timestamp clock c e resp =
      let (blocks, cut, joined, all) = chunks_lem (length resp.body) resp.body (omega arith) in
      (
        refl,
        (
          blocks,
          joined,
          all,
          elim (Bool-cases (eqb resp.status_code 200)) [
            | inl t ↦ rw t (
                ap (λ o. delivered timestamp c (parsed print of_uint64 parse b converts clock o))
                  cut
                ∙ ap (λ built. delivered timestamp c (some (built, none)))
                    (add_chunks-built_from clock blocks 0 ([], 0)
                      ∙ nil-more (built_from clock 0 blocks)))
            | inr t ↦ rw t refl
          ],
        ),
      )
