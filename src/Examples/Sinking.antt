-- ===== src/Examples/Sinking.antt =====
-- Tag cleaning, the export to Wavefront and a whole flush at concrete inputs.
use wavefront_collector_for.Prelude.{
  ℕ, ◌+◌, String, List, [], ◌∷◌, none, some, Bool, true, false, ◌≡◌, ◌⊎◌, refl, length, keep, arith,
}
use wavefront_collector_for.Prelude.Maps.{Map, lookup, keys, delete}
use wavefront_collector_for.Prelude.Sort.{sort_strings}
use wavefront_collector_for.Prelude.Result.{ok}
use wavefront_collector_for.Float64.{nat}
use wavefront_collector_for.Wf.Point.{Point}
use wavefront_collector_for.Wf.Metric.{Metric, Batch}
use wavefront_collector_for.Sinks.Patterns.{alpha_beta_regex, iaas_name_regex}
use wavefront_collector_for.Sinks.TagCleaning.{
  Cleaned, is_an_empty_tag, exclude_tag, clean_tags, remove_always, remove_labels,
  remove_tags_labels_matching, remove_matching_loop, remove_duplicates, exclude_tags, remove_where,
  remove_empty_tags,
}
use wavefront_collector_for.Sinks.TagCleaning.Kept.{clean_tags_sound}
use wavefront_collector_for.Sinks.TagCleaning.OverCapacity.{remove_labels-excess}
use wavefront_collector_for.Sinks.Wavefront.{WavefrontSink, Call, ExportState, export}
use wavefront_collector_for.Sinks.Wavefront.Account.{accounted, accounted-export}
use wavefront_collector_for.Flush.{Processor, combine_all, empty_batch, push}
use wavefront_collector_for.Flush.Combined.{all_metrics, last_set, combine_all_lem}
use wavefront_collector_for.Flush.Exported.{Chain, Broken, combined, push_lem}

abbrev raw_tags : Map String
raw_tags = ("pod_id", "7f3a") ∷ ("nodename", "node-1") ∷ ("image", "") ∷ []

clean_tags_sound_example :
    (lookup "nodename" raw_tags ≡ some "node-1")
    × (is_an_empty_tag "node-1" ≡ false)
    × (exclude_tag "nodename" ≡ false)
unfolding lookup clean_tags remove_labels remove_duplicates remove_always exclude_tags remove_where
    remove_empty_tags is_an_empty_tag exclude_tag
clean_tags_sound_example =
    clean_tags_sound raw_tags 19 "nodename" "node-1" (refl, (refl, (refl, tt))) refl

abbrev label_tags : Map String
label_tags = ("label.alpha", "one") ∷ ("label.gke", "two") ∷ ("name", "three") ∷ []

abbrev labelled : Cleaned
labelled = record {
  tags = label_tags;
  empty = [];
  excluded = [];
  duplicates = [];
  alpha_beta = [];
  iaas = [];
}

remove_labels-excess_example : length (remove_labels 2 labelled).iaas ≡ 1
unfolding remove_tags_labels_matching remove_matching_loop sort_strings keys alpha_beta_regex delete
    keep iaas_name_regex
remove_labels-excess_example =
    remove_labels-excess 2 labelled (omega arith) (omega arith) (omega arith)

abbrev sink : WavefrontSink
sink = record {
  cluster_name = "k8s";
  prefix = "kubernetes";
  global_tags = ("env", "prod") ∷ [];
  filters = none;
}

abbrev cpu : Point ℕ
cpu = record {
  metric = "cpu.usage";
  value = 12;
  timestamp = 3;
  source = "node-1";
  tags = ("pod", "a") ∷ [];
  label_pairs = [];
}

-- a client that counts its calls and fails each of them
abbrev failing : ℕ → Call ℕ → ℕ × Bool
failing client c = (client + 1, true)

abbrev before : ExportState ℕ
before = record { client = 0; sent_points = 0; err_points = 0; filtered_points = 0 }

accounted-export_example :
    accounted (export failing sink (Metric.point cpu ∷ Metric.point cpu ∷ []) before) ≡ 0 + 2
accounted-export_example =
    accounted-export failing sink (Metric.point cpu ∷ Metric.point cpu ∷ []) before

abbrev scraped : Batch ℕ
scraped = record { timestamp = 5; sets = []; metrics = Metric.point cpu ∷ [] }

combine_all_lem_example :
    ((combine_all (scraped ∷ scraped ∷ []) empty_batch).metrics
      ≡ Metric.point cpu ∷ Metric.point cpu ∷ [])
    × (lookup "cluster" (combine_all (scraped ∷ scraped ∷ []) empty_batch).sets ≡ none)
unfolding lookup all_metrics last_set
combine_all_lem_example = combine_all_lem "cluster" (scraped ∷ scraped ∷ []) (tt, (tt, tt))

abbrev unchanged : Processor String ℕ
unchanged b = ok b

abbrev collect : Batch ℕ → List (Batch ℕ) → List (Batch ℕ)
collect b exported = b ∷ exported

push_lem_example :
    ((d : Batch ℕ) × Chain (unchanged ∷ []) (combined (scraped ∷ [])) d
      × (push (unchanged ∷ []) collect (scraped ∷ []) [] ≡ ([], d ∷ [])))
    ⊎ (Broken (unchanged ∷ []) (combined (scraped ∷ []))
        × (push (unchanged ∷ []) collect (scraped ∷ []) [] ≡ ([], [])))
push_lem_example = push_lem (unchanged ∷ []) collect (scraped ∷ []) []
