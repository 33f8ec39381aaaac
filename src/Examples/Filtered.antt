-- ===== src/Examples/Filtered.antt =====
-- The filters of metrics and events, tags and label tables at concrete inputs.
use wavefront_collector_for.Prelude.{ℕ, String, [], ◌∷◌, none, some, true, ◌≡◌, ◌↔◌, ◌==◌}
use wavefront_collector_for.Prelude.Maps.{Map}
use wavefront_collector_for.Float64.{nat}
use wavefront_collector_for.Filter.{GlobCompiler, GlobFilter, match_metric}
use wavefront_collector_for.Filter.Config.{Config}
use wavefront_collector_for.Filter.Matching.{Accepts, match_metric-Accepts}
use wavefront_collector_for.Wf.Point.{Point}
use wavefront_collector_for.Events.Selection.{EventFilter}

-- a pattern language without wildcards
abbrev literal : GlobCompiler
literal pattern = some (λ s. s == pattern)

abbrev config : Config
config = record {
  metric_allow_list = [];
  metric_deny_list = [];
  metric_tag_allow_list = [];
  metric_tag_deny_list = [];
  tag_include = [];
  tag_exclude = [];
  metric_whitelist = "cpu.usage" ∷ [];
  metric_blacklist = [];
  metric_tag_whitelist = [];
  metric_tag_blacklist = [];
}

abbrev only_cpu : GlobFilter
only_cpu = record {
  metric_allow_list = literal "cpu.usage";
  metric_deny_list = none;
  metric_tag_allow_list = none;
  metric_tag_deny_list = some (("env", λ s. s == "dev") ∷ []);
  tag_include = none;
  tag_exclude = none;
}

abbrev in_dev : Map String
in_dev = ("env", "dev") ∷ []

match_metric-Accepts_example :
    (match_metric only_cpu "cpu.usage" in_dev ≡ true) ↔ Accepts only_cpu "cpu.usage" in_dev
match_metric-Accepts_example = match_metric-Accepts only_cpu "cpu.usage" in_dev

abbrev cpu : Point ℕ
cpu = record {
  metric = "cpu.usage";
  value = 12;
  timestamp = 3;
  source = "node-1";
  tags = in_dev;
  label_pairs = ("app", "shop") ∷ [];
}

abbrev warnings : EventFilter
warnings = record {
  allow_list = ("type", λ s. s == "Warning") ∷ [];
  deny_list = ("reason", λ s. s == "BackOff") ∷ [];
  allow_list_sets = (("type", λ s. s == "Warning") ∷ []) ∷ [];
  deny_list_sets = [];
}

abbrev failed_mount : Map String
failed_mount = ("type", "Warning") ∷ ("reason", "FailedMount") ∷ []
