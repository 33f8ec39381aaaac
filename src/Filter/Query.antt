-- ===== src/Filter/Query.antt =====
-- FromQuery, parseFilters and parseValue of internal/filter/util.go: the filters of the deprecated
-- command line flags, each of the form "tag:[glob1,glob2]".
use Prim.Native.Char.{code}
use wavefront_collector_for.Prelude.{
  ℕ, String, List, [], ◌∷◌, Option, none, some, eqb, or_else, if◌then◌else◌, ◌≡◌, refl,
}
use wavefront_collector_for.Prelude.Text.{split}
use wavefront_collector_for.Prelude.Maps.{Map, lookup, insert}
use wavefront_collector_for.Filter.Config.{Config}

-- the text without its last character, if that is the given one
unfoldable pub strip_last : ℕ → String → Option String
strip_last e String.[] = none
strip_last e (String.◌∷◌ c String.[]) = if eqb (code c) e then some "" else none
strip_last e (String.◌∷◌ c (String.◌∷◌ d s)) = elim (strip_last e (String.◌∷◌ d s)) [
  | none ↦ none
  | some t ↦ some (String.◌∷◌ c t)
]

-- parseValue: the patterns between "[" and "]"; `none` is the error
unfoldable pub parse_value : String → Option (List String)
unfolding split strip_last
parse_value String.[] = none
parse_value (String.◌∷◌ c s) =
    if eqb (code c) b'['
    then (elim (strip_last b']' s) [ none ↦ none | some inner ↦ some (split b',' inner) ])
    else none

abbrev add_patterns : String → Option (List String) → Map (List String) → Map (List String)
add_patterns k none out = out
add_patterns k (some patterns) out = insert k patterns out

-- the body of the loop: only a text with one colon counts
abbrev parse_parts : List String → Map (List String) → Map (List String)
parse_parts (k ∷ v ∷ []) out = add_patterns k (parse_value v) out
parse_parts _ out = out

parse_from : List String → Map (List String) → Map (List String)
parse_from [] out = out
parse_from (tag ∷ tags) out = parse_from tags (parse_parts (split b':' tag) out)

unfoldable pub parse_filters : List String → Map (List String)
unfolding parse_from parse_value split
parse_filters slice = parse_from slice []

abbrev pub no_config : Config
no_config = record {
  metric_allow_list = [];
  metric_deny_list = [];
  metric_tag_allow_list = [];
  metric_tag_deny_list = [];
  tag_include = [];
  tag_exclude = [];
  metric_whitelist = [];
  metric_blacklist = [];
  metric_tag_whitelist = [];
  metric_tag_blacklist = [];
}

unfoldable pub from_query : Map (List String) → Config
from_query [] = no_config
from_query (v ∷ rest) =
    let vals = v ∷ rest in
    let at = λ (k : String). or_else (lookup k vals) [] in
    record no_config {
      metric_whitelist = at "metricWhitelist";
      metric_blacklist = at "metricBlacklist";
      metric_tag_whitelist = parse_filters (at "metricTagWhitelist");
      metric_tag_blacklist = parse_filters (at "metricTagBlacklist");
      tag_include = at "tagInclude";
      tag_exclude = at "tagExclude";
    }

parse_filters_example :
    parse_filters ("env:[dev*,test]" ∷ "bad" ∷ "x:y" ∷ []) ≡ ("env", "dev*" ∷ "test" ∷ []) ∷ []
unfolding parse_filters insert
parse_filters_example = refl
