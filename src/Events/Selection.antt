-- ===== src/Events/Selection.antt =====
-- plugins/events/filter.go, with EventsFilter of internal/configuration/config.go. A set of patterns
-- that is nil and one that is empty are the same map here: both are matched by every event.
pub mod Rules
use wavefront_collector_for.Prelude.{
  String, List, [], ◌∷◌, Option, none, some, Bool, true, false, not, ◌&&◌, is_empty, or_else,
  if◌then◌else◌,
}
use wavefront_collector_for.Prelude.Maps.{Map}
use wavefront_collector_for.Filter.{
  Glob, GlobCompiler, multi_compile, multi_compile_all, matches_tags, matches_all_tags,
}
use wavefront_collector_for.Filter.Config.{prefer}

pub record EventsFilter : Type 0 where
  pub tag_allow_list : Map (List String)
  pub tag_deny_list : Map (List String)
  pub tag_allow_list_sets : List (Map (List String))
  pub tag_deny_list_sets : List (Map (List String))
  -- deprecated names of the four
  pub tag_whitelist : Map (List String)
  pub tag_blacklist : Map (List String)
  pub tag_whitelist_sets : List (Map (List String))
  pub tag_blacklist_sets : List (Map (List String))

pub record EventFilter : Type 0 where
  pub allow_list : Map Glob
  pub deny_list : Map Glob
  pub allow_list_sets : List (Map Glob)
  pub deny_list_sets : List (Map Glob)

abbrev or_empty : Option (Map Glob) → Map Glob
or_empty none = []
or_empty (some m) = m

or_empty_all : List (Option (Map Glob)) → List (Map Glob)
or_empty_all [] = []
or_empty_all (m ∷ ms) = or_empty m ∷ or_empty_all ms

unfoldable pub new_event_filter : GlobCompiler → EventsFilter → EventFilter
unfolding or_empty_all
new_event_filter glob_compile filters = record {
  allow_list =
      or_empty (multi_compile glob_compile (prefer filters.tag_allow_list filters.tag_whitelist));
  deny_list =
      or_empty (multi_compile glob_compile (prefer filters.tag_deny_list filters.tag_blacklist));
  allow_list_sets = or_empty_all (
      multi_compile_all glob_compile
        (prefer filters.tag_allow_list_sets filters.tag_whitelist_sets));
  deny_list_sets = or_empty_all (
      multi_compile_all glob_compile
        (prefer filters.tag_deny_list_sets filters.tag_blacklist_sets));
}

-- the loops over the sets: whether one of them is matched in full
unfoldable pub matches_a_set : List (Map Glob) → Map String → Bool
matches_a_set [] tags = false
matches_a_set (set ∷ sets) tags =
    if matches_all_tags set tags then true else matches_a_set sets tags

unfoldable pub matches : EventFilter → Map String → Bool
matches ef tags =
    if not (is_empty ef.allow_list) && not (matches_tags ef.allow_list tags)
    then false
    else if not (is_empty ef.deny_list) && matches_tags ef.deny_list tags
    then false
    else if not (is_empty ef.allow_list_sets)
    then matches_a_set ef.allow_list_sets tags
    else if not (is_empty ef.deny_list_sets)
    then not (matches_a_set ef.deny_list_sets tags)
    else true
