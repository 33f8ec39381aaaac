-- ===== src/Discovery/Selection.antt =====
-- plugins/discovery/filter.go: which resources a rule selects.
pub mod Selected
use wavefront_collector_for.Prelude.{
  String, List, [], ◌∷◌, Option, none, some, Bool, true, false, not, ◌&&◌, ◌||◌, ◌==◌, is_empty,
  is_some, some_of, if◌then◌else◌,
}
use wavefront_collector_for.Prelude.Maps.{Map}
use wavefront_collector_for.Prelude.Result.{Result, ok, err, ◌>>=◌}
use wavefront_collector_for.Filter.{
  Glob, GlobCompiler, compile, multi_compile, matches_all_tags, holds,
}
use wavefront_collector_for.Discovery.Resources.{
  Meta, Resource, ResourceType, pod_type, service_type, node_type, type_string, Selectors,
}

pub record ResourceFilter : Type 0 where
  pub kind : String
  pub images : Option Glob
  pub namespaces : Option Glob
  pub labels : Option (Map Glob)

pub data SelectorError : Type 0 where
  -- "invalid resource type: <kind>"
  invalid_resource_type : String → SelectorError
  no_selectors : SelectorError

unfoldable pub resource_type : String → Result SelectorError String
unfolding type_string
resource_type kind =
    if kind == ""
    then ok (type_string pod_type)
    else if kind == type_string pod_type
        || (kind == type_string service_type || kind == type_string node_type)
    then ok kind
    else err (invalid_resource_type kind)

abbrev selects_nothing : ResourceFilter → Bool
selects_nothing rf =
    not (rf.kind == "node")
    && (not (is_some rf.images) && (not (is_some rf.labels) && not (is_some rf.namespaces)))

unfoldable pub new_resource_filter : GlobCompiler → Selectors → Result SelectorError ResourceFilter
unfolding resource_type
new_resource_filter glob_compile selectors = resource_type selectors.resource_type >>= λ kind.
    let rf : ResourceFilter = record {
      kind = kind;
      images = compile glob_compile selectors.images;
      namespaces = compile glob_compile selectors.namespaces;
      labels = multi_compile glob_compile selectors.labels;
    } in
    if selects_nothing rf then err no_selectors else ok rf

-- the matchesTags of this file, which wants at least one label
unfoldable pub matches_tags : Map Glob → Map String → Bool
matches_tags matchers tags = if is_empty tags then false else matches_all_tags matchers tags

abbrev pub matches_image : List String → Option Glob → Bool
matches_image containers none = true
matches_image containers (some g) = some_of g containers

unfoldable pub matches : Option ResourceFilter → Resource → Bool
unfolding matches_tags some_of
matches none resource = false
matches (some r) resource =
    if not (r.kind == resource.kind)
    then false
    else if holds (λ l. not (matches_tags l resource.meta.labels)) r.labels
    then false
    else if holds (λ g. not (g resource.meta.namespace)) r.namespaces
    then false
    else matches_image resource.containers r.images
