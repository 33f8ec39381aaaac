-- ===== src/Discovery/Creation.antt =====
-- plugins/discovery/endpoint_creator.go, with makeDelegates and its helpers of discoverer.go: the
-- endpoints of a resource, by rules or by annotations. An encoder is a function of the resource's
-- address, kind and metadata and of a rule; `parse_port` says whether strconv.ParseInt succeeds.
pub mod Made
use wavefront_collector_for.Prelude.{
  String, List, [], ◌∷◌, Option, none, some, Bool, true, false, not, ◌&&◌, ◌||◌, ◌==◌, is_empty,
  some_of, and_then, if◌then◌else◌,
}
use wavefront_collector_for.Prelude.Text.{contains}
use wavefront_collector_for.Prelude.Maps.{Map, lookup, insert}
use wavefront_collector_for.Prelude.Result.{Result, ok, err}
use wavefront_collector_for.Filter.{GlobCompiler}
use wavefront_collector_for.Filter.Query.{no_config}
use wavefront_collector_for.Discovery.Resources.{Meta, Resource, Selectors, PluginConfig}
use wavefront_collector_for.Discovery.Selection.{
  ResourceFilter, SelectorError, new_resource_filter, matches,
}
use wavefront_collector_for.Discovery.Endpoints.{Endpoint}

pub record Delegate : Type 0 where
  pub filter : ResourceFilter
  pub plugin : PluginConfig

abbrev pub Encoder : Type 0 → Type 0
Encoder C = String → String → Meta → PluginConfig → Option (String × C)

pub record EndpointCreator (C : Type 0) : Type 0 where
  pub delegates : Map Delegate
  pub providers : Map (Encoder C)
  pub disable_annotation_discovery : Bool
  pub annotation_excludes : List ResourceFilter

unfoldable pub plugin_type : PluginConfig → String
unfolding contains
plugin_type plugin =
    if contains "prometheus" plugin.type
    then "prometheus"
    else if contains "telegraf" plugin.type
    then "telegraf"
    else ""

-- PluginConfig{Type: "prometheus"}
abbrev pub annotated : PluginConfig
annotated = record {
  name = "";
  type = "prometheus";
  selectors = record { resource_type = ""; images = []; labels = []; namespaces = [] };
  port = "";
  scheme = "";
  path = "";
  conf = "";
  source = "";
  prefix = "";
  tags = [];
  include_labels = "";
  filters = no_config;
  interval = 0;
  timeout = 0;
  internal = false;
}

module _ (glob_compile : GlobCompiler) (parse_port : String → Bool) where
  abbrev delegate_of : PluginConfig → Result SelectorError ResourceFilter → Option Delegate
  delegate_of plugin (err e) = none
  delegate_of plugin (ok filter) =
      if not (plugin.port == "") && not (parse_port plugin.port)
      then none
      else if not (contains "prometheus" plugin.type || contains "telegraf" plugin.type)
      then none
      else some (record { filter = filter; plugin = plugin })

  -- `none` is an error, which is logged
  unfoldable pub make_delegate : PluginConfig → Option Delegate
  make_delegate plugin = delegate_of plugin (new_resource_filter glob_compile plugin.selectors)

  abbrev put_delegate : String → Option Delegate → Map Delegate → Map Delegate
  put_delegate name none delegates = delegates
  put_delegate name (some d) delegates = insert name d delegates

  make_delegates_into : List PluginConfig → Map Delegate → Map Delegate
  make_delegates_into [] delegates = delegates
  make_delegates_into (plugin ∷ plugins) delegates =
      make_delegates_into plugins (put_delegate plugin.name (make_delegate plugin) delegates)

  unfoldable pub make_delegates : List PluginConfig → Map Delegate
  unfolding make_delegates_into
  make_delegates plugins = make_delegates_into plugins []

module _ (glob_compile : GlobCompiler) where
  abbrev append_filter :
      Result SelectorError ResourceFilter → List ResourceFilter → List ResourceFilter
  append_filter (err e) filters = filters
  append_filter (ok f) filters = f ∷ filters

  unfoldable pub make_annotation_exclusions : List Selectors → List ResourceFilter
  make_annotation_exclusions [] = []
  make_annotation_exclusions (s ∷ selectors) =
      append_filter (new_resource_filter glob_compile s) (make_annotation_exclusions selectors)

abbrev pub append_endpoint {ℓ} : {A : Type ℓ} → Option A → List A → List A
append_endpoint none eps = eps
append_endpoint (some ep) eps = ep ∷ eps

module _ {C : Type 0} (e : EndpointCreator C) (resource : Resource) where
  abbrev encode_with : PluginConfig → Option (Encoder C) → Option (String × C)
  encode_with rule none = none
  encode_with rule (some encoder) = encoder resource.ip resource.kind resource.meta rule

  unfoldable pub encode : PluginConfig → Option (String × C)
  unfolding plugin_type
  encode rule = encode_with rule (lookup (plugin_type rule) e.providers)

  abbrev endpoint_of : PluginConfig → Option (String × C) → Option (Endpoint C)
  endpoint_of plugin none = none
  endpoint_of plugin (some (name, cfg)) =
      some (record { name = name; plugin_type = plugin_type plugin; config = cfg })

  unfoldable pub make_endpoint : PluginConfig → Option (Endpoint C)
  unfolding encode
  make_endpoint plugin = endpoint_of plugin (encode plugin)

  -- the endpoint of one delegate
  unfoldable pub of_delegate : Delegate → Option (Endpoint C)
  of_delegate d = if matches (some d.filter) resource then make_endpoint d.plugin else none

  -- the `range` over the delegates, in the order of the list
  unfoldable pub of_delegates : Map Delegate → List (Endpoint C)
  unfolding of_delegate
  of_delegates [] = []
  of_delegates ((name, d) ∷ delegates) = append_endpoint (of_delegate d) (of_delegates delegates)

  unfoldable pub discover_endpoints_with_rules : List (Endpoint C)
  discover_endpoints_with_rules = of_delegates e.delegates

  unfoldable pub discover_endpoints_with_annotations : List (Endpoint C)
  discover_endpoints_with_annotations =
      if some_of (λ exclude. matches (some exclude) resource) e.annotation_excludes
      then []
      else append_endpoint (make_endpoint annotated) []

  unfoldable pub discover_endpoints : List (Endpoint C)
  discover_endpoints =
      if is_empty discover_endpoints_with_rules && not e.disable_annotation_discovery
      then discover_endpoints_with_annotations
      else discover_endpoints_with_rules
