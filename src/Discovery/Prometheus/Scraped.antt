-- ===== src/Discovery/Prometheus/Scraped.antt =====
-- Which resources get a Prometheus source.
use wavefront_collector_for.Prelude.{
  String, some, true, false, not, ◌&&◌, ◌||◌, ◌==◌, ◌≡◌, refl, inl, inr, is_some, and_then, arith,
  Option-cases,
}
use wavefront_collector_for.Prelude.Maps.{lookup}
use wavefront_collector_for.Discovery.Resources.{Meta, Resource, PluginConfig}
use wavefront_collector_for.Discovery.Endpoints.{Endpoint}
use wavefront_collector_for.Discovery.Creation.{
  EndpointCreator, annotated, plugin_type, make_endpoint, discover_endpoints,
}
use wavefront_collector_for.Discovery.Creation
use wavefront_collector_for.Discovery.Creation.Made.{
  In, OfRule, OfAnnotations, In-discover_endpoints,
}
use wavefront_collector_for.Discovery.Prometheus.{
  PrometheusSourceConfig, Outside, annotated_or, encoded_interval, encoded_timeout, encoded_conf,
  encode,
}

module _ {H : Type 0} (o : Outside H) (prefix : String) where
  -- A source is made exactly for a resource with an address, whose interval, timeout and HTTP
  -- configuration can be read, and which either a named rule or its own annotation says is to be
  -- scraped.
  pub is_some-encode :
      (ip kind : String) (meta : Meta) (rule : PluginConfig)
      → is_some (encode o prefix ip kind meta rule) ≡ (
          not (ip == "")
          && (not (ip == "None")
              && (is_some (encoded_interval o prefix ip kind meta rule)
                  && (is_some (encoded_timeout o prefix ip kind meta rule)
                      && ((not (rule.name == "")
                            || (annotated_or o prefix ip kind meta rule "scrape" "" "false"
                                == "true"))
                          && is_some (encoded_conf o prefix ip kind meta rule))))))
  unfolding encode and_then
  is_some-encode ip kind meta rule = ground arith

  -- what the annotation of the resource says, where it says anything
  abbrev pub scrape : Resource → String
  scrape r = annotated_or o prefix r.ip r.kind r.meta annotated "scrape" "" "false"

  is_some-make_endpoint :
      (e : EndpointCreator (PrometheusSourceConfig H)) (r : Resource) (plugin : PluginConfig)
      (ep : Endpoint (PrometheusSourceConfig H))
      → lookup (plugin_type plugin) e.providers ≡ some (encode o prefix)
      → make_endpoint e r plugin ≡ some ep
      → is_some (encode o prefix r.ip r.kind r.meta plugin) ≡ true
  unfolding make_endpoint Creation.encode
  is_some-make_endpoint e r plugin ep found made =
      elim (Option-cases (encode o prefix r.ip r.kind r.meta plugin)) [
        | inl none_made ↦ let impossible = (rw (found, none_made) at made) in cc
        | inr (x, encoded) ↦ rw encoded refl
      ]

  OfAnnotations-scrape :
      (e : EndpointCreator (PrometheusSourceConfig H)) (r : Resource)
      (ep : Endpoint (PrometheusSourceConfig H))
      → lookup "prometheus" e.providers ≡ some (encode o prefix)
      → OfAnnotations e r ep
      → (scrape r == "true") ≡ true
  unfolding plugin_type
  OfAnnotations-scrape e r ep found a =
      let made = is_some-make_endpoint e r annotated ep found a.made in
      ground (arith, made, is_some-encode r.ip r.kind r.meta annotated)

  -- Where the encoder of Prometheus sources is this one, a resource that is not annotated with "true" for
  -- scraping has an endpoint only by a rule that selects the resource.
  pub OfRule-discover_endpoints :
      (e : EndpointCreator (PrometheusSourceConfig H)) (r : Resource)
      (ep : Endpoint (PrometheusSourceConfig H))
      → lookup "prometheus" e.providers ≡ some (encode o prefix)
      → (scrape r == "true") ≡ false
      → In ep (discover_endpoints e r)
      → OfRule e r ep e.delegates
  OfRule-discover_endpoints e r ep found not_asked h = elim ((In-discover_endpoints e r ep).0 h) [
    | inl rule ↦ rule
    | inr annotations ↦ let asked = OfAnnotations-scrape e r ep found annotations in absurd (cc)
  ]
