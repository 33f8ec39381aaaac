-- ===== src/Options/Adapter/Prefixes.antt =====
-- What becomes of the prefix and the cluster name of the first sink.
use wavefront_collector_for.Prelude.{
  String, List, [], ◌∷◌, ◌++◌, Option, none, some, Bool, true, false, ◌==◌, ◌≡◌, refl, sym, ◌∙◌, ap,
  append_assoc, append-nil, Bool-cases, inl, inr, if◌then◌else◌,
}
use wavefront_collector_for.Discovery.Configs.{DiscoveryConfig}
use wavefront_collector_for.Options.{UrlLibrary, Uri}
use wavefront_collector_for.Options.Settings.{Config, Options, SummarySource, WavefrontSink}
use wavefront_collector_for.Options.Adapter.{
  Outcome, fatal, panic, wavefront_sink, add_sinks, converted, with_discovery, extract, converting,
  convert, ◌>>=◌,
}

module _ {U : Type 0} (lib : UrlLibrary U) (parse_bool : String → Option Bool)
    (from_file : String → Option DiscoveryConfig) where
  add_sinks-grows :
      (ks : List (Uri U)) (sinks : List WavefrontSink)
      → (others : List WavefrontSink) × (add_sinks lib parse_bool ks sinks ≡ sinks ++ others)
  unfolding add_sinks
  add_sinks-grows [] sinks = ([], sym (append-nil sinks))
  add_sinks-grows (k ∷ ks) sinks = elim (Bool-cases (k.key == "wavefront")) [
    | inl t ↦
        let (others, e) = add_sinks-grows ks (sinks ++ wavefront_sink lib parse_bool k ∷ []) in
        (
          wavefront_sink lib parse_bool k ∷ others,
          rw t (e ∙ append_assoc sinks (wavefront_sink lib parse_bool k ∷ []) others),
        )
    | inr t ↦ ([], rw t (sym (append-nil sinks)))
  ]

  -- a list that starts with a sink
  abbrev pub StartsWith : WavefrontSink → List WavefrontSink → Type 0
  StartsWith sink sinks = (others : List WavefrontSink) × (sinks ≡ sink ∷ others)

  first_sink :
      (k : Uri U) (ks : List (Uri U))
      → (k.key == "wavefront") ≡ true
      → StartsWith (wavefront_sink lib parse_bool k) (add_sinks lib parse_bool (k ∷ ks) [])
  unfolding add_sinks
  first_sink k ks t =
      let (others, e) = add_sinks-grows ks (wavefront_sink lib parse_bool k ∷ []) in
      (others, rw t e)

  no_sink :
      (k : Uri U) (ks : List (Uri U))
      → (k.key == "wavefront") ≡ false
      → add_sinks lib parse_bool (k ∷ ks) [] ≡ []
  unfolding add_sinks
  no_sink k ks t = rw t refl

  module _ (opts : Options U) (s : Uri U) (ss : List (Uri U)) (k : Uri U) (ks : List (Uri U))
      (sourced : opts.sources ≡ s ∷ ss) (sunk : opts.sinks ≡ k ∷ ks) where
    abbrev cfg : Config
    cfg = converted lib parse_bool from_file opts

    abbrev configured : Outcome Config → Outcome Config
    configured o = o >>= with_discovery lib parse_bool from_file opts

    converts :
        convert lib parse_bool from_file opts ≡ configured (extract lib parse_bool cfg.sinks cfg)
    unfolding convert
    converts = λ i. converting lib parse_bool from_file (sourced i) (sunk i) opts

    sinks_of : cfg.sinks ≡ add_sinks lib parse_bool (k ∷ ks) []
    unfolding converted
    sinks_of = ap (λ us. add_sinks lib parse_bool us []) sunk

    with_sinks :
        (sinks : List WavefrontSink)
        → cfg.sinks ≡ sinks
        → convert lib parse_bool from_file opts ≡ configured (extract lib parse_bool sinks cfg)
    with_sinks sinks e = converts ∙ ap (λ l. configured (extract lib parse_bool l cfg)) e

    -- the prefix that the first sink is given, and the sources that are configured
    abbrev pub sink : WavefrontSink
    sink = wavefront_sink lib parse_bool k

    abbrev pub summary_of : Option SummarySource
    summary_of = cfg.sources.summary_config

    -- the sinks behind the first
    abbrev pub others_of : List WavefrontSink → List WavefrontSink
    others_of [] = []
    others_of (first ∷ others) = others

    abbrev pub unprefixed : WavefrontSink
    unprefixed = record sink { transforms = record sink.transforms { prefix = "" } }

    abbrev pub moved : Option SummarySource → Outcome Config
    moved none = panic
    moved (some summary) = with_discovery lib parse_bool from_file opts (record cfg {
      sources = record cfg.sources {
        summary_config = some (record summary {
          transforms = record summary.transforms { prefix = sink.transforms.prefix };
        });
      };
      sinks = unprefixed ∷ others_of cfg.sinks;
      cluster_name = sink.cluster_name;
    })

    moved-extract :
        (others : List WavefrontSink) (o : Option SummarySource)
        → cfg.sinks ≡ sink ∷ others
        → summary_of ≡ o
        → (sink.transforms.prefix == "") ≡ false
        → configured (extract lib parse_bool (sink ∷ others) cfg) ≡ moved o
    moved-extract others none e h p = rw (p, h) refl
    moved-extract others (some summary) e h p = rw (p, h, e) refl

    -- Where sources and sinks are given, the conversion of the flags ends the process if the first sink is not
    -- a Wavefront sink. If it is one without a prefix, its cluster name becomes that of the configuration. If
    -- it has a prefix, that moves to the summary source, but a nil pointer is used if there is none.
    pub convert-prefix : convert lib parse_bool from_file opts ≡ (
        if k.key == "wavefront"
        then (if sink.transforms.prefix == ""
            then with_discovery lib parse_bool from_file opts
                (record cfg { cluster_name = sink.cluster_name })
            else moved summary_of)
        else fatal "no sink configured")
    convert-prefix = elim (Bool-cases (k.key == "wavefront")) [
      | inr other ↦ rw other (with_sinks [] (sinks_of ∙ no_sink k ks other))
      | inl wavefront ↦
          let (others, e) = first_sink k ks wavefront in
          let found = sinks_of ∙ e in
          let whole = with_sinks (sink ∷ others) found in
          elim (Bool-cases (sink.transforms.prefix == "")) [
            | inl bare ↦ rw (wavefront, bare) (whole ∙ rw bare refl)
            | inr prefix ↦
                rw (wavefront, prefix) (whole ∙ moved-extract others summary_of found refl prefix)
          ]
    ]
