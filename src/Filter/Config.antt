-- ===== src/Filter/Config.antt =====
-- internal/filter/config.go and FromConfig of util.go: which filter a configuration asks for.
use wavefront_collector_for.Prelude.{
  String, List, [], ◌∷◌, Option, none, some, Bool, true, ◌&&◌, is_empty, if◌then◌else◌, ◌≡◌, ◌↔◌,
  arith,
}
use wavefront_collector_for.Prelude.Maps.{Map}
use wavefront_collector_for.Filter.{GlobCompiler, GlobFilter, compile, multi_compile}

pub record Config : Type 0 where
  pub metric_allow_list : List String
  pub metric_deny_list : List String
  pub metric_tag_allow_list : Map (List String)
  pub metric_tag_deny_list : Map (List String)
  pub tag_include : List String
  pub tag_exclude : List String
  -- deprecated names of the first four
  pub metric_whitelist : List String
  pub metric_blacklist : List String
  pub metric_tag_whitelist : Map (List String)
  pub metric_tag_blacklist : Map (List String)

unfoldable pub empty : Config → Bool
empty cfg =
    is_empty cfg.metric_whitelist
    && (is_empty cfg.metric_allow_list
        && (is_empty cfg.metric_blacklist
            && (is_empty cfg.metric_deny_list
                && (is_empty cfg.metric_tag_whitelist
                    && (is_empty cfg.metric_tag_allow_list
                        && (is_empty cfg.metric_tag_blacklist
                            && (is_empty cfg.metric_tag_deny_list
                                && (is_empty cfg.tag_include && is_empty cfg.tag_exclude))))))))

-- `x := old; if len(new) > 0 { x = new }`
abbrev pub prefer {ℓ} : {A : Type ℓ} → List A → List A → List A
prefer [] old = old
prefer (x ∷ new) old = x ∷ new

module _ (glob_compile : GlobCompiler) where
  unfoldable pub new_glob_filter :
      List String
      → List String
      → Map (List String)
      → Map (List String)
      → List String
      → List String
      → GlobFilter
  new_glob_filter allow deny tag_allow tag_deny include exclude = record {
    metric_allow_list = compile glob_compile allow;
    metric_deny_list = compile glob_compile deny;
    metric_tag_allow_list = multi_compile glob_compile tag_allow;
    metric_tag_deny_list = multi_compile glob_compile tag_deny;
    tag_include = compile glob_compile include;
    tag_exclude = compile glob_compile exclude;
  }

  unfoldable pub from_config : Config → Option GlobFilter
  from_config cfg =
      let allow = prefer cfg.metric_allow_list cfg.metric_whitelist in
      let deny = prefer cfg.metric_deny_list cfg.metric_blacklist in
      let tag_allow = prefer cfg.metric_tag_allow_list cfg.metric_tag_whitelist in
      let tag_deny = prefer cfg.metric_tag_deny_list cfg.metric_tag_blacklist in
      if empty cfg
      then none
      else if is_empty allow
          && (is_empty deny
              && (is_empty tag_allow
                  && (is_empty tag_deny && (is_empty cfg.tag_include && is_empty cfg.tag_exclude))))
      then none
      else some (new_glob_filter allow deny tag_allow tag_deny cfg.tag_include cfg.tag_exclude)

  -- There is no filter exactly for a configuration whose ten lists are all empty: the second test of
  -- the code never decides.
  pub from_config-none : (cfg : Config) → (from_config cfg ≡ none) ↔ (empty cfg ≡ true)
  unfolding from_config empty
  from_config-none cfg = (λ h. ground arith, λ h. ground arith)

  -- the configuration with the lists under their new names alone
  unfoldable pub renamed : Config → Config
  renamed cfg = record {
    metric_allow_list = prefer cfg.metric_allow_list cfg.metric_whitelist;
    metric_deny_list = prefer cfg.metric_deny_list cfg.metric_blacklist;
    metric_tag_allow_list = prefer cfg.metric_tag_allow_list cfg.metric_tag_whitelist;
    metric_tag_deny_list = prefer cfg.metric_tag_deny_list cfg.metric_tag_blacklist;
    tag_include = cfg.tag_include;
    tag_exclude = cfg.tag_exclude;
    metric_whitelist = [];
    metric_blacklist = [];
    metric_tag_whitelist = [];
    metric_tag_blacklist = [];
  }

  -- A deprecated list counts exactly where the list under the new name is empty: moving it there
  -- gives the same filter.
  pub from_config-renamed : (cfg : Config) → from_config (renamed cfg) ≡ from_config cfg
  unfolding from_config empty renamed
  from_config-renamed cfg = ground arith
