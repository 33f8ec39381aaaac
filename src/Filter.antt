-- ===== src/Filter.antt =====
-- internal/filter: allow and deny lists of glob patterns for metrics and tags. The pattern language
-- is that of github.com/gobwas/glob: `glob.Compile` is a parameter, and a compiled pattern is its
-- `Match`. An interface or a map that is nil is `none`.
pub mod Matching
pub mod Config
pub mod Query
use Prim.Native.String.{◌++◌}
use wavefront_collector_for.Prelude.{
  String, List, [], ◌∷◌, Option, none, some, Bool, true, false, not, ◌&&◌, is_empty, if◌then◌else◌,
}
use wavefront_collector_for.Prelude.Text.{join}
use wavefront_collector_for.Prelude.Maps.{Map, lookup}

abbrev pub Glob : Type 0
Glob = String → Bool

-- glob.Compile, with nil for a pattern that does not parse
abbrev pub GlobCompiler : Type 0
GlobCompiler = String → Option Glob

module _ (glob_compile : GlobCompiler) where
  unfoldable pub compile : List String → Option Glob
  unfolding join
  compile [] = none
  compile (f ∷ []) = glob_compile f
  compile (f ∷ g ∷ fs) = glob_compile ("{" ++ join "," (f ∷ g ∷ fs) ++ "}")

  abbrev add_glob : String → Option Glob → Map Glob → Map Glob
  add_glob k none globs = globs
  add_glob k (some g) globs = (k, g) ∷ globs

  -- the loop over the filters, whose keys are all different
  unfoldable pub compile_each : Map (List String) → Map Glob
  compile_each [] = []
  compile_each ((k, v) ∷ filters) = add_glob k (compile v) (compile_each filters)

  unfoldable pub multi_compile : Map (List String) → Option (Map Glob)
  unfolding compile_each
  multi_compile [] = none
  multi_compile (f ∷ filters) = some (compile_each (f ∷ filters))

  unfoldable pub multi_compile_all : List (Map (List String)) → List (Option (Map Glob))
  multi_compile_all [] = []
  multi_compile_all (f ∷ filters) = multi_compile f ∷ multi_compile_all filters

pub record GlobFilter : Type 0 where
  pub metric_allow_list : Option Glob
  pub metric_deny_list : Option Glob
  pub metric_tag_allow_list : Option (Map Glob)
  pub metric_tag_deny_list : Option (Map Glob)
  pub tag_include : Option Glob
  pub tag_exclude : Option Glob

-- the body of the loop of MatchesTags for one matcher
abbrev pub hits : Glob → Option String → Bool
hits g none = false
hits g (some val) = g val

unfoldable pub matches_tags : Map Glob → Map String → Bool
matches_tags [] tags = false
matches_tags ((k, matcher) ∷ matchers) tags =
    if hits matcher (lookup k tags) then true else matches_tags matchers tags

unfoldable pub matches_all_tags : Map Glob → Map String → Bool
matches_all_tags [] tags = true
matches_all_tags ((k, matcher) ∷ matchers) tags =
    if hits matcher (lookup k tags) then matches_all_tags matchers tags else false

-- `x != nil && f(x)`
abbrev pub holds {ℓ} : {A : Type ℓ} → (A → Bool) → Option A → Bool
holds f none = false
holds f (some x) = f x

unfoldable pub match_metric : GlobFilter → String → Map String → Bool
match_metric gf name tags =
    if holds (λ g. not (g name)) gf.metric_allow_list
    then false
    else if holds (λ g. g name) gf.metric_deny_list
    then false
    else if holds (λ m. not (matches_tags m tags)) gf.metric_tag_allow_list
    then false
    else if holds (λ m. matches_tags m tags) gf.metric_tag_deny_list
    then false
    else true

unfoldable pub match_tag : GlobFilter → String → Bool
match_tag gf tag_name =
    let included = if holds (λ g. not (g tag_name)) gf.tag_include then false else true in
    if holds (λ g. g tag_name) gf.tag_exclude then false else included
