-- ===== src/Options.antt =====
-- internal/options/agent_type.go and the flag values of internal/flags. Package net/url is a parameter: a
-- record of its functions, with no law. os.ExpandEnv and strconv.ParseBool are parameters too.
pub mod Printed
pub mod Settings
pub mod Adapter
use Prim.Native.String.{◌++◌}
use wavefront_collector_for.Prelude.{
  String, List, [], ◌∷◌, Option, none, some, Bool, true, false, not, ◌==◌, ◌||◌, or_else,
  if◌then◌else◌,
}
use mathlib.Core.List.{◌++◌ as ◌++ₗ◌}
use wavefront_collector_for.Prelude.Text.{split, split_once}
use wavefront_collector_for.Prelude.Maps.{Map, lookup, insert}
use wavefront_collector_for.Prelude.Result.{Result, ok, err}

abbrev pub AgentType : Type 0
AgentType = String

unfoldable pub new_agent_type : String → Option AgentType
new_agent_type value =
    if value == "all"
    then some "all"
    else if value == "cluster"
    then some "cluster"
    else if value == "node"
    then some "node"
    else if value == "legacy"
    then some "legacy"
    else none

unfoldable pub scrape_cluster : AgentType → Bool
scrape_cluster a = a == "all" || (a == "legacy" || a == "cluster")

unfoldable pub scrape_nodes : AgentType → String
scrape_nodes a =
    if a == "all"
    then "all"
    else if a == "legacy"
    then "own"
    else if a == "node"
    then "own"
    else "none"

unfoldable pub scrape_any_nodes : AgentType → Bool
scrape_any_nodes a = not (a == "cluster")

unfoldable pub scrape_only_own_node : AgentType → Bool
scrape_only_own_node a = a == "legacy" || a == "node"

-- the values of the query parameters by name
abbrev pub Values : Type 0
Values = Map (List String)

pub record UrlLibrary (U : Type 0) : Type 0 where
  pub empty : U
  pub parse : String → Result String U
  pub print : U → String
  pub query : U → Values
  pub scheme : U → String
  pub host : U → String
  pub path : U → String

pub record Uri (U : Type 0) : Type 0 where
  pub key : String
  pub val : U

module _ {U : Type 0} (lib : UrlLibrary U) where
  unfoldable pub print_uri : Uri U → String
  print_uri u = if lib.print u.val == "" then u.key else u.key ++ ":" ++ lib.print u.val

  abbrev with_val : String → Result String U → Result String (Uri U)
  with_val key (err e) = err e
  with_val key (ok val) = ok (record { key = key; val = val })

  abbrev set_parts : (String → String) → String → String → Result String (Uri U)
  set_parts expand_env key val =
      if key == ""
      then err "missing uri key"
      else if val == ""
      then ok (record { key = key; val = lib.empty })
      else with_val key (lib.parse (expand_env val))

  abbrev set_split : (String → String) → String → Option (String × String) → Result String (Uri U)
  set_split expand_env value none = set_parts expand_env value ""
  set_split expand_env value (some (key, val)) = set_parts expand_env key val

  -- Set of a new Uri
  unfoldable pub set_uri : (String → String) → String → Result String (Uri U)
  set_uri expand_env value = set_split expand_env value (split_once b':' value)

  abbrev joined : List (Uri U) → String
  joined [] = ""
  joined (u ∷ us) = " " ++ print_uri u ++ joined us

  unfoldable pub print_uris : List (Uri U) → String
  unfolding print_uri
  print_uris [] = "[]"
  print_uris (u ∷ us) = "[" ++ print_uri u ++ joined us ++ "]"

  abbrev appended : List (Uri U) → Result String (Uri U) → Result String (List (Uri U))
  appended us (err e) = err e
  appended us (ok u) = ok (us ++ₗ (u ∷ []))

  unfoldable pub set_uris : (String → String) → List (Uri U) → String → Result String (List (Uri U))
  unfolding set_uri
  set_uris expand_env us value = appended us (set_uri expand_env value)

abbrev first_value : Option (List String) → String
first_value none = ""
first_value (some []) = ""
first_value (some (v ∷ vs)) = v

unfoldable pub decode_value : Values → String → String
decode_value vals name = first_value (lookup name vals)

abbrev parsed_bool : (String → Option Bool) → Option (List String) → Bool
parsed_bool parse_bool none = false
parsed_bool parse_bool (some []) = false
parsed_bool parse_bool (some (v ∷ vs)) = or_else (parse_bool v) false

unfoldable pub decode_boolean : (String → Option Bool) → Values → String → Bool
decode_boolean parse_bool vals name = parsed_bool parse_bool (lookup name vals)

abbrev put_pair : List String → Map String → Map String
put_pair (k ∷ v ∷ []) tags = insert k v tags
put_pair _ tags = tags

unfoldable pub decode_each_tag : List String → Map String → Map String
decode_each_tag [] tags = tags
decode_each_tag (tag ∷ more) tags = decode_each_tag more (put_pair (split b':' tag) tags)

unfoldable pub decode_tags : Values → Map String
unfolding decode_each_tag
decode_tags vals = decode_each_tag (or_else (lookup "tag" vals) []) []
