-- ===== src/Sinks/TagCleaning.antt =====
-- plugins/sinks/wavefront/utils.go: removing tags from a metric before it is sent. A function that
-- deletes from the map and returns the names of what it deleted returns both here.
pub mod Kept
pub mod OverCapacity
use Prim.Native.String.{len}
use wavefront_collector_for.Prelude.{
  ℕ, suc, ◌-◌, String, List, [], ◌∷◌, ◌++◌, Bool, true, false, not, ◌&&◌, ◌||◌, ltb, leb, eqb, ◌==◌,
  or_else, length, some_of, if◌then◌else◌,
}
use wavefront_collector_for.Prelude.Maps.{Map, lookup, insert, delete, keys}
use wavefront_collector_for.Prelude.Sort.{sort_strings, string_less}
use wavefront_collector_for.Sinks.Patterns.{alpha_beta_regex, iaas_name_regex}

abbrev pub max_wavefront_tags : ℕ
max_wavefront_tags = 19

abbrev pub exclude_tag_list : List String
exclude_tag_list = "namespace_id" ∷ "host_id" ∷ "pod_id" ∷ "hostname" ∷ []

unfoldable pub is_an_empty_tag : String → Bool
is_an_empty_tag value = value == "" || (value == "/" || value == "-")

unfoldable pub exclude_tag : String → Bool
unfolding some_of
exclude_tag name = some_of (λ exclude_name. exclude_name == name) exclude_tag_list

-- `for name, value := range tags { if p(name, value) { delete(tags, name) } }`, and the names
unfoldable pub remove_where : (String → String → Bool) → Map String → Map String × List String
remove_where p [] = ([], [])
remove_where p ((name, value) ∷ tags) =
    let (left, removed) = remove_where p tags in
    if p name value then (left, name ∷ removed) else ((name, value) ∷ left, removed)

unfoldable pub remove_empty_tags : Map String → Map String × List String
remove_empty_tags = remove_where (λ name value. is_an_empty_tag value)

unfoldable pub exclude_tags : Map String → Map String × List String
exclude_tags = remove_where (λ name value. exclude_tag name)

abbrev pub min_dedupe_tag_value_len : ℕ
min_dedupe_tag_value_len = 5

unfoldable pub is_winning_name : String → String → Bool
is_winning_name name prev_winner =
    if alpha_beta_regex name
    then false
    else if alpha_beta_regex prev_winner
    then true
    else ltb (len name) (len prev_winner)
      || (eqb (len name) (len prev_winner) && string_less name prev_winner)

-- the tags, the winner of each value, and the names removed
pub record Dedupe : Type 0 where
  pub tags : Map String
  pub inverted_tags : Map String
  pub removed_tags : List String

unfoldable pub dedupe_one : String → String → Dedupe → Dedupe
dedupe_one name value s =
    let winner = or_else (lookup value s.inverted_tags) "" in
    if ltb (len value) min_dedupe_tag_value_len
    then s
    else if eqb (len winner) 0
    then record s { inverted_tags = insert value name s.inverted_tags }
    else if is_winning_name name winner
    then record {
      tags = delete winner s.tags;
      inverted_tags = insert value name s.inverted_tags;
      removed_tags = s.removed_tags ++ winner ∷ [];
    }
    else record s { tags = delete name s.tags; removed_tags = s.removed_tags ++ name ∷ [] }

-- the loop over the tags: it deletes only tags that it has visited
unfoldable pub dedupe_from : Map String → Dedupe → Dedupe
dedupe_from [] s = s
dedupe_from ((name, value) ∷ more) s = dedupe_from more (dedupe_one name value s)

unfoldable pub dedupe_tag_values : Map String → Map String × List String
dedupe_tag_values tags =
    let s = dedupe_from tags (record { tags = tags; inverted_tags = []; removed_tags = [] }) in
    (s.tags, s.removed_tags)

-- the loop over the sorted names; `left` is numberToRemove, 0 where that is negative, and the loop
-- ends once `count` has reached it
unfoldable pub remove_matching_loop :
    (String → Bool) → ℕ → ℕ → List String → Map String → Map String × List String
remove_matching_loop regexp number_to_remove count [] tags = (tags, [])
remove_matching_loop regexp number_to_remove count (name ∷ names) tags =
    let (next, more) =
      remove_matching_loop regexp number_to_remove (suc count) names (delete name tags) in
    let (skipped, rest) = remove_matching_loop regexp number_to_remove count names tags in
    if regexp name
    then (if leb number_to_remove (suc count)
        then (delete name tags, name ∷ [])
        else (next, name ∷ more))
    else (skipped, rest)

unfoldable pub remove_tags_labels_matching :
    Map String → (String → Bool) → ℕ → Map String × List String
remove_tags_labels_matching tags regexp number_to_remove =
    remove_matching_loop regexp number_to_remove 0 (sort_strings (keys tags)) tags

-- the tags after each step, and the names removed for each reason
pub record Cleaned : Type 0 where
  pub tags : Map String
  pub empty : List String
  pub excluded : List String
  pub duplicates : List String
  pub alpha_beta : List String
  pub iaas : List String

-- the steps that every metric passes, and those for metrics with too many tags
unfoldable pub remove_always : Map String → Cleaned
remove_always tags =
    let (some_left, empty) = remove_empty_tags tags in
    let (left, excluded) = exclude_tags some_left in
    record {
      tags = left;
      empty = empty;
      excluded = excluded;
      duplicates = [];
      alpha_beta = [];
      iaas = [];
    }

unfoldable pub remove_duplicates : ℕ → Cleaned → Cleaned
remove_duplicates max_capacity c =
    let (left, removed) = dedupe_tag_values c.tags in
    if ltb max_capacity (length c.tags) then record c { tags = left; duplicates = removed } else c

unfoldable pub remove_labels : ℕ → Cleaned → Cleaned
remove_labels max_capacity c =
    let (some_left, alpha_beta) =
      remove_tags_labels_matching c.tags alpha_beta_regex (length c.tags - max_capacity) in
    let (left, iaas) =
      remove_tags_labels_matching some_left iaas_name_regex (length some_left - max_capacity) in
    if ltb max_capacity (length c.tags)
    then record c { tags = left; alpha_beta = alpha_beta; iaas = iaas }
    else c

unfoldable pub clean_tags : Map String → ℕ → Cleaned
clean_tags tags max_capacity =
    remove_labels max_capacity (remove_duplicates max_capacity (remove_always tags))
