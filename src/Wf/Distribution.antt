-- ===== src/Wf/Distribution.antt =====
-- internal/wf/distribution.go: histograms as centroids.
pub mod Smooth
pub mod Rate
use Prim.Native.String.{◌++◌}
use wavefront_collector_for.Prelude.{
  ℕ, ◌-◌, String, List, [], ◌∷◌, Option, none, some, Bool, true, false, not, ◌||◌, leb, ◌==◌,
  or_else, if◌then◌else◌, is_empty,
}
use wavefront_collector_for.Prelude.Maps.{Map, lookup, insert, keys}
use wavefront_collector_for.Prelude.Sort.{sort_by, sort_strings}
use wavefront_collector_for.Float64.{Float64}
use wavefront_collector_for.Wf.Point.{add_all_new, filter_keys}

pub record Centroid (F : Type 0) : Type 0 where
  pub value : F
  pub count : F

pub record Distribution (F : Type 0) : Type 0 where
  pub cumulative : Bool
  pub name : String
  pub tags : Map String
  pub source : String
  pub centroids : List (Centroid F)
  pub timestamp : ℕ

-- what `Send` hands to the sender: the count is an int
pub record SentCentroid (F : Type 0) : Type 0 where
  pub value : F
  pub count : ℕ

module _ {F : Type 0} ⦃fl : Float64 F⦄ where
  unfoldable pub new_distribution :
      Bool → String → String → Map String → List (Centroid F) → ℕ → Distribution F
  new_distribution cumulative name source tags centroids timestamp = record {
    cumulative = cumulative;
    name = name;
    source = source;
    tags = tags;
    centroids = sort_by (λ a b. fl.lt a.value b.value) centroids;
    timestamp = timestamp;
  }

  unfoldable pub clone : Distribution F → Distribution F
  unfolding new_distribution
  clone d = new_distribution d.cumulative d.name d.source d.tags d.centroids d.timestamp

  -- sendableCentroids
  unfoldable pub sendable_centroids : List (Centroid F) → List (SentCentroid F)
  sendable_centroids [] = []
  sendable_centroids (c ∷ cs) =
      let rest = sendable_centroids cs in
      if fl.eq c.count fl.zero
      then rest
      else (record { value = c.value; count = fl.to_int c.count }) ∷ rest

  -- the round of the loop of deriveCentroids with the count before it
  unfoldable pub derive_after : F → List (Centroid F) → List (Centroid F)
  derive_after before [] = []
  derive_after before (c ∷ cs) =
      (record { value = c.value; count = fl.sub c.count before }) ∷ derive_after c.count cs

  unfoldable pub derive_centroids : List (Centroid F) → List (Centroid F)
  unfolding derive_after
  derive_centroids [] = []
  derive_centroids (c ∷ cs) =
      (record { value = c.value; count = c.count }) ∷ derive_after c.count cs

write_tags : Map String → List String → String
write_tags tags [] = ""
write_tags tags (name ∷ names) =
    " " ++ name ++ "=" ++ or_else (lookup name tags) "" ++ write_tags tags names

abbrev print_bool : Bool → String
print_bool true = "true"
print_bool false = "false"

module _ {F : Type 0} where
  unfoldable pub override_tag : Distribution F → String → String → Distribution F
  override_tag d name value = record d { tags = insert name value d.tags }

  unfoldable pub add_tags : Distribution F → Map String → Distribution F
  unfolding add_all_new
  add_tags d tags = record d { tags = add_all_new tags d.tags }

  unfoldable pub set_source : Distribution F → String → Distribution F
  set_source d source = record d { source = source }

  unfoldable pub filter_tags : Distribution F → (String → Bool) → Distribution F
  filter_tags d pred = record d { tags = filter_keys pred d.tags }

  -- the text that `Key` hashes
  unfoldable pub key_text : Distribution F → String
  unfolding write_tags sort_strings
  key_text d =
      print_bool d.cumulative
      ++ " "
      ++ d.name
      ++ " source="
      ++ d.source
      ++ write_tags d.tags (sort_strings (keys d.tags))

-- `Key`: blake2b.Sum256 is a parameter
module _ {F : Type 0} (sum256 : String → String) where
  unfoldable pub key : Distribution F → String
  key d = sum256 (key_text d)
