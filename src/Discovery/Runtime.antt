-- ===== src/Discovery/Runtime.antt =====
-- plugins/discovery/config.go, with NotifyOfChanges of manager.go: rules that are read from config maps
-- and secrets while the collector runs. Reading YAML is a parameter, which gives the rules of a text.
-- What the combined configuration has from the wired one, its rules apart, never changes and is left
-- out. The slice of wired rules has an array of its own, which may be longer than the slice: appending
-- to the slice writes to that array as long as it is long enough, and the array is part of the state. A
-- slice that append has copied is met by nothing else, and is its list.
pub mod Combined
use wavefront_collector_for.Prelude.{
  ℕ, ◌+◌, zero, suc, String, List, [], ◌∷◌, ◌++◌, Option, none, some, Bool, true, false, not, ◌==◌,
  leb, length, is_some, or_else, and_then, if◌then◌else◌,
}
use wavefront_collector_for.Prelude.Maps.{Map, lookup, insert, delete}
use wavefront_collector_for.Prelude.Sort.{sort_by, string_less}

module _ {A : Type 0} where
  unfoldable pub take : ℕ → List A → List A
  take zero xs = []
  take (suc n) [] = []
  take (suc n) (x ∷ xs) = x ∷ take n xs

  -- the array with the elements written from position n on
  unfoldable pub write : ℕ → List A → List A → List A
  write n [] cells = cells
  write n (x ∷ xs) [] = []
  write zero (x ∷ xs) (c ∷ cells) = x ∷ write zero xs cells
  write (suc n) (x ∷ xs) (c ∷ cells) = c ∷ write n (x ∷ xs) cells

-- the first elements of the shared array, or a list
pub data Slice (A : Type 0) : Type 0 where
  shared : ℕ → Slice A
  own : List A → Slice A

module _ {A : Type 0} where
  unfoldable pub contents : Slice A → List A → List A
  unfolding take
  contents (shared n) cells = take n cells
  contents (own xs) cells = xs

  -- append(s, xs...), with the array afterwards
  unfoldable pub append : Slice A → List A → List A → Slice A × List A
  unfolding write take
  append (shared n) xs cells =
      if leb (n + length xs) (length cells)
      then (shared (n + length xs), write n xs cells)
      else (own (take n cells ++ xs), cells)
  append (own ys) xs cells = (own (ys ++ xs), cells)

  -- one append after the other
  unfoldable pub append_each : List (List A) → Slice A → List A → Slice A × List A
  unfolding append
  append_each [] s cells = (s, cells)
  append_each (xs ∷ more) s cells = let (t, after) = append s xs cells in append_each more t after

pub record ConfigHandler (R : Type 0) : Type 0 where
  -- the wired rules: how many, and their array
  pub wired : ℕ
  pub cells : List R
  pub runtime_cfgs : Map (List R)

abbrev pub runtime_annotated : Map String → Bool
runtime_annotated annotations =
    or_else (lookup "wavefront.com/discovery-config" annotations) "" == "true"

module _ {R : Type 0} (from_yaml : String → Option (List R)) where
  -- the rules of all texts, or the first error
  unfoldable pub load : Map String → Option (List R)
  load [] = some []
  load ((key, config) ∷ texts) =
      let rest = load texts in
      and_then (from_yaml config) (λ rules. and_then rest (λ others. some (rules ++ others)))

  unfoldable pub deleted : String → ConfigHandler R → ConfigHandler R
  deleted name h = record h { runtime_cfgs = delete name h.runtime_cfgs }

  abbrev put_loaded : String → Option (List R) → ConfigHandler R → ConfigHandler R
  put_loaded name none h = h
  put_loaded name (some rules) h = record h { runtime_cfgs = insert name rules h.runtime_cfgs }

  -- of a config map or a secret, by its name, its annotations and its texts
  unfoldable pub updated : String → Map String → Map String → ConfigHandler R → ConfigHandler R
  unfolding deleted load
  updated name annotations texts h =
      if not (runtime_annotated annotations) then deleted name h else put_loaded name (load texts) h

abbrev values_of : {V : Type 0} → Map V → List V
values_of [] = []
values_of ((k, v) ∷ m) = v ∷ values_of m

module _ {R : Type 0} where
  -- Config: the combined rules, with the array afterwards; `internal` are the rules of the plugin
  -- provider, if there is one. Appending no rules does nothing.
  unfoldable pub appended : Option (List R) → ConfigHandler R → List (List R)
  appended internal h =
      values_of (sort_by (λ a b. string_less a.0 b.0) h.runtime_cfgs) ++ (or_else internal [] ∷ [])

  unfoldable pub config : Option (List R) → ConfigHandler R → Slice R × ConfigHandler R
  unfolding appended append_each
  config internal h =
      let (rules, cells) = append_each (appended internal h) (shared h.wired) h.cells in
      (rules, record h { cells = cells })

-- one round of NotifyOfChanges, with the value of the start: whether the notification is called
unfoldable pub notifies : {V : Type 0} → (V → V → Bool) → V → V → Bool
notifies deep_equal prev_val val = not (deep_equal val prev_val)
