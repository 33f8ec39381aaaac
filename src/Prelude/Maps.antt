-- ===== src/Prelude/Maps.antt =====
-- Go's maps with string keys, as association lists. The order of the list is the order in which one
-- `range` visits the entries; Go leaves that order open, so a theorem about every list covers it.
use Prim.Native.Nat.{suc, ◌≤◌}
use Prim.Native.String.{String}
use mathlib.Core.Bool.{false}
use mathlib.Core.Path.{◌≡◌, refl}
use mathlib.Core.Option.{Option, none, some}
use mathlib.Core.List.{List, [], ◌∷◌}
use native.Mathlib.Omega.{arith}
use text.Mathlib.Text.{◌==◌}
use text.Mathlib.TextEquality.{eq_iff}
use text.Mathlib.TextPositions.{eq_refl}
use mathlib.Core.Logic.{inl, inr}
use wavefront_collector_for.Prelude.Tests.{if◌then◌else◌, is_some, Bool-cases}
use wavefront_collector_for.Prelude.Lists.{length}

abbrev pub Map {ℓ} : Type ℓ → Type ℓ
Map V = List (String × V)

module _ {ℓ} {V : Type ℓ} where
  -- v, ok := m[k]
  unfoldable pub lookup : String → Map V → Option V
  lookup k [] = none
  lookup k ((j, v) ∷ m) = if j == k then some v else lookup k m

  -- m[k] = v
  unfoldable pub insert : String → V → Map V → Map V
  insert name new [] = (name, new) ∷ []
  insert name new ((taken, old) ∷ entries) =
      let rest = insert name new entries in
      if taken == name then (name, new) ∷ entries else (taken, old) ∷ rest

  -- delete(m, k)
  unfoldable pub delete : String → Map V → Map V
  delete k [] = []
  delete k ((j, w) ∷ m) = let rest = delete k m in if j == k then rest else (j, w) ∷ rest

  -- for k, v := range src { dst[k] = v }
  unfoldable pub copy_into : Map V → Map V → Map V
  copy_into [] dst = dst
  copy_into ((k, v) ∷ src) dst = copy_into src (insert k v dst)

  unfoldable pub keys : Map V → List String
  keys [] = []
  keys ((k, v) ∷ m) = k ∷ keys m

  pub lookup-insert :
      (written read : String) (new : V) (entries : Map V)
      → lookup read (insert written new entries)
        ≡ (if written == read then some new else lookup read entries)
  unfolding lookup insert
  lookup-insert written read new [] = refl
  lookup-insert written read new ((name, old) ∷ entries) = ground (
    arith,
    lookup-insert written read new entries,
    eq_iff name written,
    eq_iff name read,
    eq_iff written read,
  )

  pub lookup-delete :
      (k j : String) (m : Map V) → lookup j (delete k m) ≡ (if k == j then none else lookup j m)
  unfolding lookup delete
  lookup-delete k j [] = ground arith
  lookup-delete k j ((i, w) ∷ m) =
      ground (arith, eq_iff k j, eq_iff i k, eq_iff i j, lookup-delete k j m)

  pub length-insert :
      (k : String) (v : V) (m : Map V)
      → length (insert k v m) ≡ (if is_some (lookup k m) then length m else suc (length m))
  unfolding lookup insert
  length-insert k v [] = refl
  length-insert k v ((i, w) ∷ m) = ground (arith, length-insert k v m)

  pub length-delete-le : (k : String) (m : Map V) → length (delete k m) ≤ length m
  unfolding delete
  length-delete-le k [] = omega arith
  length-delete-le k ((i, w) ∷ m) = ground (arith, length-delete-le k m)

module _ {ℓ} {V : Type ℓ} where
  -- no key stands twice, as in every map of the program
  abbrev pub Distinct : Map V → Type ℓ
  Distinct [] = Unit
  Distinct ((k, v) ∷ m) = (lookup k m ≡ none) × Distinct m

  abbrev pub first_of : Option V → Option V → Option V
  first_of none o = o
  first_of (some v) o = some v

  pub lookup-copy_into :
      (k : String) (src dst : Map V)
      → Distinct src
      → lookup k (copy_into src dst) ≡ first_of (lookup k src) (lookup k dst)
  unfolding lookup copy_into
  lookup-copy_into k [] dst d = refl
  lookup-copy_into k ((j, v) ∷ src) dst d =
      ground (
        arith,
        lookup-copy_into k src (insert j v dst) d.1,
        lookup-insert j k v dst,
        eq_iff j k,
        d.0,
      )

  lookup-insert_absent :
      (k j : String) (v : V) (m : Map V)
      → (k == j) ≡ false
      → lookup j m ≡ none
      → lookup j (insert k v m) ≡ none
  lookup-insert_absent k j v m e h = rw (lookup-insert, e) h

  pub Distinct-insert : (k : String) (v : V) (m : Map V) → Distinct m → Distinct (insert k v m)
  unfolding insert lookup
  Distinct-insert k v [] d = (refl, tt)
  Distinct-insert k v ((j, w) ∷ m) d = elim (Bool-cases (j == k)) [
    | inl e ↦ rw e ((rw ((eq_iff j k).0 e) at d.0), d.1)
    | inr e ↦ rw e (
      lookup-insert_absent k j v m (ground (arith, eq_iff j k, eq_iff k j)) d.0,
      Distinct-insert k v m d.1,
    )
  ]

  pub Distinct-copy_into : (src dst : Map V) → Distinct dst → Distinct (copy_into src dst)
  unfolding copy_into
  Distinct-copy_into [] dst d = d
  Distinct-copy_into ((k, v) ∷ src) dst d =
      Distinct-copy_into src (insert k v dst) (Distinct-insert k v dst d)

pub ruleset map_laws = (lookup-insert, lookup-delete, eq_refl)
