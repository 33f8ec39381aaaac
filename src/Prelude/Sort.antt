-- ===== src/Prelude/Sort.antt =====
-- sort.Slice and sort.Strings: insertion sort by a test. Elements that the test does not tell apart
-- keep their order, which Go leaves open.
use Prim.Native.Nat.{ℕ, ◌+◌, Ordering}
use mathlib.Core.Path.{◌≡◌, refl}
use native.Mathlib.Omega.{arith}
use wavefront_collector_for.Prelude.Lists.{sum_of, some_of, All}
use Prim.Native.String.{String, compare}
use mathlib.Core.Bool.{Bool, true, false, ◌||◌}
use mathlib.Core.List.{List, [], ◌∷◌, Perm}
use mathlib.Core.List.Perm
use wavefront_collector_for.Prelude.Tests.{if◌then◌else◌, Bool-cases}
use mathlib.Core.Logic.{inl, inr}

module _ {ℓ} {A : Type ℓ} (less : A → A → Bool) where
  unfoldable pub sort_insert : A → List A → List A
  sort_insert x [] = x ∷ []
  sort_insert x (y ∷ ys) = if less y x then y ∷ sort_insert x ys else x ∷ y ∷ ys

  unfoldable pub sort_by : List A → List A
  unfolding sort_insert
  sort_by [] = []
  sort_by (x ∷ xs) = sort_insert x (sort_by xs)

  sort_insert-Perm : (x : A) (xs : List A) → Perm (sort_insert x xs) (x ∷ xs)
  unfolding sort_insert
  sort_insert-Perm x [] = Perm.refl (x ∷ [])
  sort_insert-Perm x (y ∷ ys) = elim (Bool-cases (less y x)) [
    | inl e ↦ rw e (Perm.trans (Perm.cons y (sort_insert-Perm x ys)) (Perm.swap x y ys))
    | inr e ↦ rw e (Perm.refl (x ∷ y ∷ ys))
  ]

  -- Sorting permutes.
  pub sort_by-Perm : (xs : List A) → Perm (sort_by xs) xs
  unfolding sort_by
  sort_by-Perm [] = Perm.refl []
  sort_by-Perm (x ∷ xs) =
      Perm.trans (sort_insert-Perm x (sort_by xs)) (Perm.cons x (sort_by-Perm xs))

module _ {ℓ} {A : Type ℓ} (less : A → A → Bool) where
  sum_of-sort_insert :
      (g : A → ℕ) (x : A) (xs : List A) → sum_of g (sort_insert less x xs) ≡ g x + sum_of g xs
  unfolding sort_insert
  sum_of-sort_insert g x [] = refl
  sum_of-sort_insert g x (y ∷ ys) = ground (arith, sum_of-sort_insert g x ys)

  pub sum_of-sort_by : (g : A → ℕ) (xs : List A) → sum_of g (sort_by less xs) ≡ sum_of g xs
  unfolding sort_by
  sum_of-sort_by g [] = refl
  sum_of-sort_by g (x ∷ xs) =
      omega (arith, sum_of-sort_insert g x (sort_by less xs), sum_of-sort_by g xs)

some_of-sort_insert {ℓ} :
    {A : Type ℓ} (less : A → A → Bool) (p : A → Bool) (x : A) (xs : List A)
    → some_of p (sort_insert less x xs) ≡ (p x || some_of p xs)
unfolding some_of sort_insert
some_of-sort_insert less p x [] = ground arith
some_of-sort_insert less p x (y ∷ ys) = ground (arith, some_of-sort_insert less p x ys)

pub some_of-sort_by {ℓ} :
    {A : Type ℓ} (less : A → A → Bool) (p : A → Bool) (xs : List A)
    → some_of p (sort_by less xs) ≡ some_of p xs
unfolding some_of sort_by
some_of-sort_by less p [] = refl
some_of-sort_by less p (x ∷ xs) =
    ground (arith, some_of-sort_insert less p x (sort_by less xs), some_of-sort_by less p xs)

All-sort_insert {ℓ κ} :
    {A : Type ℓ} (less : A → A → Bool) (P : A → Type κ) (x : A) (xs : List A)
    → P x
    → All P xs
    → All P (sort_insert less x xs)
unfolding sort_insert
All-sort_insert less P x [] p a = (p, tt)
All-sort_insert less P x (y ∷ ys) p (q, a) = elim (Bool-cases (less y x)) [
  | inl t ↦ rw t (q, All-sort_insert less P x ys p a)
  | inr t ↦ rw t (p, (q, a))
]

pub All-sort_by {ℓ κ} :
    {A : Type ℓ} (less : A → A → Bool) (P : A → Type κ) (xs : List A)
    → All P xs
    → All P (sort_by less xs)
unfolding sort_by
All-sort_by less P [] a = tt
All-sort_by less P (x ∷ xs) (p, a) =
    All-sort_insert less P x (sort_by less xs) p (All-sort_by less P xs a)

-- the order of Go's strings: bytes, from the left
abbrev pub string_less : String → String → Bool
string_less s t = elim (compare s t) [ Ordering.lt ↦ true | _ ↦ false ]

unfoldable pub sort_strings : List String → List String
unfolding sort_by
sort_strings xs = sort_by string_less xs
