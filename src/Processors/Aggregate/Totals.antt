-- ===== src/Processors/Aggregate/Totals.antt =====
-- What aggregation does to one metric of the destination, as arithmetic modulo 2 ^ 64.
use wavefront_collector_for.Prelude.{
  ℕ, suc, ◌+◌, ◌*◌, ◌%◌, ◌^◌, ◌≢◌, String, List, [], ◌∷◌, Option, none, some, Bool, true, false,
  ◌≡◌, ◌==◌, eq_iff, arith, if◌then◌else◌,
}
use wavefront_collector_for.Prelude.Maps.{Map, lookup, insert, lookup-insert}
use wavefront_collector_for.Prelude.Result.{ok, >>=-eq-ok}
use wavefront_collector_for.Float64.{Float64}
use wavefront_collector_for.Metrics.Types.{Value, ValueType, value_int64, value_float, value_other}
use wavefront_collector_for.Processors.Aggregate.{
  aggregated, aggregate_one, aggregate, source_count, aggregate_count,
}

-- the number of times that a name stands in a list
unfoldable pub times : String → List String → ℕ
times m [] = 0
times m (n ∷ ns) = if n == m then suc (times m ns) else times m ns

abbrev int_if : {F : Type 0} → ValueType → Value F → ℕ
int_if value_int64 v = v.int_value
int_if value_float v = 0
int_if (value_other n) v = 0

-- the integer that a value stands for: a missing value and a float count as 0
abbrev pub int_of : {F : Type 0} → Option (Value F) → ℕ
int_of none = 0
int_of (some v) = int_if v.value_type v

-- the count that a set holds under a name, 0 if there is none
abbrev pub count_in : {F : Type 0} → Option (Value F) → ℕ
count_in none = 0
count_in (some v) = v.int_value

-- one more round of the sum
add_round :
    (b : Bool) (d s e t r : ℕ)
    → e % 2 ^ 64 ≡ (d + (if b then s else 0)) % 2 ^ 64
    → r % 2 ^ 64 ≡ (e + t * s) % 2 ^ 64
    → r % 2 ^ 64 ≡ (d + (if b then suc t else t) * s) % 2 ^ 64
add_round true d s e t r h k = omega arith
add_round false d s e t r h k = omega arith

module _ {F : Type 0} ⦃fl : Float64 F⦄ where
  int_of-aggregated :
      (m : String) (v a : Value F) (d : Option (Value F))
      → aggregated m v d ≡ ok a
      → int_of (some a) % 2 ^ 64 ≡ (int_of d + int_of (some v)) % 2 ^ 64
  unfolding aggregated
  int_of-aggregated m v a none h = ground arith
  int_of-aggregated m v a (some d) h = ground arith

  int_of-aggregate_one :
      (n m : String) (v : Option (Value F)) (dst dst' : Map (Value F))
      → aggregate_one n v dst ≡ ok dst'
      → int_of (lookup m dst') % 2 ^ 64
        ≡ (int_of (lookup m dst) + (if n == m then int_of v else 0)) % 2 ^ 64
  unfolding aggregate_one
  int_of-aggregate_one n m none dst dst' h = ground arith
  int_of-aggregate_one n m (some v) dst dst' h =
      let (a, p, q) = >>=-eq-ok (aggregated n v (lookup n dst)) (λ b. ok (insert n b dst)) h in
      ground
        (arith, int_of-aggregated n v a (lookup n dst) p, lookup-insert n m a dst, eq_iff n m, q)

  -- After a successful aggregation each metric has grown, modulo 2 ^ 64, by the source's integer, once
  -- for each time that the list names it, where a missing value and a float count as 0.
  pub int_of-aggregate :
      (src dst dst' : Map (Value F)) (ms : List String) (m : String)
      → aggregate src dst ms ≡ ok dst'
      → int_of (lookup m dst') % 2 ^ 64
        ≡ (int_of (lookup m dst) + times m ms * int_of (lookup m src)) % 2 ^ 64
  unfolding aggregate times
  int_of-aggregate src dst dst' [] m h = ground arith
  int_of-aggregate src dst dst' (n ∷ ms) m h =
      let (d, p, q) = >>=-eq-ok (aggregate_one n (lookup n src) dst) (λ d. aggregate src d ms) h in
      let one : int_of (lookup m d) % 2 ^ 64
          ≡ (int_of (lookup m dst) + (if n == m then int_of (lookup m src) else 0)) % 2 ^ 64 =
        ground (arith, int_of-aggregate_one n m (lookup n src) dst d p, eq_iff n m) in
      add_round (n == m) (int_of (lookup m dst)) (int_of (lookup m src)) (int_of (lookup m d))
        (times m ms) (int_of (lookup m dst')) one (int_of-aggregate src d dst' ms m q)

  lookup-aggregate_one :
      (n m : String) (v : Option (Value F)) (dst dst' : Map (Value F))
      → n ≢ m
      → aggregate_one n v dst ≡ ok dst'
      → lookup m dst' ≡ lookup m dst
  unfolding aggregate_one
  lookup-aggregate_one n m none dst dst' e h = ground arith
  lookup-aggregate_one n m (some v) dst dst' e h =
      let (a, p, q) = >>=-eq-ok (aggregated n v (lookup n dst)) (λ b. ok (insert n b dst)) h in
      ground (arith, lookup-insert n m a dst, eq_iff n m, q)

  -- A metric that the list does not name keeps its value.
  pub lookup-aggregate :
      (src dst dst' : Map (Value F)) (ms : List String) (m : String)
      → times m ms ≡ 0
      → aggregate src dst ms ≡ ok dst'
      → lookup m dst' ≡ lookup m dst
  unfolding aggregate times
  lookup-aggregate src dst dst' [] m t h = ground arith
  lookup-aggregate src dst dst' (n ∷ ms) m t h =
      let (d, p, q) = >>=-eq-ok (aggregate_one n (lookup n src) dst) (λ d. aggregate src d ms) h in
      ground (
        arith,
        lookup-aggregate_one n m (lookup n src) dst d,
        lookup-aggregate src d dst' ms m,
        eq_iff n m,
      )

  pub lookup-aggregate_count :
      (src dst : Map (Value F)) (n m : String)
      → n ≢ m
      → lookup m (aggregate_count src dst n) ≡ lookup m dst
  unfolding aggregate_count
  lookup-aggregate_count src dst n m h = rw lookup-insert (ground (arith, eq_iff n m))

  pub count_in-aggregate_count :
      (src dst : Map (Value F)) (n : String)
      → count_in (lookup n (aggregate_count src dst n)) % 2 ^ 64
        ≡ (count_in (lookup n dst) + source_count (lookup n src)) % 2 ^ 64
  unfolding aggregate_count
  count_in-aggregate_count src dst n = rw lookup-insert (ground (arith, eq_iff n n))
