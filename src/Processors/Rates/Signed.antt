-- ===== src/Processors/Rates/Signed.antt =====
-- The CPU rate as a signed number of millicores.
use native.Mathlib.Nat.{div-le_self}
use wavefront_collector_for.Prelude.{
  ℕ, ◌-◌, ◌*◌, ◌/◌, ◌%◌, ◌^◌, ◌<◌, ◌≤◌, leb, leb→le, inl, inr, Bool-cases, ◌≡◌, arith,
  if◌then◌else◌,
}
use wavefront_collector_for.Float64.{Float64}
use wavefront_collector_for.Metrics.Types.{Value}
use wavefront_collector_for.Processors.Rates.{sub64, div64, cpu_rate}

sub64-le : (a b : ℕ) → b ≤ a → a < 2 ^ 63 → sub64 a b ≡ a - b
sub64-le a b h n = omega (arith, h, n)

sub64-lt : (a b : ℕ) → a < b → b < 2 ^ 63 → sub64 a b ≡ 2 ^ 64 - (b - a)
sub64-lt a b h n = omega (arith, h, n)

div64-positive : (a b : ℕ) → a < 2 ^ 63 → b < 2 ^ 63 → div64 a b ≡ a / b
unfolding div64
div64-positive a b h k = ground (arith, h, k, div-le_self a b)

div64-negative :
    (a b : ℕ) → 0 < a → a < 2 ^ 63 → b < 2 ^ 63 → div64 (2 ^ 64 - a) b ≡ (2 ^ 64 - a / b) % 2 ^ 64
unfolding div64
div64-negative a b p h k = ground (arith, p, h, k)

module _ {F : Type 0} ⦃f : Float64 F⦄ where
  -- Where both counts, a thousand times their distance and the nanoseconds between them are below
  -- 2^63 and these are not 0, the CPU rate is a thousand times the growth of the count by the nanoseconds, rounded towards
  -- zero; for a count that went down it is negative, as the two's complement has it.
  pub cpu_rate-signed :
      (old new : Value F) (nanos : ℕ)
      → old.int_value < 2 ^ 63
      → new.int_value < 2 ^ 63
      → 1000 * (new.int_value - old.int_value) < 2 ^ 63
      → 1000 * (old.int_value - new.int_value) < 2 ^ 63
      → 0 < nanos
      → nanos < 2 ^ 63
      → (cpu_rate old new nanos).int_value ≡ (
          if leb old.int_value new.int_value
          then 1000 * (new.int_value - old.int_value) / nanos
          else (2 ^ 64 - 1000 * (old.int_value - new.int_value) / nanos) % 2 ^ 64)
  unfolding cpu_rate
  cpu_rate-signed old new nanos o n up down positive t =
      let a = old.int_value in
      let b = new.int_value in
      elim (Bool-cases (leb a b)) [
        | inl grown ↦
            let le = leb→le a b grown in
            let numerator : (1000 * sub64 b a) % 2 ^ 64 ≡ 1000 * (b - a) =
              omega (arith, sub64-le b a le n, up) in
            rw (grown, numerator) (div64-positive (1000 * (b - a)) nanos up t)
        | inr shrunk ↦
            let lt : b < a = ground (arith, shrunk) in
            let numerator : (1000 * sub64 b a) % 2 ^ 64 ≡ 2 ^ 64 - 1000 * (a - b) =
              omega (arith, sub64-lt b a lt o, down, lt) in
            rw (shrunk, numerator)
              (div64-negative (1000 * (a - b)) nanos (omega (arith, lt)) down t)
      ]
