-- ===== src/Float64.antt =====
-- Go's `float64` is not implemented by the repository: its operations are a parameter of the model.
-- A carrier with the operations that the code applies. No law is assumed here; a theorem that needs
-- one names it as a hypothesis. `nat` is an instance over the natural numbers, for the tests.
use wavefront_collector_for.Prelude.{ℕ, ◌+◌, ◌-◌, ◌*◌, ◌/◌, ◌^◌, Bool, ltb, leb, eqb, if◌then◌else◌}

pub record Float64 (F : Type 0) : Type 0 where
  pub zero : F
  pub one : F
  pub two : F
  pub four : F
  pub inf : F
  pub max_float64 : F
  pub add : F → F → F
  pub sub : F → F → F
  pub mul : F → F → F
  pub div : F → F → F
  pub trunc : F → F
  pub max : F → F → F
  pub lt : F → F → Bool
  pub le : F → F → Bool
  pub eq : F → F → Bool
  -- float64(n) of the int64 with the two's complement bits n
  pub of_int64 : ℕ → F
  -- int(x), as the bits of an int64
  pub to_int : F → ℕ
  -- the minutes of a positive time.Duration of so many nanoseconds
  pub minutes : ℕ → F

instance abbrev pub nat : Float64 ℕ
nat = record {
  zero = 0;
  one = 1;
  two = 2;
  four = 4;
  inf = 2 ^ 70;
  max_float64 = 2 ^ 69;
  add = λ a b. a + b;
  sub = λ a b. a - b;
  mul = λ a b. a * b;
  div = λ a b. a / b;
  trunc = λ a. a;
  max = λ a b. if ltb a b then b else a;
  lt = ltb;
  le = leb;
  eq = eqb;
  of_int64 = λ n. n;
  to_int = λ n. n;
  minutes = λ n. n / 60000000000;
}
