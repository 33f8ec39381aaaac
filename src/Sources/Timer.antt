-- ===== src/Sources/Timer.antt =====
-- plugins/sources/interval_timer.go: the wait between two scrapes. A duration that is not negative is
-- its nanoseconds. The float64 0.0333 is a parameter.
pub mod Ticks
use wavefront_collector_for.Prelude.{ℕ, ◌+◌, ◌-◌, ◌/◌, ◌%◌, Bool, ltb, if◌then◌else◌}
use wavefront_collector_for.Float64.{Float64}

-- intervalsMissed, `since` after the last reset
unfoldable pub intervals_missed : ℕ → ℕ → ℕ
intervals_missed interval since = if ltb since interval then 0 else since / interval - 1

unfoldable pub scale_interval : {F : Type 0} ⦃fl : Float64 F⦄ → ℕ → F → ℕ
scale_interval ⦃fl⦄ interval ratio = fl.to_int (fl.mul (fl.of_int64 interval) ratio)

-- waitToNextInterval, `diff` after the start
unfoldable pub wait_to_next_interval : {F : Type 0} ⦃fl : Float64 F⦄ → F → ℕ → ℕ → ℕ
wait_to_next_interval small interval diff =
    let wait = interval - diff % interval in
    if ltb wait (scale_interval interval small) then wait + interval else wait

pub record IntervalTimer : Type 0 where
  pub interval : ℕ
  pub start_time : ℕ
  pub last_reset_time : ℕ
  -- when the timer fires
  pub due : ℕ

unfoldable pub new_interval_timer : ℕ → ℕ → IntervalTimer
new_interval_timer interval now = record {
  interval = interval;
  start_time = now;
  last_reset_time = now;
  due = now + interval;
}

-- Reset, at the time `now`: the number of missed intervals, and the timer set anew
unfoldable pub reset : {F : Type 0} ⦃fl : Float64 F⦄ → F → ℕ → IntervalTimer → ℕ × IntervalTimer
reset small now t = (
  intervals_missed t.interval (now - t.last_reset_time),
  record t {
    last_reset_time = now;
    due = now + wait_to_next_interval small t.interval (now - t.start_time);
  },
)
