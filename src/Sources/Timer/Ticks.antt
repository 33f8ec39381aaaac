-- ===== src/Sources/Timer/Ticks.antt =====
-- A timer fires at whole intervals after its start.
use native.Mathlib.Nat.{
  mod-lt, div-add-mod', div-mul-le_self, lt-div-mul-add, mul-mod_left, add-mod_right,
}
use wavefront_collector_for.Prelude.{
  ℕ, suc, ◌+◌, ◌-◌, ◌*◌, ◌/◌, ◌%◌, ◌≤◌, ◌<◌, ◌≡◌, sym, ap, ◌∙◌, zero, ltb, arith, if◌then◌else◌,
}
use wavefront_collector_for.Float64.{Float64}
use wavefront_collector_for.Sources.Timer.{intervals_missed, scale_interval, wait_to_next_interval}

to_next : (i q r : ℕ) → r ≤ i → (q * i + r) + (i - r) ≡ (suc q) * i
to_next i q r h = omega arith

on_a_tick : (i d : ℕ) → 0 < i → (d + (i - d % i)) % i ≡ 0
on_a_tick i d pos =
    ap (λ x. (x + (i - d % i)) % i) (sym (div-add-mod' d i))
    ∙ ap (λ x. x % i) (to_next i (d / i) (d % i) (omega (arith, mod-lt d pos)))
    ∙ mul-mod_left (suc (d / i)) i

module _ {F : Type 0} ⦃fl : Float64 F⦄ (small : F) where
  -- If a thirtieth of the interval, as the code rounds it, is no longer than the interval, the wait is
  -- at least that long, at most the interval and that together, and ends on a whole number of intervals.
  pub wait-Ticks :
      (interval diff : ℕ)
      → 0 < interval
      → scale_interval interval small ≤ interval
      → let wait = wait_to_next_interval small interval diff in
        (scale_interval interval small ≤ wait)
        × (wait ≤ interval + scale_interval interval small)
        × ((diff + wait) % interval ≡ 0)
  unfolding wait_to_next_interval
  wait-Ticks interval diff pos h = ground (
    arith,
    pos,
    h,
    mod-lt diff pos,
    on_a_tick interval diff pos,
    add-mod_right (diff + (interval - diff % interval)) interval,
  )

around :
    (i since q : ℕ)
    → 0 < i
    → q * i ≤ since
    → since < q * i + i
    → let missed = if ltb since i then 0 else q - 1 in
      (missed * i ≤ since) × (since < (missed + 2) * i)
around i since zero pos lo hi = ground arith
around i since (suc q) pos lo hi = grind arith

-- The missed intervals are the whole intervals since the last reset but one, and none before the
-- second is complete.
pub intervals_missed_lem :
    (interval since : ℕ)
    → 0 < interval
    → (intervals_missed interval since * interval ≤ since)
      × (since < (intervals_missed interval since + 2) * interval)
unfolding intervals_missed
intervals_missed_lem interval since pos =
    around interval since (since / interval) pos (div-mul-le_self since interval)
      (lt-div-mul-add pos)
