-- ===== src/Timer/Elapsed.antt =====
-- What the timers measure.
use mmo_wow.Prelude.{
  ℕ, ◌+◌, ◌-◌, ◌%◌, ◌^◌, ◌≡◌, ◌<◌, true, false, ok, ltb, leb, if◌then◌else◌, arith,
}
use native.Mathlib.Nat.{mod-lt}
use mmo_wow.Timer.{
  ms_time_diff, IntervalTimer, interval_passed, interval_reset, signed_rem, PeriodicTimer,
  periodic_update, is_positive,
}

-- After `d` milliseconds the difference is `d` as long as the clock has not wrapped around, and one
-- too few from then on.
pub ms_time_diff-elapsed :
    (old d : ℕ)
    → old < 2 ^ 32
    → d < 2 ^ 32
    → ms_time_diff old ((old + d) % 2 ^ 32) ≡ (if ltb (old + d) (2 ^ 32) then d else d - 1)
unfolding ms_time_diff
ms_time_diff-elapsed old d h k = ground arith

-- An interval timer that has passed is reset to the rest of the interval, and has then not passed.
pub interval_reset-passed :
    (t : IntervalTimer)
    → 0 < t.interval
    → t.interval < 2 ^ 63
    → t.current < 2 ^ 63
    → interval_passed t ≡ true
    → (interval_reset t ≡ ok (record t { current = t.current % t.interval }))
      × (interval_passed (record t { current = t.current % t.interval }) ≡ false)
unfolding interval_reset interval_passed signed_rem
interval_reset-passed t p a b h =
    let m = mod-lt t.current p in (ground (arith, m), ground (arith, m))

-- A periodic timer fires exactly when the time left is used up, and has time left afterwards.
pub periodic_update-fires :
    (t : PeriodicTimer) (diff : ℕ)
    → is_positive t.expire_time ≡ true
    → is_positive t.period ≡ true
    → diff < 2 ^ 31
    → ((periodic_update diff t).0 ≡ leb t.expire_time diff)
      × (is_positive (periodic_update diff t).1.expire_time ≡ true)
unfolding periodic_update
periodic_update-fires t diff h k d = ground arith
