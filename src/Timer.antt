-- ===== src/Timer.antt =====
-- Server/Common/Utilities/Timer.h. A signed integer is its two's complement word, `int32` below
-- 2 ^ 32, `time_t` and milliseconds below 2 ^ 64; arithmetic wraps around.
pub mod Elapsed
use mmo_wow.Prelude.{
  ℕ, ◌+◌, ◌-◌, ◌*◌, ◌%◌, ◌^◌, Bool, true, false, not, ◌&&◌, ◌||◌, Result, ok, err, division_by_zero,
  ltb, leb, u32, u64, sub_size, add_size, ◌==◌, if◌then◌else◌, ◌>>=◌,
}

-- `getMSTimeDiff(uint32, uint32)`
unfoldable pub ms_time_diff : ℕ → ℕ → ℕ
ms_time_diff old_time new_time =
    if ltb new_time old_time then u32 ((0xFFFFFFFF - old_time) + new_time) else new_time - old_time

-- signed tests and the order of 64-bit words
abbrev pub is_negative : ℕ → Bool
is_negative n = leb (2 ^ 63) n

abbrev pub signed_leb : ℕ → ℕ → Bool
signed_leb a b = leb (u64 (a + 2 ^ 63)) (u64 (b + 2 ^ 63))

abbrev pub magnitude : ℕ → ℕ
magnitude n = if is_negative n then 2 ^ 64 - n else n

-- `%` on 64-bit integers: the remainder has the sign of the dividend
unfoldable pub signed_rem : ℕ → ℕ → Result ℕ
signed_rem a b =
    if b == 0
    then err division_by_zero
    else (let r = magnitude a % magnitude b in ok (if is_negative a then sub_size 0 r else r))

pub record IntervalTimer : Type 0 where
  pub interval : ℕ
  pub current : ℕ

-- `IntervalTimer::Update(time_t)`
unfoldable pub interval_update : ℕ → IntervalTimer → IntervalTimer
interval_update diff t =
    let sum = add_size t.current diff in record t { current = if is_negative sum then 0 else sum }

-- `IntervalTimer::Passed`
unfoldable pub interval_passed : IntervalTimer → Bool
interval_passed t = signed_leb t.interval t.current

-- `IntervalTimer::Reset`
unfoldable pub interval_reset : IntervalTimer → Result IntervalTimer
unfolding signed_rem
interval_reset t =
    if signed_leb t.interval t.current
    then (signed_rem t.current t.interval >>= λ r. ok (record t { current = r }))
    else ok t

-- `IntervalTimer::SetCurrent` and `SetInterval`
unfoldable pub set_current : ℕ → IntervalTimer → IntervalTimer
set_current current t = record t { current = current }

unfoldable pub set_interval : ℕ → IntervalTimer → IntervalTimer
set_interval interval t = record t { interval = interval }

pub record TimeTracker : Type 0 where
  pub expiry_time : ℕ

-- `TimeTracker::Update(Milliseconds)`, `Passed` and `Reset(Milliseconds)`
unfoldable pub tracker_update : ℕ → TimeTracker → TimeTracker
tracker_update diff t = record { expiry_time = sub_size t.expiry_time diff }

unfoldable pub tracker_passed : TimeTracker → Bool
tracker_passed t = is_negative t.expiry_time || t.expiry_time == 0

unfoldable pub tracker_reset : ℕ → TimeTracker → TimeTracker
tracker_reset expiry t = record { expiry_time = expiry }

pub record PeriodicTimer : Type 0 where
  pub period : ℕ
  pub expire_time : ℕ

-- a 32-bit word as a signed integer: `> 0`, and the order
abbrev pub is_positive : ℕ → Bool
is_positive n = ltb 0 n && ltb n (2 ^ 31)

abbrev pub signed_ltb : ℕ → ℕ → Bool
signed_ltb a b = ltb (u32 (a + 2 ^ 31)) (u32 (b + 2 ^ 31))

-- `a > b ? a : b` on such words
abbrev pub larger : ℕ → ℕ → ℕ
larger a b = if signed_ltb b a then a else b

-- `PeriodicTimer::Update(uint32)`
unfoldable pub periodic_update : ℕ → PeriodicTimer → Bool × PeriodicTimer
periodic_update diff t =
    let left = u32 (t.expire_time + 2 ^ 32 - diff) in
    if is_positive left
    then (false, record t { expire_time = left })
    else (true, record t { expire_time = u32 (left + larger t.period diff) })

-- `PeriodicTimer::SetPeriodic`
unfoldable pub set_periodic : ℕ → ℕ → PeriodicTimer → PeriodicTimer
set_periodic period start_time t = record { period = period; expire_time = start_time }

-- `TUpdate`, `TPassed` and `TReset`
unfoldable pub t_update : ℕ → PeriodicTimer → PeriodicTimer
t_update diff t = record t { expire_time = u32 (t.expire_time + 2 ^ 32 - diff) }

unfoldable pub t_passed : PeriodicTimer → Bool
t_passed t = not (is_positive t.expire_time)

unfoldable pub t_reset : ℕ → ℕ → PeriodicTimer → PeriodicTimer
t_reset diff period t = record t { expire_time = u32 (t.expire_time + larger period diff) }
