-- ===== src/Timer/Delays.antt =====
-- Delays as the kernel is told them (`setDelay`, `setRepeating`, `getTimer` of src/net/Timer.cpp).
use simple_tcp.Prelude.{ℕ, ◌<◌, ◌≡◌, true, some, arith}
use simple_tcp.Timer.{
  Timer, TimerType, span_of, micros_of, no_span, new_timer, set_delay, set_repeating, get_timer,
}

-- The nanoseconds that `timerfd_settime` is given are in its range, and no microsecond is lost.
pub span_of_lem :
    (micros : ℕ) → ((span_of micros).nanos < 1000000000) × (micros_of (span_of micros) ≡ micros)
unfolding span_of
span_of_lem micros = omega arith

-- A timer that was set to repeat, by a call that succeeded, reports exactly its interval,
-- and one that was only given a delay reports exactly what is left of it, in whole microseconds.
pub get_timer_lem :
    (type : TimerType) (micros left : ℕ) (t : Timer)
    → (get_timer
          (some (set_repeating true type micros t).setting)
          (set_repeating true type micros t)
        ≡ micros)
      × (get_timer
            (some (record { value = span_of left; interval = no_span }))
            (set_delay true type micros new_timer)
          ≡ left)
unfolding set_repeating set_delay get_timer
get_timer_lem type micros left t = ((span_of_lem micros).1, (span_of_lem left).1)

-- A timer that once repeated reports 0 after `setDelay`, whatever the delay and what is left of it,
-- as `setDelay` does not clear `mIsRepeating` while it clears the interval.
pub stale_repeating :
    (type type' : TimerType) (micros delay left : ℕ) (t : Timer)
    → let t' = set_delay true type' delay (set_repeating true type micros t) in
      get_timer (some (record { value = span_of left; interval = t'.setting.interval })) t' ≡ 0
unfolding set_repeating set_delay get_timer
stale_repeating type type' micros delay left t = omega arith
