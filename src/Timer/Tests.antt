-- ===== src/Timer/Tests.antt =====
-- Runs of Timer and TimerQueue, and their theorems at small values. A callback is a number, which it
-- writes down.
use simple_tcp.Prelude.{ℕ, ◌≡◌, refl, List, [], ◌∷◌, ◌++◌, true, false, M, ok}
use simple_tcp.Timer.{
  relative, span_of, new_timer, TimerQueue, Answers, enqueue, queue_in_loop, add_oneshot_timer,
  invalid_timer_id, register,
}
use simple_tcp.Timer.Queue.{once, registered}

half_second : span_of 1500000 ≡ record { secs = 1; nanos = 500000000 }
unfolding span_of
half_second = refl

-- one repeating timer, 5, is there
abbrev one_timer : TimerQueue ℕ (List ℕ)
one_timer = record {
  timer_map = (5, record { timer = new_timer; repeats = true; callback = 50 }) ∷ [];
  queued = [];
  user = [];
}

-- the clock reads 9
abbrev at_nine : Answers
at_nine = record { created = true; taken = true; clock = 9; woken = true }

-- a callback that asks for another timer
abbrev call : ℕ → M (TimerQueue ℕ (List ℕ)) (Unit {0})
call cb q = ok tt (record q {
  user = q.user ++ (cb ∷ []);
  queued = q.queued ++ (register 12 (once at_nine relative 7 120) ∷ []);
})

unwoken_is_queued :
    add_oneshot_timer (record at_nine { woken = false }) relative 3 90 one_timer
    ≡ ok invalid_timer_id (enqueue (register 9 (once at_nine relative 3 90)) one_timer)
unfolding add_oneshot_timer queue_in_loop
unwoken_is_queued = refl

abbrev fired : TimerQueue ℕ (List ℕ)
fired = record (registered at_nine relative 3 90 one_timer) {
  user = 90 ∷ [];
  queued = register 12 (once at_nine relative 7 120) ∷ [];
}
