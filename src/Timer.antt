-- ===== src/Timer.antt =====
-- class Timer and class TimerQueue (src/net/Timer.cpp, src/net/TimerQueue.cpp): timers of the kernel,
-- and the table of those that a loop waits for.
pub mod Delays
pub mod Queue
mod Tests
use simple_tcp.Prelude.{
  ℕ, ◌+◌, ◌-◌, ◌*◌, ◌/◌, Bool, true, false, List, [], ◌∷◌, ◌++◌, Option, none, some, if◌then◌else◌,
  lookup, insert_new, erase, Outcome, M, ok, threw, abort, fault, hang, ◌>>◌, system_exception,
  network_exception, other_exception,
}

-- `timespec` and `itimerspec`. Delays are not negative.
pub record Span : Type 0 where
  pub secs : ℕ
  pub nanos : ℕ

pub record Setting : Type 0 where
  pub value : Span
  pub interval : Span

abbrev pub no_span : Span
no_span = record { secs = 0; nanos = 0 }

-- TimerType
pub data TimerType : Type 0 where
  relative absolute : TimerType

-- `duration_cast` of microseconds to whole seconds and the rest in nanoseconds
unfoldable pub span_of : ℕ → Span
span_of micros =
    let secs = micros / 1000000 in record { secs = secs; nanos = (micros - secs * 1000000) * 1000 }

-- A timer with the setting that the kernel last accepted, `mIsRepeating` and the flag of the last
-- call.
pub record Timer : Type 0 where
  pub setting : Setting
  pub absolute_time : Bool
  pub repeating : Bool

-- `createTimer`
abbrev pub new_timer : Timer
new_timer = record {
  setting = record { value = no_span; interval = no_span };
  absolute_time = false;
  repeating = false;
}

abbrev pub is_absolute : TimerType → Bool
is_absolute absolute = true
is_absolute relative = false

-- `timerfd_settime`, with whether it succeeded: a failure is only logged.
abbrev pub settime : Bool → Bool → Setting → Timer → Timer
settime succeeds flag new t =
    if succeeds then record t { setting = new; absolute_time = flag } else t

-- `setDelay`
unfoldable pub set_delay : Bool → TimerType → ℕ → Timer → Timer
set_delay succeeds type micros t =
    settime succeeds (is_absolute type) (record { value = span_of micros; interval = no_span }) t

-- `setRepeating`
unfoldable pub set_repeating : Bool → TimerType → ℕ → Timer → Timer
set_repeating succeeds type micros t =
    let t' =
      settime succeeds (is_absolute type)
        (record { value = span_of micros; interval = span_of micros }) t in
    record t' { repeating = true }

-- `resetTimer`
unfoldable pub reset_timer : Bool → Timer → Timer
reset_timer succeeds t = settime succeeds false (record { value = no_span; interval = no_span }) t

-- microseconds of a span: `duration_cast` of both parts
abbrev pub micros_of : Span → ℕ
micros_of s = s.secs * 1000000 + s.nanos / 1000

-- `getTimer`: `now` is what `timerfd_gettime` gives, the time left and the interval.
unfoldable pub get_timer : Option Setting → Timer → ℕ
get_timer none t = 0
get_timer (some now) t = if t.repeating then micros_of now.interval else micros_of now.value

-- An entry of `mTimerMap`, as far as the callbacks of its channel read it. A callback is a value of `C`.
pub record Entry (C : Type 0) : Type 0 where
  pub timer : Timer
  pub repeats : Bool
  pub callback : C

-- What the queue has put in its loop.
pub data Task (C : Type 0) : Type 0 where
  register : ℕ → Entry C → Task C
  unregister : ℕ → Task C

-- `mTimerMap`, the loop's queue as far as the timers use it, and what the user's callbacks work on.
pub record TimerQueue (C U : Type 0) : Type 0 where
  pub timer_map : List (ℕ × Entry C)
  pub queued : List (Task C)
  pub user : U

-- INVALID_TIMER_ID
abbrev pub invalid_timer_id : ℕ
invalid_timer_id = 0

-- What the system answers to a new timer: whether `createTimer` made a descriptor and `timerfd_settime`
-- took the setting, what the clock reads, and whether `wakeup` could write.
pub record Answers : Type 0 where
  pub created : Bool
  pub taken : Bool
  pub clock : ℕ
  pub woken : Bool

module _ {C U : Type 0} where
  abbrev pub enqueue : Task C → TimerQueue C U → TimerQueue C U
  enqueue t q = record q { queued = q.queued ++ (t ∷ []) }

  -- `queueInLoop`: the task is queued before `wakeup` throws.
  unfoldable pub queue_in_loop : Bool → Task C → M (TimerQueue C U) (Unit {0})
  queue_in_loop woken t q =
      if woken then ok tt (enqueue t q) else threw system_exception (enqueue t q)

  -- the end of both functions that add a timer: the id that they give, and the queue that they leave
  abbrev pub added : ℕ → Outcome (TimerQueue C U) (Unit {0}) → Outcome (TimerQueue C U) ℕ
  added id (ok u q) = ok id q
  added id (threw system_exception q) = ok invalid_timer_id q
  added id (threw e q) = threw e q
  added id abort = abort
  added id fault = fault
  added id hang = hang

  -- `addOneshotTimer`: the id is the clock's reading.
  unfoldable pub add_oneshot_timer : Answers → TimerType → ℕ → C → M (TimerQueue C U) ℕ
  add_oneshot_timer answers type delay cb q =
      let timer = set_delay answers.taken type delay new_timer in
      let task =
        register answers.clock (record { timer = timer; repeats = false; callback = cb }) in
      if answers.created
      then added answers.clock (queue_in_loop answers.woken task q)
      else ok invalid_timer_id q

  -- `addRepeatingTimer`
  unfoldable pub add_repeating_timer : Answers → TimerType → ℕ → C → M (TimerQueue C U) ℕ
  add_repeating_timer answers type interval cb q =
      let timer = set_repeating answers.taken type interval new_timer in
      let task = register answers.clock (record { timer = timer; repeats = true; callback = cb }) in
      if answers.created
      then added answers.clock (queue_in_loop answers.woken task q)
      else ok invalid_timer_id q

  -- `removeTimer`
  unfoldable pub remove_timer : Bool → ℕ → M (TimerQueue C U) (Unit {0})
  remove_timer woken id = queue_in_loop woken (unregister id)

  -- What the queued lambdas do in the loop's thread.
  unfoldable pub run_task : Task C → TimerQueue C U → TimerQueue C U
  run_task (register id e) q = record q { timer_map = insert_new id e q.timer_map }
  run_task (unregister id) q = elim (lookup id q.timer_map) [
    | none ↦ q
    | some e ↦ record q { timer_map = erase id q.timer_map }
  ]

  -- The read callback of a timer's channel, where the table has the timer, with what the user's
  -- callbacks do.
  unfoldable pub fire :
      (C → M (TimerQueue C U) (Unit {0})) → Bool → ℕ → M (TimerQueue C U) (Unit {0})
  fire call woken id q = elim (lookup id q.timer_map) [
    | none ↦ ok tt q
    | some e ↦ elim e.repeats [
      | false ↦ (call e.callback >> remove_timer woken id) q
      | true ↦ call e.callback q
    ]
  ]

  -- the loop runs all that was queued
  unfoldable pub run_queue : List (Task C) → TimerQueue C U → TimerQueue C U
  run_queue [] q = q
  run_queue (t ∷ ts) q = run_queue ts (run_task t q)
