-- ===== src/Timer/Queue.antt =====
-- The life of a timer in src/net/TimerQueue.cpp.
use simple_tcp.Prelude.{ℕ, [], insert_new, false}
use simple_tcp.Timer.{TimerType, set_delay, new_timer, Entry, TimerQueue, Answers, run_queue}

-- the entry of a one-shot timer
abbrev pub once : {C : Type 0} → Answers → TimerType → ℕ → C → Entry C
once answers type delay cb = record {
  timer = set_delay answers.taken type delay new_timer;
  repeats = false;
  callback = cb;
}

module _ {C U : Type 0} where
  -- All that is queued is run.
  abbrev pub settled : TimerQueue C U → TimerQueue C U
  settled q = run_queue q.queued (record q { queued = [] })

  -- The table when a one-shot timer has been registered.
  abbrev pub registered : Answers → TimerType → ℕ → C → TimerQueue C U → TimerQueue C U
  registered answers type delay cb q = record q {
    timer_map = insert_new answers.clock (once answers type delay cb) q.timer_map;
    queued = [];
  }
