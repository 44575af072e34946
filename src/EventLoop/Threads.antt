-- ===== src/EventLoop/Threads.antt =====
-- In which thread the work for a loop runs (`isInLoopThread`, `runInLoop`, `quitLoop` of
-- src/net/EventLoop.cpp).
use simple_tcp.Prelude.{ℕ, ◌≡◌, ◌≢◌, refl, [], ◌∷◌, ◌++◌, Bool, true, some, none, M, ok, ◌+◌}
use simple_tcp.EventLoop.{Loop, is_in_loop_thread, run_in_loop, queue_in_loop, quit_loop, wakeup}

module _ {ℓ κ} {T : Type ℓ} {S : Type κ} (exec : T → M (Loop T S) (Unit {0})) where
  -- For a thread without a loop, when the write to the event descriptor succeeds, `runInLoop` and
  -- `quitLoop` leave the work to the loop's thread and wake it: the task is queued last and not run,
  -- and the loop is told to leave. For the thread of the loop itself the task runs at once, nothing
  -- is queued, and no wake-up is written.
  pub run_in_loop_lem :
      (self : ℕ) (task : T) (l : Loop T S)
      → (run_in_loop exec none self true task l
          ≡ ok tt (record l { pending = l.pending ++ (task ∷ []); wakeups = l.wakeups + 1 }))
        × (quit_loop none self true l ≡ ok tt (record l { exit = true; wakeups = l.wakeups + 1 }))
        × (run_in_loop exec (some self) self true task l ≡ exec task l)
        × (quit_loop (some self) self true l ≡ ok tt (record l { exit = true }))
  unfolding run_in_loop quit_loop queue_in_loop wakeup is_in_loop_thread
  run_in_loop_lem self task l = (refl, refl, refl, refl)

  -- For the thread of any other loop everything goes as for the loop's own thread: the task runs in
  -- the caller, whatever it is, and a loop that waits in its poller is told to leave but not woken.
  pub foreign_loop :
      (self other : ℕ) (written : Bool) (task : T) (l : Loop T S)
      → other ≢ self
      → (run_in_loop exec (some other) self written task l ≡ exec task l)
        × (quit_loop (some other) self written l ≡ ok tt (record l { exit = true }))
  unfolding run_in_loop quit_loop is_in_loop_thread
  foreign_loop self other written task l different = (refl, refl)
