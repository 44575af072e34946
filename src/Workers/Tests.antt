-- ===== src/Workers/Tests.antt =====
-- Runs of ThreadPool, and its theorems at a pool of two workers. A task is a number.
use simple_tcp.Prelude.{ℕ, ◌≡◌, refl, [], ◌∷◌, true, false, some}
use simple_tcp.Workers.{ThreadPool, idle, busy, gone, fresh, enqueue, take_task, turn}
use simple_tcp.Workers.History.{
  Run, enqueued, turned, here, next, all_tasks, Run-all_tasks, Run-exited,
}

-- two workers after `exit`, the first of which still runs task 7
abbrev sample : ThreadPool ℕ
sample = record { exited = true; workers = busy 7 ∷ idle ∷ []; tasks = 8 ∷ []; started = 7 ∷ [] }

first_steps :
    fresh {T = ℕ} 3 2
    ≡ some (record { exited = false; workers = idle ∷ idle ∷ []; tasks = []; started = [] })
unfolding fresh
first_steps = refl

-- the second worker leaves, and the first, after its task, too
both_leave : turn 0 (turn 0 (turn 1 sample)) ≡ record sample { workers = gone ∷ gone ∷ [] }
unfolding turn take_task
both_leave = refl

history : Run sample (9 ∷ []) (turn 1 (enqueue 9 sample))
history = next (next here (enqueued 9)) (turned 1)

Run-all_tasks_example : all_tasks (turn 1 (enqueue 9 sample)) ≡ 7 ∷ 8 ∷ 9 ∷ []
Run-all_tasks_example = Run-all_tasks history

Run-exited_example :
    ((turn 1 (enqueue 9 sample)).exited ≡ true) × ((turn 1 (enqueue 9 sample)).started ≡ 7 ∷ [])
Run-exited_example = Run-exited refl history
