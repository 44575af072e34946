-- ===== src/Workers.antt =====
-- class ThreadPool (include/base/ThreadPool.h): workers that take tasks from one queue, each turn of a
-- worker under the lock.
pub mod History
mod Tests
use simple_tcp.Prelude.{
  ℕ, zero, suc, Bool, true, false, ltb, if◌then◌else◌, List, [], ◌∷◌, ◌++◌, Option, none, some,
  get_elem?, replicate,
}

-- A worker: it waits for a task, or runs one, or has returned.
pub data Worker {ℓ} (T : Type ℓ) : Type ℓ where
  idle : Worker T
  busy : T → Worker T
  gone : Worker T

-- `started` are the tasks that a worker took, in the order in which they were taken.
pub record ThreadPool {ℓ} (T : Type ℓ) : Type ℓ where
  pub exited : Bool
  pub workers : List (Worker T)
  pub tasks : List T
  pub started : List T

module _ {ℓ} {T : Type ℓ} where
  abbrev pub set_at : ℕ → Worker T → List (Worker T) → List (Worker T)
  set_at i w [] = []
  set_at zero w (v ∷ ws) = w ∷ ws
  set_at (suc i) w (v ∷ ws) = v ∷ set_at i w ws

  -- The constructor, with `hardware_concurrency`: it throws for no threads.
  unfoldable pub fresh : ℕ → ℕ → Option (ThreadPool T)
  fresh max hardware =
      if ltb max 1
      then none
      else some (record {
        exited = false;
        workers = replicate (if ltb hardware max then hardware else max) idle;
        tasks = [];
        started = [];
      })

  -- `enqueue`
  unfoldable pub enqueue : T → ThreadPool T → ThreadPool T
  enqueue t p = record p { tasks = p.tasks ++ (t ∷ []) }

  -- `exit`
  unfoldable pub exit : ThreadPool T → ThreadPool T
  exit p = record p { exited = true }

  -- The destructor, after the workers have returned.
  unfoldable pub destroy : ThreadPool T → ThreadPool T
  destroy p = record p { exited = true; workers = []; tasks = [] }

  -- The `i`-th worker between two tasks: it returns after an exit, waits while there is no task, and
  -- else takes the first one.
  unfoldable pub take_task : ℕ → ThreadPool T → ThreadPool T
  take_task i p = elim p.exited [
    | true ↦ record p { workers = set_at i gone p.workers }
    | false ↦ elim p.tasks [
      | [] ↦ p
      | t ∷ ts ↦ record p {
        workers = set_at i (busy t) p.workers;
        tasks = ts;
        started = p.started ++ (t ∷ []);
      }
    ]
  ]

  -- What the `i`-th worker does next.
  unfoldable pub turn : ℕ → ThreadPool T → ThreadPool T
  turn i p = elim (get_elem? p.workers i) [
    | none ↦ p
    | some w ↦ elim w [
      | idle ↦ take_task i p
      | busy t ↦ record p { workers = set_at i idle p.workers }
      | gone ↦ p
    ]
  ]
