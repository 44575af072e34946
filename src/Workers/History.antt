-- ===== src/Workers/History.antt =====
-- Histories of a ThreadPool (include/base/ThreadPool.h): callers and workers in any order.
use simple_tcp.Prelude.{
  ℕ, ◌≡◌, refl, sym, ap, subst, ◌∙◌, List, [], ◌∷◌, ◌++◌, append-nil, append_assoc, Bool, true,
  false, Option, none, some, arith, get_elem?,
}
use simple_tcp.Workers.{
  ThreadPool, Worker, idle, busy, gone, set_at, enqueue, exit, take_task, turn,
}

module _ {ℓ} {T : Type ℓ} where
  -- One thing that happens, with the tasks that it adds.
  pub data Step (p : ThreadPool T) : List T → ThreadPool T → Type ℓ where
    enqueued : (t : T) → Step p (t ∷ []) (enqueue t p)
    turned : (i : ℕ) → Step p [] (turn i p)
    asked_exit : Step p [] (exit p)

  pub data Run (p : ThreadPool T) : List T → ThreadPool T → Type ℓ where
    here : Run p [] p
    next :
        {ts more : List T} {q r : ThreadPool T} → Run p ts q → Step q more r → Run p (ts ++ more) r

  -- the tasks in the order in which they came
  abbrev pub all_tasks : ThreadPool T → List T
  all_tasks p = p.started ++ p.tasks

  take_exited :
      (i : ℕ) (p : ThreadPool T)
      → p.exited ≡ true
      → take_task i p ≡ record p { workers = set_at i gone p.workers }
  unfolding take_task
  take_exited i p e = ground (arith, e)

  take_none : (i : ℕ) (p : ThreadPool T) → p.exited ≡ false → p.tasks ≡ [] → take_task i p ≡ p
  unfolding take_task
  take_none i p e f = ground (arith, e, f)

  take_first :
      (i : ℕ) (t : T) (ts : List T) (p : ThreadPool T)
      → p.exited ≡ false
      → p.tasks ≡ t ∷ ts
      → take_task i p ≡ record p {
        workers = set_at i (busy t) p.workers;
        tasks = ts;
        started = p.started ++ (t ∷ []);
      }
  unfolding take_task
  take_first i t ts p e f = ground (arith, e, f)

  take_task-all_tasks : (i : ℕ) (p : ThreadPool T) → all_tasks (take_task i p) ≡ all_tasks p
  take_task-all_tasks i p = by_exited p.exited refl
    where
      by_tasks :
          p.exited ≡ false → (ts : List T) → p.tasks ≡ ts → all_tasks (take_task i p) ≡ all_tasks p
      by_tasks running [] e = ap (λ q. all_tasks q) (take_none i p running e)
      by_tasks running (t ∷ ts) e =
          ap (λ q. all_tasks q) (take_first i t ts p running e)
          ∙ append_assoc p.started (t ∷ []) ts
          ∙ ap (λ xs. p.started ++ xs) (sym e)

      by_exited : (b : Bool) → p.exited ≡ b → all_tasks (take_task i p) ≡ all_tasks p
      by_exited true e = ap (λ q. all_tasks q) (take_exited i p e)
      by_exited false e = by_tasks e p.tasks refl

  -- A turn either is a turn of a waiting worker or leaves the tasks alone.
  turn-all_tasks : (i : ℕ) (p : ThreadPool T) → all_tasks (turn i p) ≡ all_tasks p
  unfolding turn
  turn-all_tasks i p = by_worker (get_elem? p.workers i)
    where
      by_worker :
          (w : Option (Worker T))
          → all_tasks (elim w [
            | none ↦ p
            | some w ↦ elim w [
              | idle ↦ take_task i p
              | busy t ↦ record p { workers = set_at i idle p.workers }
              | gone ↦ p
            ]
          ])
            ≡ all_tasks p
      by_worker none = refl
      by_worker (some idle) = take_task-all_tasks i p
      by_worker (some (busy t)) = refl
      by_worker (some gone) = refl

  Step-all_tasks :
      {p q : ThreadPool T} {ts : List T} → Step p ts q → all_tasks q ≡ all_tasks p ++ ts
  unfolding enqueue exit
  Step-all_tasks {p = p} (enqueued t) = sym (append_assoc p.started p.tasks (t ∷ []))
  Step-all_tasks {p = p} (turned i) = turn-all_tasks i p ∙ sym (append-nil (all_tasks p))
  Step-all_tasks {p = p} asked_exit = sym (append-nil (all_tasks p))

  -- Over any history of calls of `enqueue` and `exit` and of turns of the workers: the tasks that were
  -- started, followed by those that wait, are what was there before followed by the tasks enqueued
  -- since, in order. So each task is started at most once, tasks start in the order in which they came,
  -- and none is lost.
  pub Run-all_tasks :
      {p q : ThreadPool T} {ts : List T} → Run p ts q → all_tasks q ≡ all_tasks p ++ ts
  Run-all_tasks {p = p} here = sym (append-nil (all_tasks p))
  Run-all_tasks {p = p} (next {ts = ts} {more = more} r st) =
      Step-all_tasks st
      ∙ ap (λ xs. xs ++ more) (Run-all_tasks r)
      ∙ append_assoc (all_tasks p) ts more

  -- no task was started, and the pool is still exited
  record Quiet (p q : ThreadPool T) : Type ℓ where
    exited : q.exited ≡ true
    same : q.started ≡ p.started

  turn-Quiet : (i : ℕ) (p : ThreadPool T) → p.exited ≡ true → Quiet p (turn i p)
  unfolding turn
  turn-Quiet i p e = by_worker (get_elem? p.workers i)
    where
      by_worker :
          (w : Option (Worker T))
          → Quiet p (elim w [
            | none ↦ p
            | some w ↦ elim w [
              | idle ↦ take_task i p
              | busy t ↦ record p { workers = set_at i idle p.workers }
              | gone ↦ p
            ]
          ])
      by_worker none = record { exited = e; same = refl }
      by_worker (some idle) =
          subst (λ q. Quiet p q) (sym (take_exited i p e)) (record { exited = e; same = refl })
      by_worker (some (busy t)) = record { exited = e; same = refl }
      by_worker (some gone) = record { exited = e; same = refl }

  Step-Quiet : {p q : ThreadPool T} {ts : List T} → p.exited ≡ true → Step p ts q → Quiet p q
  unfolding enqueue exit
  Step-Quiet e (enqueued t) = record { exited = e; same = refl }
  Step-Quiet {p = p} e (turned i) = turn-Quiet i p e
  Step-Quiet e asked_exit = record { exited = refl; same = refl }

  -- After `exit` no worker starts another task, whatever happens: the tasks that wait then, and those
  -- enqueued later, are never run.
  pub Run-exited :
      {p q : ThreadPool T} {ts : List T}
      → p.exited ≡ true
      → Run p ts q
      → (q.exited ≡ true) × (q.started ≡ p.started)
  Run-exited e here = (e, refl)
  Run-exited e (next r st) =
      let before = Run-exited e r in let k = Step-Quiet before.0 st in (k.exited, k.same ∙ before.1)
