-- ===== src/EventLoop/Tasks.antt =====
-- One round of `doPendingTasks` of src/net/EventLoop.cpp, for tasks that return.
use simple_tcp.Prelude.{
  ◌≡◌, refl, sym, ap, ◌∙◌, List, [], ◌∷◌, ◌++◌, append-nil, append_assoc, true, false, ok, M,
  then_ok, modify,
}
use simple_tcp.EventLoop.{Loop, run_tasks, do_pending_tasks}

module _ {ℓ κ} {T : Type ℓ} {S : Type κ} (act : T → Loop T S → Loop T S)
    (spawned : T → Loop T S → List T) where
  -- What running the tasks one after the other does, and what they queue meanwhile.
  abbrev pub acted : List T → Loop T S → Loop T S
  acted [] l = l
  acted (t ∷ ts) l = acted ts (act t l)

  abbrev pub queued : List T → Loop T S → List T
  queued [] l = []
  queued (t ∷ ts) l = spawned t l ++ queued ts (act t l)

  -- What the tasks start from: they have been taken out of the loop.
  abbrev pub taken_out : Loop T S → Loop T S
  taken_out l = record l { doing_pending = true; pending = [] }

  -- Every task returns, with whatever it has done to the loop; of the tasks that wait it takes none
  -- away, but may queue more behind them.
  pub record IsReturning (exec : T → M (Loop T S) (Unit {0})) : Type (ℓ ⊔ κ) where
    pub returns : (t : T) (l : Loop T S) → exec t l ≡ ok tt (act t l)
    pub queues : (t : T) (l : Loop T S) → (act t l).pending ≡ l.pending ++ spawned t l

  module _ (exec : T → M (Loop T S) (Unit {0})) (r : IsReturning exec) where
    run_tasks_lem : (ts : List T) (l : Loop T S) → run_tasks exec ts l ≡ ok tt (acted ts l)
    unfolding run_tasks
    run_tasks_lem [] l = refl
    run_tasks_lem (t ∷ ts) l =
        then_ok (exec t) (run_tasks exec ts) l (r.returns t l) ∙ run_tasks_lem ts (act t l)

    acted-pending : (ts : List T) (l : Loop T S) → (acted ts l).pending ≡ l.pending ++ queued ts l
    acted-pending [] l = sym (append-nil l.pending)
    acted-pending (t ∷ ts) l =
        acted-pending ts (act t l)
        ∙ ap (λ p. p ++ queued ts (act t l)) (r.queues t l)
        ∙ append_assoc l.pending (spawned t l) (queued ts (act t l))

    -- doPendingTasks, for tasks that return, whatever else they do to the loop, and take no waiting task
    -- away: it runs each task that was queued when it began exactly once, in the order of queueing; and
    -- what waits at the end is what these queued, in order, for the next round.
    pub do_pending_tasks_lem :
        (l : Loop T S)
        → (do_pending_tasks exec l
            ≡ ok tt (record (acted l.pending (taken_out l)) { doing_pending = false }))
          × ((acted l.pending (taken_out l)).pending ≡ queued l.pending (taken_out l))
    unfolding do_pending_tasks
    do_pending_tasks_lem l = (
      then_ok (run_tasks exec l.pending) (modify (λ l. record l { doing_pending = false }))
          (taken_out l) (run_tasks_lem l.pending (taken_out l)),
      acted-pending l.pending (taken_out l),
    )
