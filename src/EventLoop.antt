-- ===== src/EventLoop.antt =====
-- class EventLoop (include/net/EventLoop.h, src/net/EventLoop.cpp): one thread that polls, runs the
-- handlers of the channels that are ready, and then the tasks that were queued.
pub mod Tasks
pub mod Turn
pub mod Threads
mod Tests
use simple_tcp.Prelude.{
  ℕ, ◌+◌, Bool, true, false, not, ◌||◌, ◌==◌, List, [], ◌∷◌, ◌++◌, Option, none, some,
  if◌then◌else◌, Build, Outcome, M, ok, threw, abort, fault, hang, ◌>>=◌, ◌>>◌, return, throw,
  modify, assert_true, system_exception, length,
}
use simple_tcp.Epoller.Mask.{Events}
use simple_tcp.Epoller.{Channel, Ctl, Epoller}
use simple_tcp.Epoller

-- A thread as the loops see it: the thread-local `tCurrentLoop`.
abbrev pub Thread : Type 0
Thread = Option ℕ

-- `isInLoopThread`: it asks whether the calling thread has a loop.
unfoldable pub is_in_loop_thread : Thread → ℕ → Bool
is_in_loop_thread none self = false
is_in_loop_thread (some loop) self = true

-- The loop, over the tasks `T` that can be queued and the state `S` that handlers and tasks work on.
-- `wakeups` counts the writes to the event descriptor that nobody has read.
pub record Loop {ℓ κ} (T : Type ℓ) (S : Type κ) : Type (ℓ ⊔ κ) where
  pub exit : Bool
  pub looping : Bool
  pub doing_pending : Bool
  pub pending : List T
  pub wakeups : ℕ
  pub poller : Epoller
  pub user : S

module _ {ℓ κ} {T : Type ℓ} {S : Type κ} where
  -- The end of the constructor.
  unfoldable pub fresh : Epoller → S → Loop T S
  fresh p user = record {
    exit = true;
    looping = false;
    doing_pending = false;
    pending = [];
    wakeups = 0;
    poller = p;
    user = user;
  }

  -- `wakeup`, with what `write` on the event descriptor came to.
  unfoldable pub wakeup : Bool → M (Loop T S) (Unit {0})
  wakeup written l =
      if written then ok tt (record l { wakeups = l.wakeups + 1 }) else threw system_exception l

  -- `queueInLoop`
  unfoldable pub queue_in_loop : Bool → T → M (Loop T S) (Unit {0})
  queue_in_loop written task = do
    modify (λ l. record l { pending = l.pending ++ (task ∷ []) })
    wakeup written

  -- `quitLoop`
  unfoldable pub quit_loop : Thread → ℕ → Bool → M (Loop T S) (Unit {0})
  quit_loop thread self written = do
    modify (λ l. record l { exit = true })
    if is_in_loop_thread thread self then return tt else wakeup written

  -- a call of the poller by the loop
  unfoldable pub with_poller {μ} : {A : Type μ} → M Epoller A → M (Loop T S) A
  with_poller m l = elim (m l.poller) [
    | ok a p ↦ ok a (record l { poller = p })
    | threw e p ↦ threw e (record l { poller = p })
    | abort ↦ abort
    | fault ↦ fault
    | hang ↦ hang
  ]

  -- `assertInLoopThread`
  unfoldable pub assert_in_loop_thread : Build → Thread → ℕ → M (Loop T S) (Unit {0})
  assert_in_loop_thread build thread self = assert_true build (is_in_loop_thread thread self)

  module _ (build : Build) (ctl : Ctl → Bool) (thread : Thread) (self : ℕ) where
    -- `addChannel`
    unfoldable pub add_channel : Channel → M (Loop T S) (Unit {0})
    add_channel c = do
      assert_in_loop_thread build thread self
      with_poller (Epoller.add_channel build ctl c)

    -- `updateChannel`
    unfoldable pub update_channel : Channel → M (Loop T S) (Unit {0})
    update_channel c = do
      assert_in_loop_thread build thread self
      with_poller (Epoller.update_channel build ctl c)

    -- `removeChannel`: not while handlers run, but for the unwinding of the stack.
    unfoldable pub remove_channel : ℕ → Channel → M (Loop T S) (Unit {0})
    remove_channel uncaught c = do
      assert_in_loop_thread build thread self
      (λ l. assert_true build (not l.looping || not (uncaught == 0)) l)
      with_poller (Epoller.remove_channel build ctl c)

  -- the `for` over the tasks that were taken
  unfoldable pub run_tasks : (T → M (Loop T S) (Unit {0})) → List T → M (Loop T S) (Unit {0})
  run_tasks exec [] l = ok tt l
  run_tasks exec (t ∷ ts) l = (exec t >> run_tasks exec ts) l

  -- `doPendingTasks`
  unfoldable pub do_pending_tasks : (T → M (Loop T S) (Unit {0})) → M (Loop T S) (Unit {0})
  do_pending_tasks exec l =
      (do
        modify (λ l. record l { doing_pending = true; pending = [] })
        run_tasks exec l.pending
        modify (λ l. record l { doing_pending = false }))
        l

  -- the `for` over the active channels: one that an earlier handler removed is passed over
  unfoldable pub run_handlers :
      (Channel → M (Loop T S) (Unit {0})) → List Channel → M (Loop T S) (Unit {0})
  run_handlers handle [] l = ok tt l
  run_handlers handle (c ∷ cs) l =
      ((if Epoller.has_channel c.id l.poller then handle c else return tt)
          >> run_handlers handle cs)
        l

  -- `startLoop` from the answer of the poller to the end of the round.
  unfoldable pub after_poll :
      (Channel → M (Loop T S) (Unit {0}))
      → (T → M (Loop T S) (Unit {0}))
      → List Channel
      → M (Loop T S) (Unit {0})
  after_poll handle exec active = do
    (if length active == 0 then modify (λ l. record l { looping = false }) else return tt)
    run_handlers handle active
    modify (λ l. record l { looping = false })
    do_pending_tasks exec

  module _ (build : Build) (object : ℕ → Channel)
      (sort : (Channel → Channel → Bool) → List Channel → List Channel)
      (handle : Channel → M (Loop T S) (Unit {0})) (exec : T → M (Loop T S) (Unit {0})) where
    -- One round of the `while` of `startLoop`, with what `epoll_wait` came to.
    unfoldable pub turn : Option (List (ℕ × Events)) → M (Loop T S) (Unit {0})
    turn ready = do
      modify (λ l. record l { looping = true })
      active ← with_poller (Epoller.poll build object sort ready)
      after_poll handle exec active

    -- `while (!mIsExit)`, over the answers of `epoll_wait` so far. At the end of the list the loop
    -- waits in its next call.
    unfoldable pub rounds : List (Option (List (ℕ × Events))) → M (Loop T S) (Unit {0})
    rounds [] l = ok tt l
    rounds (ready ∷ later) l = elim l.exit [
      | true ↦ ok tt l
      | false ↦ (turn ready >> rounds later) l
    ]

    -- `startLoop`, called by a thread
    unfoldable pub start_loop :
        Thread → ℕ → List (Option (List (ℕ × Events))) → M (Loop T S) (Unit {0})
    start_loop thread self answers = do
      assert_in_loop_thread build thread self
      modify (λ l. record l { exit = false })
      rounds answers

  -- `runInLoop`: in another thread the task is queued, and the caller waits until it has run.
  unfoldable pub run_in_loop :
      (T → M (Loop T S) (Unit {0})) → Thread → ℕ → Bool → T → M (Loop T S) (Unit {0})
  run_in_loop exec thread self written task =
      if is_in_loop_thread thread self then exec task else queue_in_loop written task
