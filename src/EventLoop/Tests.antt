-- ===== src/EventLoop/Tests.antt =====
-- Runs of EventLoop, and its theorems at small loops. The state of the user is a list of numbers, and
-- a task is a number.
use simple_tcp.Prelude.{
  ℕ, suc, zero, ◌+◌, sym, append-nil, ◌≡◌, refl, List, [], ◌∷◌, ◌++◌, true, false, some, M, ok,
  debug_build,
}
use simple_tcp.Epoller.Mask.{no_events}
use simple_tcp.Epoller.{Epoller, Channel, normal, poll, activate, has_channel}
use simple_tcp.EventLoop.{
  Loop, queue_in_loop, wakeup, do_pending_tasks, run_tasks, run_handlers, turn, after_poll,
  with_poller,
}
use simple_tcp.EventLoop.Tasks.{IsReturning, queued, taken_out, do_pending_tasks_lem}
use simple_tcp.EventLoop.Turn.{only_if_looping, KeepsLooping, turn_guarded}

-- a task writes itself down, and queues its predecessor by queueInLoop
abbrev exec : ℕ → M (Loop ℕ (List ℕ)) (Unit {0})
exec zero l = ok tt (record l { user = l.user ++ (zero ∷ []) })
exec (suc t) l = queue_in_loop true t (record l { user = l.user ++ (suc t ∷ []) })

abbrev act : ℕ → Loop ℕ (List ℕ) → Loop ℕ (List ℕ)
act zero l = record l { user = l.user ++ (zero ∷ []) }
act (suc t) l = record l {
  user = l.user ++ (suc t ∷ []);
  pending = l.pending ++ (t ∷ []);
  wakeups = l.wakeups + 1;
}

abbrev spawned : ℕ → Loop ℕ (List ℕ) → List ℕ
spawned zero l = []
spawned (suc t) l = t ∷ []

exec-IsReturning : IsReturning act spawned exec
unfolding queue_in_loop wakeup
exec-IsReturning = record { returns = returns; queues = queues }
  where
    returns : (t : ℕ) (l : Loop ℕ (List ℕ)) → exec t l ≡ ok tt (act t l)
    returns zero l = refl
    returns (suc t) l = refl

    queues : (t : ℕ) (l : Loop ℕ (List ℕ)) → (act t l).pending ≡ l.pending ++ spawned t l
    queues zero l = sym (append-nil l.pending)
    queues (suc t) l = refl

abbrev channel : Channel
channel = record { id = 70; fd = 7; event = no_events; revent = no_events; priority = normal }

abbrev handle : Channel → M (Loop ℕ (List ℕ)) (Unit {0})
handle c l = ok tt (record l { pending = l.pending ++ (c.id ∷ []) })

abbrev quiet : Epoller
quiet = record { channel_map = (7, 70) ∷ []; channel_set = 70 ∷ []; issued = [] }

abbrev busy : Loop ℕ (List ℕ)
busy = record {
  exit = false;
  looping = false;
  doing_pending = false;
  pending = 2 ∷ 1 ∷ 0 ∷ [];
  wakeups = 0;
  poller = quiet;
  user = [];
}

-- the handler queues 70, which runs in the same round, behind what was queued before
one_round :
    turn debug_build (λ id. channel) (λ less cs. cs) handle exec (some ((7, no_events) ∷ [])) busy
    ≡ ok tt (record busy { pending = 1 ∷ 0 ∷ 69 ∷ []; user = 2 ∷ 1 ∷ 0 ∷ 70 ∷ []; wakeups = 3 })
unfolding turn after_poll with_poller poll activate run_handlers do_pending_tasks run_tasks
    has_channel queue_in_loop wakeup
one_round = refl

do_pending_tasks_lem_example :
    (do_pending_tasks exec busy
      ≡ ok tt (record busy { pending = 1 ∷ 0 ∷ []; user = 2 ∷ 1 ∷ 0 ∷ []; wakeups = 2 }))
    × (1 ∷ 0 ∷ [] ≡ queued act spawned (2 ∷ 1 ∷ 0 ∷ []) (taken_out act spawned busy))
do_pending_tasks_lem_example = do_pending_tasks_lem act spawned exec exec-IsReturning busy

handle-KeepsLooping : (c : Channel) → KeepsLooping (handle c)
handle-KeepsLooping c l l' e = cc

exec-KeepsLooping : (t : ℕ) → KeepsLooping (exec t)
unfolding queue_in_loop wakeup
exec-KeepsLooping zero l l' e = cc
exec-KeepsLooping (suc t) l l' e = cc

turn_guarded_example :
    turn debug_build
      (λ id. channel)
      (λ less cs. cs)
      (λ c. only_if_looping true (handle c))
      (λ t. only_if_looping false (exec t))
      (some ((7, no_events) ∷ []))
      busy
    ≡ turn debug_build (λ id. channel) (λ less cs. cs) handle exec (some ((7, no_events) ∷ [])) busy
turn_guarded_example =
    turn_guarded debug_build (λ id. channel) (λ less cs. cs) handle exec handle-KeepsLooping
      exec-KeepsLooping (some ((7, no_events) ∷ [])) busy
