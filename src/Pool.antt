-- ===== src/Pool.antt =====
-- class EventLoopPool (include/net/EventLoopPool.h, src/net/EventLoopPool.cpp): the loops of a server's
-- threads, handed out in turn. An `EventLoop *` is a number.
pub mod Rotation
mod Tests
use simple_tcp.Prelude.{
  ℕ, ◌+◌, ◌%◌, Bool, true, false, ◌==◌, ltb, if◌then◌else◌, List, [], ◌∷◌, ◌++◌, Option, none, some,
  length, get_elem?, lookup, insert_new, put, add_size, Outcome, M, ok, fault,
}

-- `State`
pub data LoopState : Type 0 where
  initialized running exiting : LoopState

pub record EventLoopPool : Type 0 where
  pub main_loop : ℕ
  pub max_thread_num : ℕ
  pub sub_loops : List ℕ
  pub states : List (ℕ × LoopState)
  pub index : ℕ

-- The constructor, for a number of threads that is not negative, with `hardware_concurrency`: the
-- threads have not registered their loops yet.
unfoldable pub fresh : ℕ → ℕ → ℕ → EventLoopPool
fresh main max hardware = record {
  main_loop = main;
  max_thread_num = if ltb hardware max then hardware else max;
  sub_loops = [];
  states = [];
  index = 0;
}

-- What each thread does before it waits for its loop to be acquired.
unfoldable pub register_loop : ℕ → EventLoopPool → EventLoopPool
register_loop loop p = record p {
  sub_loops = p.sub_loops ++ (loop ∷ []);
  states = insert_new loop initialized p.states;
}

-- `mSubLoopStates[loop]`, which is Initialized where the map has no such key.
abbrev pub state_of : ℕ → List (ℕ × LoopState) → LoopState
state_of loop states = elim (lookup loop states) [ none ↦ initialized | some state ↦ state ]

-- the states after a loop was acquired
unfoldable pub entered : ℕ → List (ℕ × LoopState) → List (ℕ × LoopState)
entered loop states = elim (state_of loop states) [
  | initialized ↦ put loop running states
  | running ↦ states
  | exiting ↦ states
]

-- `acquireLoop`. Without any registered loop the remainder by 0 is a fault.
unfoldable pub acquire_loop : M EventLoopPool ℕ
acquire_loop p = elim (p.max_thread_num == 0) [
  | true ↦ ok p.main_loop p
  | false ↦ elim (length p.sub_loops == 0) [
    | true ↦ fault
    | false ↦ elim (get_elem? p.sub_loops (p.index % length p.sub_loops)) [
      | none ↦ fault
      | some loop ↦
          ok loop (record p { index = add_size p.index 1; states = entered loop p.states })
    ]
  ]
]

-- The destructor up to the join of the threads: each loop is told to quit too.
unfoldable pub exit_all : List ℕ → List (ℕ × LoopState) → List (ℕ × LoopState)
exit_all [] states = states
exit_all (loop ∷ loops) states = exit_all loops (put loop exiting states)
