-- ===== src/Pool/Tests.antt =====
-- Runs of EventLoopPool, and its theorem at a pool of three loops.
use simple_tcp.Prelude.{◌%◌, ◌≡◌, refl, [], ◌∷◌, arith, ok, fault}
use simple_tcp.Pool.{EventLoopPool, initialized, fresh, register_loop, acquire_loop}
use simple_tcp.Pool.Rotation.{acquires, Acquired, acquires_round}

-- main loop 1, and the loops 20, 10 and 30, in the order in which their threads came
abbrev sample : EventLoopPool
sample = record {
  main_loop = 1;
  max_thread_num = 3;
  sub_loops = 20 ∷ 10 ∷ 30 ∷ [];
  states = (20, initialized) ∷ (10, initialized) ∷ (30, initialized) ∷ [];
  index = 0;
}

registered : register_loop 30 (register_loop 10 (register_loop 20 (fresh 1 9 3))) ≡ sample
unfolding register_loop fresh
registered = refl

-- the server asks before any thread has registered its loop
acquired_too_early : acquire_loop (fresh 1 4 8) ≡ fault
unfolding acquire_loop fresh
acquired_too_early = refl

acquires_round_example :
    (p' : EventLoopPool) × (acquires 3 sample ≡ ok (20 ∷ 10 ∷ 30 ∷ []) p')
    × Acquired (20 ∷ 10 ∷ 30 ∷ []) sample p'
    × (p'.index % 3 ≡ 0)
acquires_round_example = acquires_round sample (omega arith) refl (omega arith)
