-- ===== src/Server/Tests.antt =====
-- Runs of TcpServer, and its theorems at small servers.
use simple_tcp.Prelude.{◌≡◌, refl, [], ◌∷◌, none, some, arith, ok, abort, debug_build}
use simple_tcp.EventLoop.{is_in_loop_thread}
use simple_tcp.Pool.{EventLoopPool, initialized, running, entered}
use simple_tcp.Server.{
  TcpServer, accepted, create_new_connection, on_connection_close, remove_connection,
}
use simple_tcp.Server.Limit.{IsBounded, Run, here, next, closed, removed, arrived, Run-IsBounded}
use simple_tcp.Server.Placing.{create_new_connection_lem}

abbrev pool : EventLoopPool
pool = record {
  main_loop = 1;
  max_thread_num = 2;
  sub_loops = 20 ∷ 10 ∷ [];
  states = (20, running) ∷ (10, initialized) ∷ [];
  index = 3;
}

abbrev sample : TcpServer
sample = record {
  main_loop = 1;
  pool = pool;
  connections = 5 ∷ [];
  homes = (5, 20) ∷ [];
  refused = [];
  queued = [];
}

foreign_thread_aborts : create_new_connection debug_build none (accepted 6 none) sample ≡ abort
unfolding create_new_connection is_in_loop_thread
foreign_thread_aborts = refl

abbrev grown : TcpServer
grown = record sample {
  pool = record pool { index = 4; states = (20, running) ∷ (10, running) ∷ [] };
  connections = 5 ∷ 6 ∷ [];
  homes = (5, 20) ∷ (6, 10) ∷ [];
}

create_new_connection_lem_example :
    create_new_connection debug_build (some 1) (accepted 6 none) sample ≡ ok tt grown
unfolding entered
create_new_connection_lem_example =
    create_new_connection_lem debug_build 6 10 sample (omega arith) (λ e. absurd (omega arith)) refl
      (omega arith) (omega arith)

history : Run debug_build sample (remove_connection 5 (on_connection_close 20 5 grown))
history =
    next
      (next (next here (arrived (some 1) (accepted 6 none) grown create_new_connection_lem_example))
        (closed 20 5))
      (removed 5)

Run-IsBounded_example : IsBounded (remove_connection 5 (on_connection_close 20 5 grown))
Run-IsBounded_example = Run-IsBounded {s = sample} (omega arith) history
