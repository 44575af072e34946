-- ===== src/Server.antt =====
-- class TcpServer (include/tcp/TcpServer.h, src/tcp/TcpServer.cpp): new connections, the limit on their
-- number, and their removal. A connection (verification/Connection.antt) is a number.
pub mod Limit
pub mod Placing
mod Tests
use simple_tcp.Prelude.{
  ℕ, Bool, true, false, ◌==◌, List, [], ◌∷◌, ◌++◌, Option, none, some, length, remove, Build,
  Exception, Outcome, M, ok, threw, abort, fault, hang, ◌>>=◌, ◌>>◌, assert_true,
}
use simple_tcp.EventLoop.{Thread, is_in_loop_thread}
use simple_tcp.Pool.{EventLoopPool, acquire_loop}

-- MAX_CONNECTION_NUMS
abbrev pub max_connection_nums : ℕ
max_connection_nums = 256

-- What a loop was given to run: a new connection for that loop, or the removal of a closed one.
pub data Task : Type 0 where
  admit : ℕ → Task
  remove_closed : ℕ → Task

-- `homes` are the connections with the loop of each, as they were created; `refused` the sockets that
-- were closed because the set was full; `queued` the tasks of all loops.
pub record TcpServer : Type 0 where
  pub main_loop : ℕ
  pub pool : EventLoopPool
  pub connections : List ℕ
  pub homes : List (ℕ × ℕ)
  pub refused : List ℕ
  pub queued : List (ℕ × Task)

-- What `accept` came to: an exception, or a socket for a connection, together with the exception that
-- creating or establishing that connection throws, if any.
pub data Arrival : Type 0 where
  accept_failed : Exception → Arrival
  accepted : ℕ → Option Exception → Arrival

abbrev pub with_pool : {A : Type 0} → M EventLoopPool A → M TcpServer A
with_pool m s = elim (m s.pool) [
  | ok a p ↦ ok a (record s { pool = p })
  | threw e p ↦ threw e (record s { pool = p })
  | abort ↦ abort
  | fault ↦ fault
  | hang ↦ hang
]

module _ (build : Build) (thread : Thread) where
  -- `createNewConnectionInSubLoop` from the answer of `accept` on
  unfoldable pub place : ℕ → Arrival → M TcpServer (Unit {0})
  place loop (accept_failed e) s = threw e s
  place loop (accepted conn setup) s = elim (length s.connections == max_connection_nums) [
    | true ↦ ok tt (record s { refused = s.refused ++ (conn ∷ []) })
    | false ↦ elim setup [
      | some e ↦ threw e s
      | none ↦ ok tt (record s {
        connections = s.connections ++ (conn ∷ []);
        homes = s.homes ++ ((conn, loop) ∷ []);
      })
    ]
  ]

  -- `createNewConnectionInSubLoop`
  unfoldable pub create_new_connection_in_sub_loop : ℕ → Arrival → M TcpServer (Unit {0})
  create_new_connection_in_sub_loop loop arrival s =
      (do
        assert_true build (is_in_loop_thread thread loop)
        assert_true build (is_in_loop_thread thread s.main_loop)
        place loop arrival)
        s

  -- `runInLoop` of the lambda in `createNewConnection`
  unfoldable pub run_for : Arrival → ℕ → M TcpServer (Unit {0})
  run_for arrival loop s = elim (is_in_loop_thread thread loop) [
    | true ↦ create_new_connection_in_sub_loop loop arrival s
    | false ↦ ok tt (record s { queued = s.queued ++ ((loop, admit loop) ∷ []) })
  ]

  -- `createNewConnection`, the read callback of the listening channel
  unfoldable pub create_new_connection : Arrival → M TcpServer (Unit {0})
  create_new_connection arrival s =
      (do
        assert_true build (is_in_loop_thread thread s.main_loop)
        (λ s. elim (s.pool.max_thread_num == 0) [
          | true ↦ create_new_connection_in_sub_loop s.main_loop arrival s
          | false ↦ (with_pool acquire_loop >>= run_for arrival) s
        ]))
        s

-- The close callback of a connection of a loop.
unfoldable pub on_connection_close : ℕ → ℕ → TcpServer → TcpServer
on_connection_close loop conn s = record s {
  queued = s.queued ++ ((loop, remove_closed conn) ∷ []);
}

-- What that queued: the connection is destroyed and leaves the set.
unfoldable pub remove_connection : ℕ → TcpServer → TcpServer
remove_connection conn s = record s { connections = remove conn s.connections }
