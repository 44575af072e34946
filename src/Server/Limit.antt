-- ===== src/Server/Limit.antt =====
-- The limit on the number of connections of a TcpServer (src/tcp/TcpServer.cpp).
use simple_tcp.Prelude.{
  ℕ, ◌≤◌, ◌≡◌, List, [], ◌∷◌, ◌++◌, Bool, true, false, inl, inr, Bool-cases, arith, length,
  length-append, remove, none, some, Option, Build, debug_build, release_build, assert_true, abort,
  fault, hang, ◌>>=◌, ◌>>◌, subst, ◌≢◌, Outcome, ok, threw, M, Exception, ◌==◌, ==→ne,
}
use simple_tcp.EventLoop.{Thread, is_in_loop_thread}
use simple_tcp.Pool.{EventLoopPool, acquire_loop}
use simple_tcp.Server.{
  TcpServer, Arrival, accept_failed, accepted, max_connection_nums, place,
  create_new_connection_in_sub_loop, run_for, create_new_connection, on_connection_close,
  remove_connection, with_pool,
}

-- what a call may leave
abbrev pub Leaves : (TcpServer → Type 0) → Outcome TcpServer (Unit {0}) → Type 0
Leaves P o = elim o [ ok u s ↦ P s | threw e s ↦ P s | _ ↦ Unit {0} ]

abbrev pub IsBounded : TcpServer → Type 0
IsBounded s = length s.connections ≤ max_connection_nums

remove-length : (k : ℕ) (xs : List ℕ) → length (remove k xs) ≤ length xs
remove-length k [] = omega arith
remove-length k (x ∷ xs) = elim (Bool-cases (x == k)) [
  | inl there ↦ rw there (omega (arith, remove-length k xs))
  | inr other ↦ rw other (omega (arith, remove-length k xs))
]

-- A failed assertion either ends the process or changes nothing.
after_assert :
    (build : Build) (c : Bool) (k : M TcpServer (Unit {0})) (s : TcpServer)
    → Leaves IsBounded (k s)
    → Leaves IsBounded ((assert_true build c >> k) s)
after_assert build true k s h = h
after_assert debug_build false k s h = tt
after_assert release_build false k s h = h

module _ (build : Build) (thread : Thread) where
  place-IsBounded :
      (loop : ℕ) (arrival : Arrival) (s : TcpServer)
      → IsBounded s
      → Leaves IsBounded (place build thread loop arrival s)
  unfolding place
  place-IsBounded loop (accept_failed e) s b = b
  place-IsBounded loop (accepted conn setup) s b =
      elim (Bool-cases (length s.connections == max_connection_nums)) [
        | inl full ↦ rw (full, Leaves) b
        | inr room ↦ rw (room, Leaves) (by_setup setup (==→ne _ _ room))
      ]
    where
      by_setup :
          (setup : Option Exception)
          → length s.connections ≢ max_connection_nums
          → Leaves IsBounded (elim setup [
            | some e ↦ threw e s
            | none ↦ ok tt (record s {
              connections = s.connections ++ (conn ∷ []);
              homes = s.homes ++ ((conn, loop) ∷ []);
            })
          ])
      by_setup (some e) h = b
      by_setup none h = omega (arith, length-append s.connections (conn ∷ []))

  sub_loop-IsBounded :
      (loop : ℕ) (arrival : Arrival) (s : TcpServer)
      → IsBounded s
      → Leaves IsBounded (create_new_connection_in_sub_loop build thread loop arrival s)
  unfolding create_new_connection_in_sub_loop
  sub_loop-IsBounded loop arrival s b = after_assert build (is_in_loop_thread thread loop) _ s (
      after_assert build (is_in_loop_thread thread s.main_loop) _ s
        (place-IsBounded loop arrival s b))

  run_for-IsBounded :
      (loop : ℕ) (arrival : Arrival) (s : TcpServer)
      → IsBounded s
      → Leaves IsBounded (run_for build thread arrival loop s)
  unfolding run_for
  run_for-IsBounded loop arrival s b = elim (Bool-cases (is_in_loop_thread thread loop)) [
    | inl own ↦ rw (own, Leaves) (sub_loop-IsBounded loop arrival s b)
    | inr foreign ↦ rw (foreign, Leaves) b
  ]

  acquired-IsBounded :
      (arrival : Arrival) (s : TcpServer)
      → IsBounded s
      → Leaves IsBounded ((with_pool acquire_loop >>= run_for build thread arrival) s)
  acquired-IsBounded arrival s b = by_outcome (acquire_loop s.pool)
    where
      by_outcome :
          (o : Outcome EventLoopPool ℕ)
          → Leaves IsBounded (
              ((λ s. elim o [
                | ok a p ↦ ok a (record s { pool = p })
                | threw e p ↦ threw e (record s { pool = p })
                | abort ↦ abort
                | fault ↦ fault
                | hang ↦ hang
              ])
                  >>= run_for build thread arrival)
                s)
      by_outcome (ok loop p) = run_for-IsBounded loop arrival (record s { pool = p }) b
      by_outcome (threw e p) = b
      by_outcome abort = tt
      by_outcome fault = tt
      by_outcome hang = tt

  create-IsBounded :
      (arrival : Arrival) (s : TcpServer)
      → IsBounded s
      → Leaves IsBounded (create_new_connection build thread arrival s)
  unfolding create_new_connection
  create-IsBounded arrival s b =
      after_assert build (is_in_loop_thread thread s.main_loop) _ s
        (elim (Bool-cases (s.pool.max_thread_num == 0)) [
          | inl alone ↦ rw alone (sub_loop-IsBounded s.main_loop arrival s b)
          | inr threads ↦ rw threads (acquired-IsBounded arrival s b)
        ])

-- One thing that happens to a server, in any thread.
pub data Step (build : Build) (s : TcpServer) : TcpServer → Type 0 where
  arrived :
      (thread : Thread) (arrival : Arrival) (s' : TcpServer)
      → create_new_connection build thread arrival s ≡ ok tt s'
      → Step build s s'
  arrival_threw :
      (thread : Thread) (arrival : Arrival) (e : Exception) (s' : TcpServer)
      → create_new_connection build thread arrival s ≡ threw e s'
      → Step build s s'
  admitted :
      (thread : Thread) (loop : ℕ) (arrival : Arrival) (s' : TcpServer)
      → create_new_connection_in_sub_loop build thread loop arrival s ≡ ok tt s'
      → Step build s s'
  closed : (loop conn : ℕ) → Step build s (on_connection_close loop conn s)
  removed : (conn : ℕ) → Step build s (remove_connection conn s)

pub data Run (build : Build) (s : TcpServer) : TcpServer → Type 0 where
  here : Run build s s
  next : {t u : TcpServer} → Run build s t → Step build t u → Run build s u

Step-IsBounded : {build : Build} {s s' : TcpServer} → IsBounded s → Step build s s' → IsBounded s'
unfolding on_connection_close remove_connection
Step-IsBounded {build} {s} b (arrived thread arrival s' e) =
    subst (λ o. Leaves IsBounded o) e (create-IsBounded build thread arrival s b)
Step-IsBounded {build} {s} b (arrival_threw thread arrival x s' e) =
    subst (λ o. Leaves IsBounded o) e (create-IsBounded build thread arrival s b)
Step-IsBounded {build} {s} b (admitted thread loop arrival s' e) =
    subst (λ o. Leaves IsBounded o) e (sub_loop-IsBounded build thread loop arrival s b)
Step-IsBounded b (closed loop conn) = b
Step-IsBounded {s = s} b (removed conn) = omega (arith, remove-length conn s.connections)

-- Over any history of a server that starts within the limit, of arrivals that return or throw, in
-- whatever thread and build, of closed connections and of their removals, there are never more than
-- 256 connections in the set.
pub Run-IsBounded : {build : Build} {s s' : TcpServer} → IsBounded s → Run build s s' → IsBounded s'
Run-IsBounded b here = b
Run-IsBounded b (next r st) = Step-IsBounded (Run-IsBounded b r) st
