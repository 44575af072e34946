-- ===== src/Server/Placing.antt =====
-- Where a TcpServer puts a new connection (src/tcp/TcpServer.cpp).
use simple_tcp.Prelude.{
  ℕ, suc, ◌%◌, ◌<◌, ◌≡◌, ◌≢◌, [], ◌∷◌, ◌++◌, none, some, arith, length, get_elem?, Build, ok, ne→==,
  size_mod, ◌>>=◌,
}
use simple_tcp.EventLoop.{is_in_loop_thread}
use simple_tcp.Pool.{acquire_loop, entered}
use simple_tcp.Pool.Rotation.{acquire_lem}
use simple_tcp.Server.{
  TcpServer, accepted, max_connection_nums, place, create_new_connection_in_sub_loop, run_for,
  create_new_connection, with_pool,
}

module _ (build : Build) where
  place_lem :
      (loop conn : ℕ) (s : TcpServer)
      → length s.connections < max_connection_nums
      → create_new_connection_in_sub_loop build (some s.main_loop) loop (accepted conn none) s
        ≡ ok tt (record s {
          connections = s.connections ++ (conn ∷ []);
          homes = s.homes ++ ((conn, loop) ∷ []);
        })
  unfolding create_new_connection_in_sub_loop place is_in_loop_thread
  place_lem loop conn s room =
      ground (arith, ne→== (length s.connections) max_connection_nums (omega arith))

  acquired_lem :
      (conn loop : ℕ) (s : TcpServer)
      → s.pool.max_thread_num ≢ 0
      → get_elem? s.pool.sub_loops (s.pool.index % length s.pool.sub_loops) ≡ some loop
      → 0 < length s.pool.sub_loops
      → suc s.pool.index < size_mod
      → (with_pool acquire_loop >>= run_for build (some s.main_loop) (accepted conn none)) s
        ≡ create_new_connection_in_sub_loop build (some s.main_loop) loop (accepted conn none) (
            let p = s.pool in
            record s { pool = record p { index = suc p.index; states = entered loop p.states } })
  unfolding run_for is_in_loop_thread
  acquired_lem conn loop s threads there some_loops small =
      ground (arith, acquire_lem loop s.pool threads there some_loops small)

  -- In its own thread, and below the limit, a server without threads of its own puts a new connection that
  -- can be established into its main loop.
  pub create_new_connection_alone :
      (conn : ℕ) (s : TcpServer)
      → length s.connections < max_connection_nums
      → s.pool.max_thread_num ≡ 0
      → create_new_connection build (some s.main_loop) (accepted conn none) s
        ≡ ok tt (record s {
          connections = s.connections ++ (conn ∷ []);
          homes = s.homes ++ ((conn, s.main_loop) ∷ []);
        })
  unfolding create_new_connection is_in_loop_thread
  create_new_connection_alone conn s room alone =
      ground (arith, alone, place_lem s.main_loop conn s room)

  -- In its own thread, and below the limit, a server with threads gives a new connection that can be
  -- established to the loop of the pool at the index modulo their number, after which the next one's turn
  -- comes. The connection is made at once, in the server's thread: nothing is queued for that loop.
  pub create_new_connection_lem :
      (conn loop : ℕ) (s : TcpServer)
      → length s.connections < max_connection_nums
      → s.pool.max_thread_num ≢ 0
      → get_elem? s.pool.sub_loops (s.pool.index % length s.pool.sub_loops) ≡ some loop
      → 0 < length s.pool.sub_loops
      → suc s.pool.index < size_mod
      → create_new_connection build (some s.main_loop) (accepted conn none) s
        ≡ ok tt (
            let p = s.pool in
            record s {
              pool = record p { index = suc p.index; states = entered loop p.states };
              connections = s.connections ++ (conn ∷ []);
              homes = s.homes ++ ((conn, loop) ∷ []);
            })
  unfolding create_new_connection is_in_loop_thread
  create_new_connection_lem conn loop s room threads there some_loops small = ground (
    arith,
    ne→== s.pool.max_thread_num 0 threads,
    acquired_lem conn loop s threads there some_loops small,
    place_lem loop conn
        (let p = s.pool in
          record s { pool = record p { index = suc p.index; states = entered loop p.states } })
        room,
  )
