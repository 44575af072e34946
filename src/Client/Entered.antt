-- ===== src/Client/Entered.antt =====
-- What entering a state comes to in `transStateInLoop` of src/tcp/TcpClient.cpp.
use simple_tcp.Prelude.{
  ℕ, ◌+◌, ◌*◌, ◌≡◌, refl, [], ◌∷◌, ◌++◌, true, false, arith, ok, Build, Bool, ◌⊎◌, inl, inr, ◌==◌,
  ◌≤◌, ltb, ltb→le, Bool-cases, false, Outcome, threw, abort, fault, Exception, network_exception,
  system_exception, sym, subst, debug_build, release_build,
}
use simple_tcp.Client.{
  Client, ClientState, disconnect_state, connecting_state, connected_state,
  force_disconnected_state, World, in_progress, init_retry_timeout, retry, do_connecting,
  do_connected, do_disconnected, do_force_disconnected, established, destroyed, shut_connection,
  enter, Attempt, no_descriptor, no_socket, done, failed, max_retry_timeout,
}

-- Another attempt is due after the delay, which is doubled.
pub record IsRetrying (c c' : Client) : Type 0 where
  pub due : c'.timers ≡ (c.retry_delay + c.random_delay) ∷ c.timers
  pub doubled : c'.retry_delay ≡ c.retry_delay * 2
  pub queued : c'.queued ≡ c.queued

-- What a client that tries to connect waits for: its channel, a task, or a timer.
pub data Awaits (c c' : Client) : Attempt → Type 0 where
  channel :
      c'.conn_socket ≡ true
      → c'.conn_channel ≡ true
      → c'.queued ≡ c.queued
      → c'.timers ≡ c.timers
      → Awaits c c' in_progress
  task :
      c'.conn_socket ≡ true
      → c'.queued ≡ c.queued ++ (enter connected_state ∷ [])
      → c'.timers ≡ c.timers
      → Awaits c c' done
  no_socket_yet : c'.conn_socket ≡ false → IsRetrying c c' → Awaits c c' no_socket
  refused : c'.conn_socket ≡ true → IsRetrying c c' → Awaits c c' failed

-- Why an attempt throws: there is no descriptor; or it failed, and the delay has reached its limit.
abbrev pub IsHopeless : Attempt → ℕ → Exception → Type 0
IsHopeless no_descriptor delay e = e ≡ system_exception
IsHopeless no_socket delay e = (max_retry_timeout ≤ delay) × ((n : ℕ) × (e ≡ network_exception n))
IsHopeless failed delay e = (max_retry_timeout ≤ delay) × ((n : ℕ) × (e ≡ network_exception n))
IsHopeless attempt delay e = true ≡ false

-- What entering a state comes to.
abbrev pub IsEntered : ClientState → Attempt → ℕ → Client → Outcome Client (Unit {0}) → Type 0
IsEntered connecting_state attempt err c (ok u c') =
    (c'.state ≡ connecting_state)
    × (c'.has_connection ≡ c.has_connection)
    × (c'.effects ≡ c.effects)
    × Awaits c c' attempt
IsEntered connecting_state attempt err c (threw e c') =
    (c'.state ≡ connecting_state)
    × (c'.queued ≡ c.queued)
    × (c'.timers ≡ c.timers)
    × IsHopeless attempt c.retry_delay e
IsEntered connected_state attempt err c (ok u c') =
    (c'.state ≡ connected_state)
    × (c'.has_connection ≡ true)
    × (c'.conn_socket ≡ false)
    × (c'.conn_channel ≡ false)
    × (c'.retry_delay ≡ init_retry_timeout)
    × (c'.effects ≡ c.effects ++ (established ∷ []))
IsEntered disconnect_state attempt err c (ok u c') =
    (c'.state ≡ disconnect_state)
    × (c'.has_connection ≡ false)
    × (c'.retry_delay ≡ init_retry_timeout * 2)
    × (c'.timers ≡ (init_retry_timeout + c.random_delay) ∷ c.timers)
    × (c'.effects ≡ c.effects ++ (destroyed ∷ []))
IsEntered force_disconnected_state attempt err c (ok u c') =
    (c'.state ≡ force_disconnected_state)
    × (c'.has_connection ≡ c.has_connection)
    × (c'.queued ≡ c.queued ++ (shut_connection ∷ []))
    × (c'.effects ≡ c.effects)
IsEntered connected_state attempt err c abort = (c.conn_socket ≡ false) ⊎ ((err == 0) ≡ false)
IsEntered connected_state attempt err c fault = c.conn_socket ≡ false
IsEntered disconnect_state attempt err c abort = c.has_connection ≡ false
IsEntered disconnect_state attempt err c fault = c.has_connection ≡ false
IsEntered new attempt err c outcome = true ≡ false

build-cases : (b : Build) → (b ≡ debug_build) ⊎ (b ≡ release_build)
build-cases debug_build = inl refl
build-cases release_build = inr refl

-- A client whose connection was just established, and one whose peer has closed.
abbrev linked : Client → Client
linked c = record c {
  state = connected_state;
  conn_channel = false;
  retry_delay = init_retry_timeout;
  conn_socket = false;
  has_connection = true;
  effects = c.effects ++ (established ∷ []);
}

abbrev left_over : Client → Client
left_over c = record c {
  state = disconnect_state;
  has_connection = false;
  retry_delay = init_retry_timeout * 2;
  timers = (init_retry_timeout + c.random_delay) ∷ c.timers;
  effects = c.effects ++ (destroyed ∷ []);
}

module _ (build : Build) (in_thread : Bool) (world : World) (inside : in_thread ≡ true) where
  retry-cases :
      (c : Client)
      → ((ltb c.retry_delay max_retry_timeout ≡ true)
          × (retry build in_thread world c
              ≡ ok tt (record c {
                timers = (c.retry_delay + c.random_delay) ∷ c.timers;
                retry_delay = c.retry_delay * 2;
              })))
        ⊎ ((max_retry_timeout ≤ c.retry_delay)
            × (retry build in_thread world c ≡ threw (network_exception world.errno) c))
  unfolding retry
  retry-cases c = elim (Bool-cases (ltb c.retry_delay max_retry_timeout)) [
    | inl e ↦ inl (e, ground (arith, inside, e))
    | inr e ↦ inr (ltb→le c.retry_delay max_retry_timeout e, ground (arith, inside, e))
  ]

  -- the socket and the channel of the attempt before are gone
  abbrev cleared : Client → Client
  cleared c = record c { state = connecting_state; conn_channel = false; conn_socket = false }

  pub connecting-IsEntered :
      (a : Attempt) (c : Client)
      → world.attempt ≡ a
      → IsEntered connecting_state a world.socket_error c
          (do_connecting build in_thread world (record c { state = connecting_state }))
  unfolding do_connecting
  connecting-IsEntered no_descriptor c e = rw (e, do_connecting) (refl, refl, refl, refl)
  connecting-IsEntered no_socket c e = elim (retry-cases (cleared c)) [
    | inl (early, went) ↦
        rw (e, went, do_connecting)
          (
            refl,
            refl,
            refl,
            no_socket_yet refl (record { due = refl; doubled = refl; queued = refl }),
          )
    | inr (late, went) ↦ rw (e, went, do_connecting) (refl, refl, refl, (late, (world.errno, refl)))
  ]
  connecting-IsEntered in_progress c e =
      rw (e, do_connecting) (refl, refl, refl, channel refl refl refl refl)
  connecting-IsEntered done c e = rw (e, do_connecting) (refl, refl, refl, task refl refl refl)
  connecting-IsEntered failed c e = elim (retry-cases (record (cleared c) { conn_socket = true })) [
    | inl (early, went) ↦
        rw (e, went, do_connecting)
          (refl, refl, refl, refused refl (record { due = refl; doubled = refl; queued = refl }))
    | inr (late, went) ↦ rw (e, went, do_connecting) (refl, refl, refl, (late, (world.errno, refl)))
  ]

  pub connected-IsEntered :
      (c : Client)
      → IsEntered connected_state world.attempt world.socket_error c
          (do_connected build in_thread world (record c { state = connected_state }))
  unfolding do_connected
  connected-IsEntered c = elim (Bool-cases c.conn_socket) [
    | inl there ↦ elim (Bool-cases (world.socket_error == 0)) [
      | inl good ↦
          shown (ok tt (linked c)) (ground (arith, there, good))
            (refl, refl, refl, refl, refl, refl)
      | inr bad ↦ elim (build-cases build) [
        | inl debug ↦ shown abort (ground (arith, there, bad, debug)) (inr bad)
        | inr release ↦
            shown (ok tt (linked c)) (ground (arith, there, bad, release))
              (refl, refl, refl, refl, refl, refl)
      ]
    ]
    | inr gone ↦ elim (build-cases build) [
      | inl debug ↦ shown abort (ground (arith, gone, debug)) (inl gone)
      | inr release ↦ shown fault (ground (arith, gone, release)) gone
    ]
  ]
    where
      shown :
          (o : Outcome Client (Unit {0}))
          → do_connected build in_thread world (record c { state = connected_state }) ≡ o
          → IsEntered connected_state world.attempt world.socket_error c o
          → IsEntered connected_state world.attempt world.socket_error c
              (do_connected build in_thread world (record c { state = connected_state }))
      shown o e t =
          subst (λ o. IsEntered connected_state world.attempt world.socket_error c o) (sym e) t

  pub disconnect-IsEntered :
      (c : Client)
      → IsEntered disconnect_state world.attempt world.socket_error c
          (do_disconnected build in_thread world (record c { state = disconnect_state }))
  unfolding do_disconnected retry
  disconnect-IsEntered c = elim (Bool-cases c.has_connection) [
    | inl there ↦
        shown (ok tt (left_over c)) (ground (arith, there, inside)) (refl, refl, refl, refl, refl)
    | inr gone ↦ elim (build-cases build) [
      | inl debug ↦ shown abort (ground (arith, gone, debug)) gone
      | inr release ↦ shown fault (ground (arith, gone, release)) gone
    ]
  ]
    where
      shown :
          (o : Outcome Client (Unit {0}))
          → do_disconnected build in_thread world (record c { state = disconnect_state }) ≡ o
          → IsEntered disconnect_state world.attempt world.socket_error c o
          → IsEntered disconnect_state world.attempt world.socket_error c
              (do_disconnected build in_thread world (record c { state = disconnect_state }))
      shown o e t =
          subst (λ o. IsEntered disconnect_state world.attempt world.socket_error c o) (sym e) t

  pub force-IsEntered :
      (c : Client)
      → IsEntered force_disconnected_state world.attempt world.socket_error c (
          do_force_disconnected build in_thread world
            (record c { state = force_disconnected_state }))
  unfolding do_force_disconnected
  force-IsEntered c = (refl, refl, refl, refl)
