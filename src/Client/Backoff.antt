-- ===== src/Client/Backoff.antt =====
-- The delays between the attempts of a TcpClient (`retry` of src/tcp/TcpClient.cpp).
use simple_tcp.Prelude.{
  ℕ, zero, suc, ◌+◌, ◌*◌, ◌^◌, ◌≤◌, ◌<◌, ◌≡◌, sym, ap, ◌∙◌, List, [], ◌∷◌, ◌++◌, true, arith, ok,
  threw, M, Build, Bool, network_exception, then_ok, ◌>>◌,
}
use native.Mathlib.Nat.{pow-suc, pow-le-pow_right}
use simple_tcp.Client.{Client, World, init_retry_timeout, max_retry_timeout, retry}

-- `k` calls of `retry` in a row
abbrev pub retries : Build → Bool → World → ℕ → M Client (Unit {0})
retries build in_thread world zero c = ok tt c
retries build in_thread world (suc k) c =
    (retries build in_thread world k >> retry build in_thread world) c

-- the delays of these calls, newest first
abbrev pub delays : ℕ → ℕ → List ℕ
delays random zero = []
delays random (suc k) = (init_retry_timeout * 2 ^ k + random) ∷ delays random k

-- the client after `k` calls
abbrev pub after : ℕ → Client → Client
after k c = record c {
  retry_delay = init_retry_timeout * 2 ^ k;
  timers = delays c.random_delay k ++ c.timers;
}

module _ (build : Build) (in_thread : Bool) (world : World) (inside : in_thread ≡ true) where
  retry_early :
      (c : Client)
      → c.retry_delay < max_retry_timeout
      → retry build in_thread world c
        ≡ ok tt (record c {
          timers = (c.retry_delay + c.random_delay) ∷ c.timers;
          retry_delay = c.retry_delay * 2;
        })
  unfolding retry
  retry_early c h = ground (arith, inside)

  retry_late :
      (c : Client)
      → max_retry_timeout ≤ c.retry_delay
      → retry build in_thread world c ≡ threw (network_exception world.errno) c
  unfolding retry
  retry_late c h = ground (arith, inside)

  delay_below : (k : ℕ) → k < 12 → init_retry_timeout * 2 ^ k < max_retry_timeout
  delay_below k h =
      let p : 2 ^ k ≤ 2048 =
        pow-le-pow_right {n = 2} (omega arith) {i = k} {j = 11} (omega arith) in
      omega arith

  next_after :
      (k : ℕ) (c : Client)
      → after (suc k) c ≡ record (after k c) {
        timers = ((after k c).retry_delay + c.random_delay) ∷ (after k c).timers;
        retry_delay = (after k c).retry_delay * 2;
      }
  next_after k c =
      ap
        (λ (d : ℕ). record c {
          retry_delay = d;
          timers = delays c.random_delay (suc k) ++ c.timers;
        })
        (omega (arith, pow-suc 2 k))

  retries_lem :
      (k : ℕ) (c : Client)
      → c.retry_delay ≡ init_retry_timeout
      → k ≤ 12
      → retries build in_thread world k c ≡ ok tt (after k c)
  retries_lem zero c first small = ap (λ (d : ℕ). ok tt (record c { retry_delay = d })) first
  retries_lem (suc k) c first small =
      then_ok (retries build in_thread world k) (retry build in_thread world) c
        (retries_lem k c first (omega arith))
      ∙ retry_early (after k c) (delay_below k (omega arith))
      ∙ ap (ok tt) (sym (next_after k c))

  -- From the initial delay, in the loop's thread, the first twelve failures in a row each schedule
  -- another attempt, after 100 ms, 200 ms, 400 ms and so on, doubling, plus the client's random
  -- delay; the thirteenth throws, and leaves the client as it was.
  pub backoff_lem :
      (c : Client)
      → c.retry_delay ≡ init_retry_timeout
      → ((k : ℕ) → k ≤ 12 → retries build in_thread world k c ≡ ok tt (after k c))
        × (retries build in_thread world 13 c ≡ threw (network_exception world.errno) (after 12 c))
  backoff_lem c first = (
    λ k small. retries_lem k c first small,
    then_ok (retries build in_thread world 12) (retry build in_thread world) c
          (retries_lem 12 c first (omega arith))
        ∙ retry_late (after 12 c) (omega arith),
  )
