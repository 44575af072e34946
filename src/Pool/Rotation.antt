-- ===== src/Pool/Rotation.antt =====
-- The order in which `acquireLoop` of src/net/EventLoopPool.cpp hands out the loops.
use simple_tcp.Prelude.{
  ℕ, zero, suc, ◌+◌, ◌%◌, ◌<◌, ◌≡◌, ◌≢◌, ◌⊎◌, inl, inr, refl, sym, ap, ◌∙◌, subst, List, [], ◌∷◌,
  some, arith, length, drop, get_elem?, put, lookup-put, M, ok, bind_ok, ◌>>=◌, return, ne→==,
  size_mod, add_size, ◌==◌, Bool-cases,
}
use native.Mathlib.Nat.{suc-mod, mod-eq_of_lt, add-mod_right}
use simple_tcp.Pool.{
  EventLoopPool, LoopState, initialized, running, exiting, state_of, entered, acquire_loop,
}

-- `k` acquisitions in a row
abbrev pub acquires : ℕ → M EventLoopPool (List ℕ)
acquires zero p = ok [] p
acquires (suc k) p = (do loop ← acquire_loop; rest ← acquires k; return (loop ∷ rest)) p

-- the loops whose threads need not wait any more
abbrev pub IsEntered : ℕ → EventLoopPool → Type 0
IsEntered loop p = state_of loop p.states ≢ initialized

abbrev pub AllEntered : List ℕ → EventLoopPool → Type 0
AllEntered [] p = Unit {0}
AllEntered (loop ∷ loops) p = IsEntered loop p × AllEntered loops p

-- What some acquisitions leave.
pub record Acquired (loops : List ℕ) (p p' : EventLoopPool) : Type 0 where
  pub same_loops : p'.sub_loops ≡ p.sub_loops
  pub same_max : p'.max_thread_num ≡ p.max_thread_num
  pub next : p'.index ≡ p.index + length loops
  pub all : AllEntered loops p'
  pub kept : (loop : ℕ) → IsEntered loop p → IsEntered loop p'

head-drop :
    (j x : ℕ) (xs rest : List ℕ)
    → drop j xs ≡ x ∷ rest
    → (get_elem? xs j ≡ some x) × (drop (suc j) xs ≡ rest) × (j < length xs)
head-drop zero x [] rest e = absurd (cc e)
head-drop zero x (y ∷ xs) rest e = (cc e, cc e, omega arith)
head-drop (suc j) x [] rest e = absurd (cc e)
head-drop (suc j) x (y ∷ xs) rest e =
    let h = head-drop j x xs rest e in (h.0, h.1, omega (arith, h.2))

running-ne-initialized : running ≢ initialized
running-ne-initialized e = cc

exiting-ne-initialized : exiting ≢ initialized
exiting-ne-initialized e = cc

entered_first :
    (loop : ℕ) (states : List (ℕ × LoopState))
    → state_of loop states ≡ initialized
    → entered loop states ≡ put loop running states
unfolding entered
entered_first loop states e = ground (arith, e)

entered_running :
    (loop : ℕ) (states : List (ℕ × LoopState))
    → state_of loop states ≡ running
    → entered loop states ≡ states
unfolding entered
entered_running loop states e = ground (arith, e)

entered_exiting :
    (loop : ℕ) (states : List (ℕ × LoopState))
    → state_of loop states ≡ exiting
    → entered loop states ≡ states
unfolding entered
entered_exiting loop states e = ground (arith, e)

entered-state_of :
    (loop j : ℕ) (states : List (ℕ × LoopState))
    → (j ≡ loop) ⊎ (state_of j states ≢ initialized)
    → state_of j (entered loop states) ≢ initialized
entered-state_of loop j states h = by_state (state_of loop states) refl
  where
    settled :
        (state : LoopState)
        → state ≢ initialized
        → state_of loop states ≡ state
        → (j ≡ loop) ⊎ (state_of j states ≢ initialized)
        → state_of j states ≢ initialized
    settled state ne e (inl same) =
        λ f. ne (sym e ∙ ap (λ (k : ℕ). state_of k states) (sym same) ∙ f)
    settled state ne e (inr other) = other

    entered_now :
        (j ≡ loop) ⊎ (state_of j states ≢ initialized)
        → state_of j (put loop running states) ≢ initialized
    entered_now (inl same) f =
        running-ne-initialized (ground (arith, same, f, lookup-put loop j running states))
    entered_now (inr other) f = elim (Bool-cases (loop == j)) [
      | inl here ↦
          running-ne-initialized (ground (arith, here, f, lookup-put loop j running states))
      | inr away ↦ other (ground (arith, away, f, lookup-put loop j running states))
    ]

    by_state :
        (state : LoopState)
        → state_of loop states ≡ state
        → state_of j (entered loop states) ≢ initialized
    by_state initialized e =
        subst (λ m. state_of j m ≢ initialized) (sym (entered_first loop states e)) (entered_now h)
    by_state running e =
        subst (λ m. state_of j m ≢ initialized) (sym (entered_running loop states e))
          (settled running running-ne-initialized e h)
    by_state exiting e =
        subst (λ m. state_of j m ≢ initialized) (sym (entered_exiting loop states e))
          (settled exiting exiting-ne-initialized e h)

pub acquire_lem :
    (loop : ℕ) (p : EventLoopPool)
    → p.max_thread_num ≢ 0
    → get_elem? p.sub_loops (p.index % length p.sub_loops) ≡ some loop
    → 0 < length p.sub_loops
    → suc p.index < size_mod
    → acquire_loop p ≡ ok loop (record p { index = suc p.index; states = entered loop p.states })
unfolding acquire_loop
acquire_lem loop p threads there some_loops small =
    let e : add_size p.index 1 ≡ suc p.index = omega arith in
    ground (arith, ne→== _ _ threads, there, ne→== (length p.sub_loops) 0 (omega arith), e)

-- The acquisitions of the loops from the `j`-th on.
acquires_from :
    (j : ℕ) (loops : List ℕ) (p : EventLoopPool)
    → p.max_thread_num ≢ 0
    → drop j p.sub_loops ≡ loops
    → (j < length p.sub_loops → p.index % length p.sub_loops ≡ j)
    → p.index + length loops < size_mod
    → (p' : EventLoopPool) × (acquires (length loops) p ≡ ok loops p') × Acquired loops p p'
acquires_from j [] p threads e at small = (
  p,
  refl,
  record { same_loops = refl; same_max = refl; next = omega arith; all = tt; kept = λ loop h. h },
)
acquires_from j (loop ∷ loops) p threads e at small =
    let h = head-drop j loop p.sub_loops loops e in
    let first =
      acquire_lem loop p threads (ap (λ (k : ℕ). get_elem? p.sub_loops k) (at h.2) ∙ h.0)
        (omega (arith, h.2)) (omega arith) in
    let p1 : EventLoopPool = record p { index = suc p.index; states = entered loop p.states } in
    let r =
      acquires_from (suc j) loops p1 threads h.1
        (λ below.
          suc-mod p.index (length p.sub_loops)
          ∙ ap (λ (k : ℕ). suc k % length p.sub_loops) (at h.2)
          ∙ mod-eq_of_lt below)
        (omega arith) in
    (
      r.0,
      bind_ok acquire_loop _ p first ∙ bind_ok (acquires (length loops)) _ p1 r.1,
      record {
        same_loops = r.2.same_loops;
        same_max = r.2.same_max;
        next = omega (arith, r.2.next);
        all = (r.2.kept loop (entered-state_of loop loop p.states (inl refl)), r.2.all);
        kept = λ other was. r.2.kept other (entered-state_of loop other p.states (inr was));
      },
    )

-- A pool with threads, all of whose loops have registered, hands out in one round, which starts where
-- the index is a multiple of their number and does not overflow it, each loop once, in the order of
-- registration; the next round starts so again; and no loop that was handed out is left Initialized,
-- so that its thread runs it.
pub acquires_round :
    (p : EventLoopPool)
    → p.max_thread_num ≢ 0
    → p.index % length p.sub_loops ≡ 0
    → p.index + length p.sub_loops < size_mod
    → (p' : EventLoopPool) × (acquires (length p.sub_loops) p ≡ ok p.sub_loops p')
      × Acquired p.sub_loops p p'
      × (p'.index % length p.sub_loops ≡ 0)
acquires_round p threads start small =
    let r = acquires_from 0 p.sub_loops p threads refl (λ below. start) small in
    (
      r.0,
      r.1,
      r.2,
      ap (λ (k : ℕ). k % length p.sub_loops) r.2.next
          ∙ add-mod_right p.index (length p.sub_loops)
          ∙ start,
    )
