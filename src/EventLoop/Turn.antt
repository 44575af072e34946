-- ===== src/EventLoop/Turn.antt =====
-- One round of `startLoop` of src/net/EventLoop.cpp: handlers run while the loop is looping, tasks
-- when it is not.
use simple_tcp.Prelude.{
  ℕ, ◌≡◌, refl, ◌∙◌, List, [], ◌∷◌, Bool, true, false, arith, Outcome, ok, threw, abort, fault,
  hang, M, Build, Option, if◌then◌else◌, ◌>>◌, Bool-cases, inl, inr, then_first, then_cong,
  bind_cong, modify, length, ◌==◌,
}
use simple_tcp.Epoller.Mask.{Events}
use simple_tcp.Epoller.{Channel, Epoller, has_channel, poll}
use simple_tcp.EventLoop.{
  Loop, run_tasks, run_handlers, do_pending_tasks, after_poll, turn, with_poller,
}

module _ {ℓ κ} {T : Type ℓ} {S : Type κ} where
  -- `m` behind a check of `mIsLoopingNow`: any other value is a fault.
  abbrev pub only_if_looping : Bool → M (Loop T S) (Unit {0}) → M (Loop T S) (Unit {0})
  only_if_looping true m l = if l.looping then m l else fault
  only_if_looping false m l = if l.looping then fault else m l

  -- A handler or a task does not touch `mIsLoopingNow` itself.
  abbrev pub KeepsLooping : M (Loop T S) (Unit {0}) → Type (ℓ ⊔ κ)
  KeepsLooping m = (l l' : Loop T S) → m l ≡ ok tt l' → l'.looping ≡ l.looping

  module _ (exec : T → M (Loop T S) (Unit {0})) (keep : (t : T) → KeepsLooping (exec t)) where
    run_tasks_guarded :
        (ts : List T) (l : Loop T S)
        → l.looping ≡ false
        → run_tasks (λ t. only_if_looping false (exec t)) ts l ≡ run_tasks exec ts l
    unfolding run_tasks
    run_tasks_guarded [] l h = refl
    run_tasks_guarded (t ∷ ts) l h =
        then_first (only_if_looping false (exec t)) (exec t)
          (run_tasks (λ t. only_if_looping false (exec t)) ts) l (rw h)
        ∙ then_cong (exec t) (run_tasks (λ t. only_if_looping false (exec t)) ts)
            (run_tasks exec ts) l (λ l' e. run_tasks_guarded ts l' (keep t l l' e ∙ h))

    do_pending_guarded :
        (l : Loop T S)
        → l.looping ≡ false
        → do_pending_tasks (λ t. only_if_looping false (exec t)) l ≡ do_pending_tasks exec l
    unfolding do_pending_tasks
    do_pending_guarded l h =
        then_first (run_tasks (λ t. only_if_looping false (exec t)) l.pending)
          (run_tasks exec l.pending) (modify (λ l. record l { doing_pending = false }))
          (record l { doing_pending = true; pending = [] })
          (run_tasks_guarded l.pending (record l { doing_pending = true; pending = [] }) h)

  module _ (handle : Channel → M (Loop T S) (Unit {0}))
      (keep : (c : Channel) → KeepsLooping (handle c)) where
    run_handlers_guarded :
        (cs : List Channel) (l : Loop T S)
        → l.looping ≡ true
        → run_handlers (λ c. only_if_looping true (handle c)) cs l ≡ run_handlers handle cs l
    unfolding run_handlers
    run_handlers_guarded [] l h = refl
    run_handlers_guarded (c ∷ cs) l h = elim (Bool-cases (has_channel c.id l.poller)) [
      | inl there ↦ rw there (
          then_first (only_if_looping true (handle c)) (handle c)
            (run_handlers (λ c. only_if_looping true (handle c)) cs) l (rw h)
          ∙ then_cong (handle c) (run_handlers (λ c. only_if_looping true (handle c)) cs)
              (run_handlers handle cs) l (λ l' e. run_handlers_guarded cs l' (keep c l l' e ∙ h)))
      | inr gone ↦ rw gone (run_handlers_guarded cs l h)
    ]

  with_poller-KeepsLooping :
      {A : Type 0} (m : M Epoller A) (l l' : Loop T S) (a : A)
      → with_poller m l ≡ ok a l'
      → l'.looping ≡ l.looping
  unfolding with_poller
  with_poller-KeepsLooping {A = A} m l l' a e = go (m l.poller) e
    where
      go :
          (o : Outcome Epoller A)
          → elim o [
            | ok a p ↦ ok a (record l { poller = p })
            | threw x p ↦ threw x (record l { poller = p })
            | abort ↦ abort
            | fault ↦ fault
            | hang ↦ hang
          ]
            ≡ ok a l'
          → l'.looping ≡ l.looping
      go (ok b p) e = ground arith
      go (threw x p) e = cc
      go abort e = cc
      go fault e = cc
      go hang e = cc

  module _ (build : Build) (object : ℕ → Channel)
      (sort : (Channel → Channel → Bool) → List Channel → List Channel)
      (handle : Channel → M (Loop T S) (Unit {0})) (exec : T → M (Loop T S) (Unit {0}))
      (handlers_keep : (c : Channel) → KeepsLooping (handle c))
      (tasks_keep : (t : T) → KeepsLooping (exec t)) where
    after_poll_guarded :
        (active : List Channel) (l : Loop T S)
        → l.looping ≡ true
        → after_poll
            (λ c. only_if_looping true (handle c))
            (λ t. only_if_looping false (exec t))
            active
            l
          ≡ after_poll handle exec active l
    unfolding after_poll run_handlers
    after_poll_guarded [] l h =
        do_pending_guarded exec tasks_keep (record l { looping = false }) refl
    after_poll_guarded (c ∷ cs) l h =
        let some_left : (length (c ∷ cs) == 0) ≡ false = ground arith in
        rw some_left (
          then_first (run_handlers (λ c. only_if_looping true (handle c)) (c ∷ cs))
            (run_handlers handle (c ∷ cs)) (tasks (λ t. only_if_looping false (exec t))) l
            (run_handlers_guarded handle handlers_keep (c ∷ cs) l h)
          ∙ then_cong (run_handlers handle (c ∷ cs)) (tasks (λ t. only_if_looping false (exec t)))
              (tasks exec) l
              (λ l' e. do_pending_guarded exec tasks_keep (record l' { looping = false }) refl))
      where
        tasks : (T → M (Loop T S) (Unit {0})) → M (Loop T S) (Unit {0})
        tasks run = do modify (λ l. record l { looping = false }); do_pending_tasks run

    -- In a round of `startLoop` every handler runs with `mIsLoopingNow` set and every task with it
    -- clear, if handlers and tasks leave that flag alone: a check of it at the start of each never
    -- fires.
    pub turn_guarded :
        (ready : Option (List (ℕ × Events))) (l : Loop T S)
        → turn build object sort
            (λ c. only_if_looping true (handle c))
            (λ t. only_if_looping false (exec t))
            ready
            l
          ≡ turn build object sort handle exec ready l
    unfolding turn
    turn_guarded ready l =
        bind_cong (with_poller (poll build object sort ready)) _ _ (record l { looping = true })
          (λ active l' e. after_poll_guarded active l' (
            with_poller-KeepsLooping (poll build object sort ready) (record l { looping = true }) l'
              active e))
