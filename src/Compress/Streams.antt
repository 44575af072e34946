-- ===== src/Compress/Streams.antt =====
-- The streams of zlib that compress_gzip and uncompress_gzip of src/base/Compress.cpp make and end.
use simple_tcp.Prelude.{
  ℕ, suc, ◌>>=◌, ◌+◌, ◌-◌, ◌^◌, ◌<◌, ◌≡◌, ◌⊎◌, inl, inr, refl, sym, ap, subst, ◌∙◌, true, false, [],
  ◌++◌, none, some, length, drop, replicate, take-append, take_all, length-append, Option-cases,
  Bool-cases, arith, Outcome, ok, threw, abort, fault, hang, other_exception, append-nil,
}
use simple_tcp.Buffer.Memory.{resized}
use simple_tcp.Strings.{Text}
use native.Mathlib.Nat.{mod-eq_of_lt}
use simple_tcp.Compress.{
  Code, Flush, z_ok, z_stream_end, z_error, z_no_flush, z_finish, Stream, Coder, same_code, start,
  filled, init_stream, call, end_stream, run,
}
use simple_tcp.Compress.Manual.{whole, IsCoder}

pub same_code-≡ : (c c' : Code) → same_code c c' ≡ true → c ≡ c'
same_code-≡ z_ok z_ok e = refl
same_code-≡ z_ok z_stream_end e = absurd (ground (arith, e))
same_code-≡ z_ok z_error e = absurd (ground (arith, e))
same_code-≡ z_stream_end z_ok e = absurd (ground (arith, e))
same_code-≡ z_stream_end z_stream_end e = refl
same_code-≡ z_stream_end z_error e = absurd (ground (arith, e))
same_code-≡ z_error z_ok e = absurd (ground (arith, e))
same_code-≡ z_error z_stream_end e = absurd (ground (arith, e))
same_code-≡ z_error z_error e = refl

same_code_self : (c : Code) → same_code c c ≡ true
same_code_self z_ok = refl
same_code_self z_stream_end = refl
same_code_self z_error = refl

pub start_whole :
    {S : Type 0} (s : S) (src : Text) (n : ℕ)
    → length src < 2 ^ 32
    → n < 2 ^ 32
    → start s src n ≡ whole s src n
start_whole s src n short small =
    rw (mod-eq_of_lt short, mod-eq_of_lt small, take_all (length src) src (omega arith)) refl

-- A destination whose room is all accounted for gives what was written.
pub filled_lem :
    {S : Type 0} (n : ℕ) (st : Stream S)
    → length st.written + st.avail_out ≡ n
    → filled n st ≡ st.written
unfolding filled resized
filled_lem n st h =
    ap (λ (m : ℕ). resized m (st.written ++ rest)) fill
    ∙ ap (λ (xs : Text). xs ++ replicate (length st.written - length (st.written ++ rest)) 0)
        (take-append st.written rest)
    ∙ ap (λ (m : ℕ). st.written ++ replicate m 0) none_left
    ∙ append-nil st.written
  where
    rest : Text
    rest = drop (length st.written) (resized n [])

    fill : n - st.avail_out ≡ length st.written
    fill = omega (arith, h)

    none_left : length st.written - length (st.written ++ rest) ≡ 0
    none_left = omega (arith, length-append st.written rest)

module _ (c : Coder) where
  init_stream-cases :
      (open_streams : ℕ)
      → ((c.init ≡ none) × (init_stream c open_streams ≡ threw other_exception open_streams))
        ⊎ ((s : c.State) × (c.init ≡ some s)
            × (init_stream c open_streams ≡ ok s (suc open_streams)))
  unfolding init_stream
  init_stream-cases open_streams = elim (Option-cases c.init) [
    | inl e ↦ inl (e, rw e refl)
    | inr (s, e) ↦ inr (s, e, rw e refl)
  ]

  call-cases :
      (f : Flush) (wanted : Code) (st : Stream c.State) (open_streams : ℕ)
      → (((c.step f st).0 ≡ wanted)
          × (call c f wanted st open_streams ≡ ok (c.step f st).1 open_streams))
        ⊎ (call c f wanted st open_streams ≡ threw other_exception open_streams)
  unfolding call
  call-cases f wanted st open_streams = elim (Bool-cases (same_code (c.step f st).0 wanted)) [
    | inl e ↦ inl (same_code-≡ (c.step f st).0 wanted e, rw (e, call) refl)
    | inr e ↦ inr (rw (e, call) refl)
  ]

  init_stream_lem :
      (s : c.State) (open_streams : ℕ)
      → c.init ≡ some s
      → init_stream c open_streams ≡ ok s (suc open_streams)
  unfolding init_stream
  init_stream_lem s open_streams e = rw e refl

  call_lem :
      (f : Flush) (wanted : Code) (st : Stream c.State) (open_streams : ℕ)
      → (c.step f st).0 ≡ wanted
      → call c f wanted st open_streams ≡ ok (c.step f st).1 open_streams
  unfolding call
  call_lem f wanted st open_streams e = rw (e, same_code_self wanted, call) refl

  end_stream_lem :
      (st : Stream c.State) (open_streams : ℕ)
      → c.end st ≡ (z_ok, true)
      → end_stream c st (suc open_streams) ≡ ok st open_streams
  unfolding end_stream
  end_stream_lem st open_streams e =
      rw (ap (λ p. p.0) e, ap (λ p. p.1) e, end_stream) (ap (λ (m : ℕ). ok st m) (omega arith))

-- The two calls, from the start.
abbrev pub first : (c : Coder) → Text → ℕ → c.State → Code × Stream c.State
first c src n s = c.step z_no_flush (start s src n)

abbrev pub last : (c : Coder) → Text → ℕ → c.State → Code × Stream c.State
last c src n s = c.step z_finish (first c src n s).1

module _ (c : Coder) (k : IsCoder c) (wanted : Code) (src : Text) (n : ℕ) where
  -- What `run` comes to: a stream whose calls all returned what they had to is ended, and any other that
  -- was made is left.
  abbrev pub IsRun : ℕ → Outcome ℕ Text → Type 0
  IsRun open_streams (ok t after) =
      (s : c.State) × (c.init ≡ some s)
      × ((first c src n s).0 ≡ wanted)
      × ((last c src n s).0 ≡ z_stream_end)
      × (t ≡ filled n (last c src n s).1)
      × (after ≡ open_streams)
  IsRun open_streams (threw e after) =
      (e ≡ other_exception)
      × (((c.init ≡ none) × (after ≡ open_streams)) ⊎ (after ≡ suc open_streams))
  IsRun open_streams abort = true ≡ false
  IsRun open_streams fault = true ≡ false
  IsRun open_streams hang = true ≡ false

  -- where the calls return what they have to
  pub run_ok :
      (s : c.State) (open_streams : ℕ)
      → c.init ≡ some s
      → (first c src n s).0 ≡ wanted
      → (last c src n s).0 ≡ z_stream_end
      → run c wanted src n open_streams ≡ ok (filled n (last c src n s).1) open_streams
  unfolding run
  run_ok s open_streams e first_code last_code =
      rw
        (
          init_stream_lem c s open_streams e,
          call_lem c z_no_flush wanted (start s src n) (suc open_streams) first_code,
          call_lem c z_finish z_stream_end (first c src n s).1 (suc open_streams) last_code,
          end_stream_lem c (last c src n s).1 open_streams (k.ends (first c src n s).1 last_code),
          run,
          ◌>>=◌,
        )
        refl

  pub run-IsRun : (open_streams : ℕ) → IsRun open_streams (run c wanted src n open_streams)
  unfolding run
  run-IsRun open_streams = elim (init_stream-cases c open_streams) [
    | inl (e, none_made) ↦
        from (threw other_exception open_streams) (rw (none_made, run, ◌>>=◌) refl)
          (refl, inl (e, refl))
    | inr (s, e, made) ↦ elim (call-cases c z_no_flush wanted (start s src n) (suc open_streams)) [
      | inr failed ↦
          from (threw other_exception (suc open_streams)) (rw (made, failed, run, ◌>>=◌) refl)
            (refl, inr refl)
      | inl (first_code, went) ↦
          elim (call-cases c z_finish z_stream_end (first c src n s).1 (suc open_streams)) [
            | inr failed ↦
                from (threw other_exception (suc open_streams))
                  (rw (made, went, failed, run, ◌>>=◌) refl) (refl, inr refl)
            | inl (last_code, finished) ↦
                from (ok (filled n (last c src n s).1) open_streams)
                  (run_ok s open_streams e first_code last_code)
                  (s, e, first_code, last_code, refl, refl)
          ]
    ]
  ]
    where
      from :
          (o : Outcome ℕ Text)
          → run c wanted src n open_streams ≡ o
          → IsRun open_streams o
          → IsRun open_streams (run c wanted src n open_streams)
      from o e t = subst (λ o. IsRun open_streams o) (sym e) t
