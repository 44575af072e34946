-- ===== src/LogServer/Runs.antt =====
-- Histories of LogServer: the threads that log and the flush thread, in any order.
use simple_tcp.Prelude.{
  ℕ, ◌≤◌, ◌≡◌, ◌≢◌, refl, sym, ap, ◌∙◌, subst, List, [], ◌++◌, append-nil, append_assoc, Bool, true,
  false, inl, inr, length, Outcome, ok,
}
use simple_tcp.LogServer.{LogServer, write, flusher, force_flush, force_destroy}
use simple_tcp.LogServer.Stream.{stream, IsValid, write_lem}
use simple_tcp.LogServer.Flush.{flusher_lem}

true-ne-false : true ≢ false
true-ne-false e = cc

module _ (buffer_size max_file_size : ℕ) where
  -- One thing that happens, with the bytes of the line that was kept, if any.
  pub data Step (s : LogServer) : List ℕ → LogServer → Type 0 where
    logged :
        (line : List ℕ) (s' : LogServer)
        → length line ≤ buffer_size
        → write buffer_size max_file_size line s ≡ ok true s'
        → Step s line s'
    dropped :
        (line : List ℕ) (s' : LogServer)
        → length line ≤ buffer_size
        → write buffer_size max_file_size line s ≡ ok false s'
        → Step s [] s'
    flush_turn : Step s [] (flusher buffer_size max_file_size s)
    flush_asked : Step s [] (force_flush s)
    stop_asked : Step s [] (force_destroy s)

  pub data Run (s : LogServer) : List ℕ → LogServer → Type 0 where
    here : Run s [] s
    next :
        {bytes more : List ℕ} {t u : LogServer}
        → Run s bytes t
        → Step t more u
        → Run s (bytes ++ more) u

  record Grown (s : LogServer) (bytes : List ℕ) (s' : LogServer) : Type 0 where
    valid : IsValid buffer_size s'
    grows : stream s' ≡ stream s ++ bytes

  same_end :
      {k k' : Bool} {s' s'' : LogServer}
      → ◌≡◌ {A = Outcome LogServer Bool} (ok k s') (ok k' s'')
      → s' ≡ s''
  same_end e = cc

  other_result :
      {s' s'' : LogServer}
      → ◌≡◌ {A = Outcome LogServer Bool} (ok true s') (ok false s'')
      → true ≡ false
  other_result e = cc

  unmoved : (s s' : LogServer) → IsValid buffer_size s' → stream s' ≡ stream s → Grown s [] s'
  unmoved s s' v e = record { valid = v; grows = e ∙ sym (append-nil (stream s)) }

  Step-Grown :
      {s s' : LogServer} {bytes : List ℕ}
      → IsValid buffer_size s
      → Step s bytes s'
      → Grown s bytes s'
  Step-Grown {s = s} v (logged line s' small e) =
      elim (write_lem buffer_size max_file_size line s v small) [
        | inl kept ↦
            subst (λ t. Grown s line t) (same_end (sym kept.1 ∙ e))
              (record { valid = kept.2.valid; grows = kept.2.grows })
        | inr lost ↦ absurd (true-ne-false (other_result (sym e ∙ lost.0)))
      ]
  Step-Grown {s = s} v (dropped line s' small e) =
      elim (write_lem buffer_size max_file_size line s v small) [
        | inl kept ↦ absurd (true-ne-false (other_result (sym kept.1 ∙ e)))
        | inr lost ↦ subst (λ t. Grown s [] t) (same_end (sym lost.0 ∙ e)) (unmoved s s v refl)
      ]
  Step-Grown {s = s} v flush_turn =
      let f = flusher_lem buffer_size max_file_size s v in
      unmoved s (flusher buffer_size max_file_size s) f.valid f.same
  Step-Grown {s = s} v flush_asked =
      unmoved s (force_flush s) (record { idle = v.idle; few = v.few; fits = v.fits }) refl
  Step-Grown {s = s} v stop_asked =
      unmoved s (force_destroy s) (record { idle = v.idle; few = v.few; fits = v.fits }) refl

  -- Over any history of a well-formed server, of calls of `write` with lines that fit in a buffer, turns
  -- of the flush thread between any two of them, and requests to flush and to stop: the bytes in the
  -- files followed by those in memory are what was there before followed by the lines kept since, in
  -- order; and the server stays well-formed, so that at most seven buffers wait.
  pub Run-IsValid :
      {s s' : LogServer} {bytes : List ℕ}
      → IsValid buffer_size s
      → Run s bytes s'
      → IsValid buffer_size s' × (stream s' ≡ stream s ++ bytes)
  Run-IsValid {s = s} v here = (v, sym (append-nil (stream s)))
  Run-IsValid {s = s} v (next {bytes = bytes} {more = more} r st) =
      let before = Run-IsValid v r in
      let g = Step-Grown before.0 st in
      (g.valid, g.grows ∙ ap (λ xs. xs ++ more) before.1 ∙ append_assoc (stream s) bytes more)
