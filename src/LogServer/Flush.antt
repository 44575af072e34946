-- ===== src/LogServer/Flush.antt =====
-- The flush thread of LogServer, and any interleaving of it with the threads that log.
use simple_tcp.Prelude.{
  ℕ, suc, ◌+◌, ◌≤◌, ◌≡◌, ◌≢◌, refl, sym, ap, ◌∙◌, subst, List, [], ◌∷◌, ◌++◌, append-nil,
  append_assoc, true, false, ◌||◌, ◌==◌, leb, inl, inr, Bool-cases, arith, length, if◌then◌else◌,
}
use simple_tcp.LogServer.{
  LogServer, Phase, waiting, flushing, ended, joined, emptied, max_pending_buffers, next_buffer,
  wake, flush_buffer, flusher, swap_pending, next_file, append_file,
}
use simple_tcp.LogServer.Stream.{
  on_disk, in_memory, stream, IsValid, joined-append, joined-emptied, stream-next_buffer,
}

waiting-ne-flushing : waiting ≢ flushing
waiting-ne-flushing e = cc

module _ (buffer_size max_file_size : ℕ) where
  -- a turn of the flush thread moves bytes and changes none
  pub record Same (s s' : LogServer) : Type 0 where
    pub valid : IsValid buffer_size s'
    pub same : stream s' ≡ stream s

  wake_stop :
      (s : LogServer)
      → s.stop ≡ true
      → s.taken ≡ []
      → stream (wake buffer_size max_file_size s) ≡ stream s
  unfolding wake
  wake_stop s st none_taken = rw st (
      ap
        (λ xs.
          (joined s.files ++ (s.file ++ (joined s.pending ++ s.current)))
          ++ (joined s.taken ++ (xs ++ [])))
        (joined-emptied s.pending)
      ∙ ap
          (λ xs.
            (joined s.files ++ (s.file ++ (joined s.pending ++ s.current))) ++ (joined xs ++ []))
          none_taken
      ∙ append-nil (joined s.files ++ (s.file ++ (joined s.pending ++ s.current)))
      ∙ sym (append_assoc (joined s.files) s.file (joined s.pending ++ s.current))
      ∙ ap (λ xs. on_disk s ++ (joined xs ++ (joined s.pending ++ s.current))) (sym none_taken))

  stream-swap_pending : (s : LogServer) → s.taken ≡ [] → stream (swap_pending s) ≡ stream s
  unfolding swap_pending
  stream-swap_pending s none_taken =
      ap (λ xs. on_disk s ++ (joined s.pending ++ (joined xs ++ s.current))) none_taken
      ∙ ap (λ xs. on_disk s ++ (joined xs ++ (joined s.pending ++ s.current))) (sym none_taken)

  swapped :
      (s : LogServer) → length s.current ≤ buffer_size → s.taken ≡ [] → Same s (swap_pending s)
  unfolding swap_pending
  swapped s fits none_taken = record {
    valid = record {
      idle = λ e. absurd (cc e);
      few = subst (λ xs. length xs ≤ suc max_pending_buffers) (sym none_taken) (omega arith);
      fits = fits;
    };
    same = stream-swap_pending s none_taken;
  }

  length-emptied : (xs : List (List ℕ)) → length (emptied xs) ≡ length xs
  length-emptied [] = refl
  length-emptied (x ∷ xs) = ap suc (length-emptied xs)

  takes_all :
      (s : LogServer)
      → s.stop ≡ false
      → (length s.pending == 0 || s.need_flush) ≡ true
      → wake buffer_size max_file_size s
        ≡ swap_pending (record (next_buffer s) { need_flush = false })
  unfolding wake
  takes_all s going all = ground (arith, going, all)

  takes_pending :
      (s : LogServer)
      → s.stop ≡ false
      → (length s.pending == 0 || s.need_flush) ≡ false
      → wake buffer_size max_file_size s ≡ swap_pending s
  unfolding wake
  takes_pending s going some_wait = ground (arith, going, some_wait)

  pub flusher_waits :
      (s : LogServer)
      → s.phase ≡ waiting
      → flusher buffer_size max_file_size s ≡ wake buffer_size max_file_size s
  unfolding flusher
  flusher_waits s e = rw e refl

  pub flusher_ended : (s : LogServer) → s.phase ≡ ended → flusher buffer_size max_file_size s ≡ s
  unfolding flusher
  flusher_ended s e = rw e refl

  -- the buffer in use is to be written too
  abbrev with_current : LogServer → LogServer
  with_current s = record (next_buffer s) { need_flush = false }

  with_current_lem : (s : LogServer) → s.taken ≡ [] → Same s (swap_pending (with_current s))
  unfolding next_buffer
  with_current_lem s none_taken =
      let t = swapped (with_current s) (omega arith) none_taken in
      record { valid = t.valid; same = t.same ∙ stream-next_buffer s }

  stopped :
      (s : LogServer)
      → IsValid buffer_size s
      → s.stop ≡ true
      → IsValid buffer_size (wake buffer_size max_file_size s)
  unfolding wake
  stopped s v st = rw st (record {
    idle = λ e. absurd (cc e);
    few = omega (arith, length-emptied s.pending, v.few);
    fits = omega arith;
  })

  wake_lem :
      (s : LogServer)
      → IsValid buffer_size s
      → s.taken ≡ []
      → Same s (wake buffer_size max_file_size s)
  wake_lem s v none_taken = elim (Bool-cases s.stop) [
    | inl st ↦ record { valid = stopped s v st; same = wake_stop s st none_taken }
    | inr going ↦ elim (Bool-cases (length s.pending == 0 || s.need_flush)) [
      | inl all ↦
          subst (λ r. Same s r) (sym (takes_all s going all)) (with_current_lem s none_taken)
      | inr some_wait ↦
          subst (λ r. Same s r) (sym (takes_pending s going some_wait))
            (swapped s v.fits none_taken)
    ]
  ]

  on_disk-next_file : (s : LogServer) → on_disk (next_file s) ≡ on_disk s
  on_disk-next_file s =
      append-nil (joined (s.files ++ (s.file ∷ [])))
      ∙ joined-append s.files (s.file ∷ [])
      ∙ ap (λ xs. joined s.files ++ xs) (append-nil s.file)

  -- A buffer that was taken goes to the end of the files.
  appended :
      (b : List ℕ) (bs : List (List ℕ)) (s t : LogServer)
      → s.taken ≡ b ∷ bs
      → on_disk t ≡ on_disk s
      → in_memory t ≡ joined bs ++ (joined s.pending ++ s.current)
      → stream (append_file b t) ≡ stream s
  appended b bs s t taken disk memory =
      ap (λ xs. xs ++ in_memory t) (sym (append_assoc (joined t.files) t.file b))
      ∙ ap (λ xs. (xs ++ b) ++ in_memory t) disk
      ∙ ap (λ xs. (on_disk s ++ b) ++ xs) memory
      ∙ append_assoc (on_disk s) b (joined bs ++ (joined s.pending ++ s.current))
      ∙ ap (λ xs. on_disk s ++ xs)
          (sym (append_assoc b (joined bs) (joined s.pending ++ s.current)))
      ∙ ap (λ xs. on_disk s ++ (joined xs ++ (joined s.pending ++ s.current))) (sym taken)

  -- one buffer fewer to write
  abbrev rest_of : List (List ℕ) → LogServer → LogServer
  rest_of bs s = record s { taken = bs; flushed = s.flushed + 1 }

  flush_buffer_lem :
      (b : List ℕ) (bs : List (List ℕ)) (s : LogServer)
      → IsValid buffer_size s
      → s.phase ≡ flushing
      → s.taken ≡ b ∷ bs
      → Same s (flush_buffer buffer_size max_file_size b (rest_of bs s))
  unfolding flush_buffer
  flush_buffer_lem b bs s v busy t = elim (Bool-cases (leb max_file_size (length b + s.written))) [
    | inl full ↦
        subst (λ r. Same s r) (written_full full)
          (record {
            valid = record {
              idle = λ e. absurd (waiting-ne-flushing (sym e ∙ busy));
              few = v.few;
              fits = v.fits;
            };
            same =
                appended b bs s (next_file (rest_of bs s)) t (on_disk-next_file (rest_of bs s))
                  refl;
          })
    | inr room ↦
        subst (λ r. Same s r) (written_room room)
          (record {
            valid = record {
              idle = λ e. absurd (waiting-ne-flushing (sym e ∙ busy));
              few = v.few;
              fits = v.fits;
            };
            same = appended b bs s (rest_of bs s) t refl refl;
          })
  ]
    where
      written_full :
          leb max_file_size (length b + s.written) ≡ true
          → append_file b (next_file (rest_of bs s))
            ≡ flush_buffer buffer_size max_file_size b (rest_of bs s)
      written_full full = ground (arith, full)

      written_room :
          leb max_file_size (length b + s.written) ≡ false
          → append_file b (rest_of bs s) ≡ flush_buffer buffer_size max_file_size b (rest_of bs s)
      written_room room = ground (arith, room)

  flusher_gives_back :
      (s : LogServer)
      → s.phase ≡ flushing
      → s.taken ≡ []
      → flusher buffer_size max_file_size s ≡ record s {
        available = s.available + s.flushed;
        flushed = 0;
        phase = if s.stop then ended else waiting;
      }
  unfolding flusher
  flusher_gives_back s busy t = ground (arith, busy, t)

  flusher_writes :
      (b : List ℕ) (bs : List (List ℕ)) (s : LogServer)
      → s.phase ≡ flushing
      → s.taken ≡ b ∷ bs
      → flusher buffer_size max_file_size s
        ≡ flush_buffer buffer_size max_file_size b (rest_of bs s)
  unfolding flusher
  flusher_writes b bs s busy t = ground (arith, busy, t)

  -- Whatever the flush thread does next on a well-formed server, the bytes in the files followed by those
  -- in memory stay the same, in the same order, and the server stays well-formed.
  pub flusher_lem :
      (s : LogServer) → IsValid buffer_size s → Same s (flusher buffer_size max_file_size s)
  flusher_lem s v = by_phase s.phase refl
    where
      by_taken :
          s.phase ≡ flushing
          → (bs : List (List ℕ)) → s.taken ≡ bs
          → Same s (flusher buffer_size max_file_size s)
      by_taken busy [] t =
          subst (λ r. Same s r) (sym (flusher_gives_back s busy t))
            (record { valid = record { idle = λ e. t; few = v.few; fits = v.fits }; same = refl })
      by_taken busy (b ∷ bs) t =
          subst (λ r. Same s r) (sym (flusher_writes b bs s busy t))
            (flush_buffer_lem b bs s v busy t)

      by_phase : (p : Phase) → s.phase ≡ p → Same s (flusher buffer_size max_file_size s)
      by_phase waiting e = subst (λ r. Same s r) (sym (flusher_waits s e)) (wake_lem s v (v.idle e))
      by_phase flushing e = by_taken e s.taken refl
      by_phase ended e =
          subst (λ r. Same s r) (sym (flusher_ended s e)) (record { valid = v; same = refl })
