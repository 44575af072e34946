-- ===== src/LogServer/Stream.antt =====
-- No line that LogServer kept is lost, doubled or reordered on its way to the files.
use simple_tcp.Prelude.{
  ℕ, suc, ◌+◌, ◌-◌, ◌≤◌, ◌<◌, ◌≡◌, refl, sym, ap, ◌∙◌, List, [], ◌∷◌, ◌++◌, append-nil,
  append_assoc, true, false, leb, inl, inr, ◌⊎◌, Bool-cases, arith, length, length-append, ok,
  leb→le, leb→lt, le→leb,
}
use simple_tcp.LogServer.{
  LogServer, waiting, joined, emptied, max_pending_buffers, next_buffer, write_buffer, write,
}

pub joined-append : (xs ys : List (List ℕ)) → joined (xs ++ ys) ≡ joined xs ++ joined ys
joined-append [] ys = refl
joined-append (x ∷ xs) ys =
    ap (λ zs. x ++ zs) (joined-append xs ys) ∙ sym (append_assoc x (joined xs) (joined ys))

pub joined-emptied : (xs : List (List ℕ)) → joined (emptied xs) ≡ []
joined-emptied [] = refl
joined-emptied (x ∷ xs) = joined-emptied xs

-- what is in the files
abbrev pub on_disk : LogServer → List ℕ
on_disk s = joined s.files ++ s.file

-- what is in memory, in the order in which it is to be written
abbrev pub in_memory : LogServer → List ℕ
in_memory s = joined s.taken ++ (joined s.pending ++ s.current)

abbrev pub stream : LogServer → List ℕ
stream s = on_disk s ++ in_memory s

pub stream-next_buffer : (s : LogServer) → stream (next_buffer s) ≡ stream s
unfolding next_buffer
stream-next_buffer s =
    ap (λ xs. on_disk s ++ (joined s.taken ++ xs))
      (append-nil (joined (s.pending ++ (s.current ∷ [])))
        ∙ joined-append s.pending (s.current ∷ [])
        ∙ ap (λ xs. joined s.pending ++ xs) (append-nil s.current))

-- Between two turns the flush thread holds no buffer; no more buffers wait than one over the limit;
-- and the buffer in use is within its array.
pub record IsValid (buffer_size : ℕ) (s : LogServer) : Type 0 where
  pub idle : s.phase ≡ waiting → s.taken ≡ []
  pub few : length s.pending ≤ suc max_pending_buffers
  pub fits : length s.current ≤ buffer_size

module _ (buffer_size max_file_size : ℕ) where
  -- what a call of `write` leaves
  pub record Kept (line : List ℕ) (s s' : LogServer) : Type 0 where
    pub valid : IsValid buffer_size s'
    pub grows : stream s' ≡ stream s ++ line

  in_current :
      (line : List ℕ) (s : LogServer)
      → length s.current + length line ≤ buffer_size
      → write_buffer buffer_size max_file_size line s
        ≡ ok tt (record s { current = s.current ++ line })
  unfolding write_buffer
  in_current line s h = ground (arith, le→leb _ _ h)

  stream_current :
      (line : List ℕ) (s : LogServer)
      → stream (record s { current = s.current ++ line }) ≡ stream s ++ line
  stream_current line s =
      ap (λ xs. on_disk s ++ (joined s.taken ++ xs))
        (sym (append_assoc (joined s.pending) s.current line))
      ∙ ap (λ xs. on_disk s ++ xs)
          (sym (append_assoc (joined s.taken) (joined s.pending ++ s.current) line))
      ∙ sym (append_assoc (on_disk s) (in_memory s) line)

  -- A line that is no longer than a buffer is either kept, behind all that was logged before, or,
  -- where the buffer in use has no room and more than six others wait, dropped, and then nothing is
  -- changed; the copy stays within the array, and the server stays well-formed.
  pub write_lem :
      (line : List ℕ) (s : LogServer)
      → IsValid buffer_size s
      → length line ≤ buffer_size
      → ((s' : LogServer) × (write buffer_size max_file_size line s ≡ ok true s') × Kept line s s')
        ⊎ ((write buffer_size max_file_size line s ≡ ok false s)
            × (max_pending_buffers < length s.pending)
            × (buffer_size < length s.current + length line))
  unfolding write next_buffer
  write_lem line s v small =
      elim (Bool-cases (leb (length line) (buffer_size - length s.current))) [
        | inl room ↦
            let h : length s.current + length line ≤ buffer_size =
              omega (arith, leb→le _ _ room, v.fits) in
            inl (
              record s { current = s.current ++ line },
              ground (arith, room, in_current line s h),
              record {
                valid = record {
                  idle = v.idle;
                  few = v.few;
                  fits = omega (arith, length-append s.current line);
                };
                grows = stream_current line s;
              },
            )
        | inr full ↦ elim (Bool-cases (leb (length s.pending) max_pending_buffers)) [
          | inl few ↦ inl (
            record (next_buffer s) { current = line },
            ground (arith, full, few, in_current line (next_buffer s) (fresh_fits s small)),
            record {
              valid = valid_next s v (leb→le _ _ few) small;
              grows =
                  stream_current line (next_buffer s)
                  ∙ ap (λ xs. xs ++ line) (stream-next_buffer s);
            },
          )
          | inr many ↦
              inr (ground (arith, full, many), leb→lt _ _ many, omega (arith, leb→lt _ _ full))
        ]
      ]
    where
      fresh_fits :
          (s : LogServer)
          → length line ≤ buffer_size
          → length (next_buffer s).current + length line ≤ buffer_size
      fresh_fits s h = omega arith

      valid_next :
          (s : LogServer)
          → IsValid buffer_size s
          → length s.pending ≤ max_pending_buffers
          → length line ≤ buffer_size
          → IsValid buffer_size (record (next_buffer s) { current = line })
      valid_next s v few h = record {
        idle = v.idle;
        few = omega (arith, length-append s.pending (s.current ∷ []));
        fits = h;
      }
