-- ===== src/LogServer/Stop.antt =====
-- The end of LogServer, and lines that are longer than a buffer.
use simple_tcp.Prelude.{
  ℕ, zero, suc, ◌+◌, ◌-◌, ◌≤◌, ◌<◌, ◌≡◌, refl, sym, ap, ◌∙◌, List, [], ◌++◌, append_assoc, true,
  false, arith, length, fault, leb, le→leb, lt→leb,
}
use simple_tcp.LogServer.{
  LogServer, waiting, flushing, ended, joined, max_pending_buffers, next_buffer, write_buffer,
  write, wake, flusher,
}
use simple_tcp.LogServer.Stream.{on_disk, in_memory, stream, IsValid}
use simple_tcp.LogServer.Flush.{flusher_waits, flusher_ended}

module _ (buffer_size max_file_size : ℕ) where
  -- turns of the flush thread
  abbrev pub turns : ℕ → LogServer → LogServer
  turns zero s = s
  turns (suc n) s = turns n (flusher buffer_size max_file_size s)

  turns_ended : (n : ℕ) (s : LogServer) → s.phase ≡ ended → turns n s ≡ s
  turns_ended zero s e = refl
  turns_ended (suc n) s e =
      ap (λ t. turns n t) (flusher_ended buffer_size max_file_size s e) ∙ turns_ended n s e

  disk_wake :
      (s : LogServer)
      → s.stop ≡ true
      → s.taken ≡ []
      → on_disk (wake buffer_size max_file_size s) ≡ stream s
  unfolding wake
  disk_wake s st t = rw st (
      sym (append_assoc (joined s.files) s.file (joined s.pending ++ s.current))
      ∙ ap (λ xs. on_disk s ++ (joined xs ++ (joined s.pending ++ s.current))) (sym t))

  -- A stop that reaches the flush thread of a well-formed server in its wait: its next turn writes
  -- everything to the files, in order.
  pub clean_stop :
      (s : LogServer)
      → IsValid buffer_size s
      → s.phase ≡ waiting
      → s.stop ≡ true
      → on_disk (flusher buffer_size max_file_size s) ≡ stream s
  clean_stop s v wait st =
      ap (λ t. on_disk t) (flusher_waits buffer_size max_file_size s wait)
      ∙ disk_wake s st (v.idle wait)

  last_turn :
      (s : LogServer)
      → s.phase ≡ flushing
      → s.taken ≡ []
      → s.stop ≡ true
      → flusher buffer_size max_file_size s
        ≡ record s { available = s.available + s.flushed; flushed = 0; phase = ended }
  unfolding flusher
  last_turn s busy t st = ground (arith, busy, t, st)

  -- A stop that reaches the flush thread while it writes the buffers that it took: once these are
  -- written, no turn of it writes anything more, and what was logged meanwhile stays in memory.
  pub late_stop :
      (n : ℕ) (s : LogServer)
      → s.phase ≡ flushing
      → s.taken ≡ []
      → s.stop ≡ true
      → (on_disk (turns n s) ≡ on_disk s) × (in_memory (turns n s) ≡ in_memory s)
  late_stop zero s busy t st = (refl, refl)
  late_stop (suc n) s busy t st =
      let last : LogServer = record s {
        available = s.available + s.flushed;
        flushed = 0;
        phase = ended;
      } in
      let e : turns (suc n) s ≡ last =
        ap (λ r. turns n r) (last_turn s busy t st) ∙ turns_ended n last refl in
      (ap (λ r. on_disk r) e, ap (λ r. in_memory r) e)

  -- A line that is longer than a buffer is written past the end of the array, while no more than six
  -- buffers wait.
  pub long_line_faults :
      (line : List ℕ) (s : LogServer)
      → buffer_size < length line
      → length s.pending ≤ max_pending_buffers
      → write buffer_size max_file_size line s ≡ fault
  unfolding write write_buffer next_buffer
  long_line_faults line s long few =
      let full : leb (length line) (buffer_size - length s.current) ≡ false =
        lt→leb _ _ (omega arith) in
      let over : leb (0 + length line) buffer_size ≡ false = lt→leb _ _ (omega arith) in
      ground (arith, full, le→leb _ _ few, over)
