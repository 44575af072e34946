-- ===== src/LogServer/Tests.antt =====
-- Runs of LogServer with buffers of four bytes and files of six, and its theorems there.
use simple_tcp.Prelude.{◌≡◌, refl, [], ◌∷◌, true, arith}
use simple_tcp.LogServer.{
  LogServer, flushing, fresh, write, write_buffer, next_buffer, wake, flush_buffer, flusher,
  swap_pending,
}
use simple_tcp.LogServer.Stream.{stream, on_disk, in_memory, IsValid}
use simple_tcp.LogServer.Runs.{Run, logged, flush_turn, here, next, Run-IsValid}
use simple_tcp.LogServer.Stop.{turns, late_stop}

-- three bytes in use, and one buffer that waits
abbrev sample : LogServer
sample = record fresh { current = 4 ∷ 5 ∷ 6 ∷ []; pending = (1 ∷ 2 ∷ 3 ∷ []) ∷ [] }

sample-IsValid : IsValid 4 sample
sample-IsValid = record { idle = λ e. refl; few = omega arith; fits = omega arith }

-- the second buffer would make a file of six bytes: it goes to a new one
two_files : turns 4 6 4 (record sample { need_flush = true }) ≡ record fresh {
  files = (1 ∷ 2 ∷ 3 ∷ []) ∷ [];
  file = 4 ∷ 5 ∷ 6 ∷ [];
  written = 3;
  available = 2;
}
unfolding flusher wake flush_buffer next_buffer swap_pending
two_files = refl

-- the line 7, 8 is logged, and the flush thread wakes
abbrev logged_line : LogServer
logged_line = record sample {
  current = 7 ∷ 8 ∷ [];
  pending = (1 ∷ 2 ∷ 3 ∷ []) ∷ (4 ∷ 5 ∷ 6 ∷ []) ∷ [];
}

history : Run 4 6 sample (7 ∷ 8 ∷ []) (flusher 4 6 logged_line)
unfolding write write_buffer next_buffer
history = next (next here (logged (7 ∷ 8 ∷ []) logged_line (omega arith) refl)) flush_turn

Run-IsValid_example :
    IsValid 4 (flusher 4 6 logged_line)
    × (stream (flusher 4 6 logged_line) ≡ 1 ∷ 2 ∷ 3 ∷ 4 ∷ 5 ∷ 6 ∷ 7 ∷ 8 ∷ [])
Run-IsValid_example = Run-IsValid 4 6 sample-IsValid history

-- the flush thread has just written a buffer
abbrev busy : LogServer
busy = record fresh {
  current = 9 ∷ [];
  file = 1 ∷ 2 ∷ [];
  flushed = 1;
  phase = flushing;
  stop = true;
}

late_stop_example :
    (on_disk (turns 4 6 10 busy) ≡ 1 ∷ 2 ∷ []) × (in_memory (turns 4 6 10 busy) ≡ 9 ∷ [])
late_stop_example = late_stop 4 6 10 busy refl refl refl
