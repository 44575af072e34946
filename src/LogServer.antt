-- ===== src/LogServer.antt =====
-- class LogServer and class LogBuffer (src/base/LogServer.cpp, src/base/LogBuffer.cpp): log lines are put
-- into a buffer in memory by the threads that log, and a thread of its own writes full buffers to a
-- file. A line is the list of its bytes, formatted.
pub mod Stream
pub mod Flush
pub mod Runs
pub mod Stop
mod Tests
use simple_tcp.Prelude.{
  ℕ, ◌+◌, ◌-◌, Bool, true, false, not, ◌||◌, leb, ltb, ◌==◌, List, [], ◌∷◌, ◌++◌, length,
  if◌then◌else◌, Outcome, M, ok, fault, ◌>>=◌, ◌>>◌, return, modify,
}

-- Where the flush thread is: waiting for the condition, writing the buffers that it took, without the
-- lock, or gone.
pub data Phase : Type 0 where
  waiting flushing ended : Phase

-- `pending` is mvPendingBuffers, oldest first, `available` the number of mvAvailbleBuffers, `taken` and
-- `flushed` the buffers of the flush thread's needFlushBuffers that it has not and has written. `files`
-- are the log files that are full, oldest first, and `file` is the one that is open.
pub record LogServer : Type 0 where
  pub current : List ℕ
  pub pending : List (List ℕ)
  pub available : ℕ
  pub taken : List (List ℕ)
  pub flushed : ℕ
  pub files : List (List ℕ)
  pub file : List ℕ
  pub written : ℕ
  pub need_flush : Bool
  pub stop : Bool
  pub phase : Phase

-- MAX_PENDING_BUFFERS
abbrev pub max_pending_buffers : ℕ
max_pending_buffers = 6

-- The constructor.
abbrev pub fresh : LogServer
fresh = record {
  current = [];
  pending = [];
  available = 0;
  taken = [];
  flushed = 0;
  files = [];
  file = [];
  written = 0;
  need_flush = false;
  stop = false;
  phase = waiting;
}

-- `forceDestroy`, without the wait for the thread
abbrev pub force_destroy : LogServer → LogServer
force_destroy s = record s { stop = true }

-- `forceFlush`
abbrev pub force_flush : LogServer → LogServer
force_flush s = record s { need_flush = true }

-- The buffer in use is put behind those that wait, and an empty one is taken back or made.
unfoldable pub next_buffer : LogServer → LogServer
next_buffer s = record s {
  pending = s.pending ++ (s.current ∷ []);
  available = s.available - 1;
  current = [];
}

-- `needFlushBuffers.swap(mvPendingBuffers)`
unfoldable pub swap_pending : LogServer → LogServer
swap_pending s = record s { taken = s.pending; pending = s.taken; phase = flushing }

-- the bytes of some buffers
abbrev pub joined : List (List ℕ) → List ℕ
joined [] = []
joined (b ∷ bs) = b ++ joined bs

-- the buffers after `flush`, which sets mUsedSize to 0
abbrev pub emptied : List (List ℕ) → List (List ℕ)
emptied [] = []
emptied (b ∷ bs) = [] ∷ emptied bs

-- a new log file
abbrev pub next_file : LogServer → LogServer
next_file s = record s { files = s.files ++ (s.file ∷ []); file = []; written = 0 }

-- `LogBuffer::flush`, and the count of what is in the file
abbrev pub append_file : List ℕ → LogServer → LogServer
append_file b s = record s { written = s.written + length b; file = s.file ++ b }

-- LOG_BUFFER_SIZE and LOG_MAX_FILE_SIZE
module _ (buffer_size max_file_size : ℕ) where
  -- `LogBuffer::writable`
  abbrev pub writable : ℕ → List ℕ → Bool
  writable n used = leb n (buffer_size - length used)

  -- `LogBuffer::write`: a copy past the end of the array is a fault.
  unfoldable pub write_buffer : List ℕ → M LogServer (Unit {0})
  write_buffer line s = elim (leb (length s.current + length line) buffer_size) [
    | true ↦ ok tt (record s { current = s.current ++ line })
    | false ↦ fault
  ]

  -- `LogServer::write` from the lock on, for a formatted line. It gives whether the line was kept.
  unfoldable pub write : List ℕ → M LogServer Bool
  write line s = elim (writable (length line) s.current) [
    | true ↦ (do write_buffer line; return true) s
    | false ↦ elim (leb (length s.pending) max_pending_buffers) [
      | true ↦ (do modify next_buffer; write_buffer line; return true) s
      | false ↦ ok false s
    ]
  ]

  -- The flush thread leaves its wait: at a stop it writes all that there is and ends; after a timeout or
  -- on request it takes the buffer in use too. A timeout is a wait at whose end nothing waits.
  unfoldable pub wake : LogServer → LogServer
  wake s = elim s.stop [
    | true ↦ record s {
      file = s.file ++ (joined s.pending ++ s.current);
      pending = emptied s.pending;
      current = [];
      phase = ended;
    }
    | false ↦ elim (length s.pending == 0 || s.need_flush) [
      | true ↦ swap_pending (record (next_buffer s) { need_flush = false })
      | false ↦ swap_pending s
    ]
  ]

  -- One buffer is written, to a new file if it would fill the one that is open.
  unfoldable pub flush_buffer : List ℕ → LogServer → LogServer
  flush_buffer b s = elim (leb max_file_size (length b + s.written)) [
    | true ↦ append_file b (next_file s)
    | false ↦ append_file b s
  ]

  -- What the flush thread does next in `doFlushAsync`: it wakes, or writes one of the buffers that it
  -- took, or gives them back and looks at `mStopThread`.
  unfoldable pub flusher : LogServer → LogServer
  flusher s = elim s.phase [
    | waiting ↦ wake s
    | flushing ↦ elim s.taken [
      | [] ↦ record s {
        available = s.available + s.flushed;
        flushed = 0;
        phase = if s.stop then ended else waiting;
      }
      | b ∷ bs ↦ flush_buffer b (record s { taken = bs; flushed = s.flushed + 1 })
    ]
    | ended ↦ s
  ]
