-- ===== src/Buffer/Tests.antt =====
-- Runs of TcpBuffer, and its theorems at small buffers.
use simple_tcp.Prelude.{
  ◌≡◌, refl, [], ◌∷◌, inr, arith, debug_build, ok, abort, hang, threw, network_exception,
}
use simple_tcp.Buffer.Memory.{resized, copied_in, copied_out}
use simple_tcp.Buffer.{
  TcpBuffer, copy_in, copy_out, resize, compact, update_read_pos, extract, received,
  read_from_socket, append_to_buffer,
}
use simple_tcp.Buffer.Valid.{IsValid, contents}
use simple_tcp.Buffer.Advance.{Advanced}
use simple_tcp.Buffer.Queue.{extract_lem}
use simple_tcp.Buffer.Append.{Appended, append_lem, append_hangs}

-- the bytes 12, 13, 14 between two dead ones and three free places
abbrev sample : TcpBuffer
sample = record { buffer = 10 ∷ 11 ∷ 12 ∷ 13 ∷ 14 ∷ 0 ∷ 0 ∷ 0 ∷ []; read_pos = 2; write_pos = 5 }

sample-IsValid : IsValid sample
sample-IsValid = omega arith

extract_moves_to_front :
    extract debug_build 2 sample
    ≡ ok
        (12 ∷ 13 ∷ [])
        (record { buffer = 14 ∷ 11 ∷ 12 ∷ 13 ∷ 14 ∷ 0 ∷ 0 ∷ 0 ∷ []; read_pos = 0; write_pos = 1 })
unfolding extract copy_out copy_in copied_out copied_in update_read_pos compact
extract_moves_to_front = refl

overrun_aborts : update_read_pos debug_build 4 sample ≡ abort
unfolding update_read_pos
overrun_aborts = refl

full_read_doubles :
    read_from_socket (received (15 ∷ 16 ∷ 17 ∷ [])) 0 sample
    ≡ ok tt (record {
      buffer = 10 ∷ 11 ∷ 12 ∷ 13 ∷ 14 ∷ 15 ∷ 16 ∷ 17 ∷ 0 ∷ 0 ∷ 0 ∷ 0 ∷ 0 ∷ 0 ∷ 0 ∷ 0 ∷ [];
      read_pos = 2;
      write_pos = 8;
    })
unfolding read_from_socket copy_in copied_in resize resized
full_read_doubles = refl

end_of_stream : read_from_socket (received []) 0 sample ≡ threw (network_exception 0) sample
unfolding read_from_socket
end_of_stream = refl

extract_lem_example :
    (b' : TcpBuffer) × (extract debug_build 2 sample ≡ ok (12 ∷ 13 ∷ []) b') × Advanced 2 sample b'
unfolding contents
extract_lem_example = extract_lem debug_build 2 sample-IsValid

-- 7 bytes do not fit behind position 5 of 8: the vector grows to 14 first
append_lem_example :
    (b' : TcpBuffer) × (append_to_buffer 2 (1 ∷ 2 ∷ 3 ∷ 4 ∷ 5 ∷ 6 ∷ 7 ∷ []) sample ≡ ok tt b')
    × Appended (1 ∷ 2 ∷ 3 ∷ 4 ∷ 5 ∷ 6 ∷ 7 ∷ []) sample b'
append_lem_example =
    append_lem 0 (1 ∷ 2 ∷ 3 ∷ 4 ∷ 5 ∷ 6 ∷ 7 ∷ []) sample-IsValid (omega arith) (inr (omega arith))

-- 4 bytes do not fit, and 4 < 5 ≤ 8
append_hangs_example : append_to_buffer 100 (1 ∷ 2 ∷ 3 ∷ 4 ∷ []) sample ≡ hang
append_hangs_example =
    append_hangs 100 (1 ∷ 2 ∷ 3 ∷ 4 ∷ []) sample-IsValid (omega arith) (omega arith) (omega arith)
      (omega arith)

-- all but one place used: 2 bytes do not fit, and 4 < 7
abbrev nearly_full : TcpBuffer
nearly_full = record sample { write_pos = 7 }
