-- ===== src/Buffer.antt =====
-- class TcpBuffer (include/tcp/TcpBuffer.h, src/tcp/TcpBuffer.cpp): a byte queue in one vector,
-- with a read position and a write position. A byte is any number: bytes are only moved.
pub mod Memory
pub mod Valid
pub mod Advance
pub mod Extend
pub mod Queue
pub mod Append
pub mod Socket
mod Tests
use simple_tcp.Prelude.{
  ℕ, zero, suc, ◌+◌, List, [], ◌∷◌, Bool, true, false, Option, none, some, ltb, leb, ◌==◌,
  if◌then◌else◌, length, take, drop, add_size, sub_size, double_size, replicate, Build, M, Outcome,
  ok, threw, abort, fault, hang, ◌>>=◌, ◌>>◌, return, throw, modify, assert_true, network_exception,
  other_exception, ◌++◌,
}
use Memory.{max_size, resized, copied_in, copied_out}

pub record TcpBuffer : Type 0 where
  pub buffer : List ℕ
  pub read_pos : ℕ
  pub write_pos : ℕ

-- `TcpBuffer()`
unfoldable pub fresh : TcpBuffer
fresh = record { buffer = replicate 1024 0; read_pos = 0; write_pos = 0 }

-- Subtractions of size_t: they wrap where the positions are out of order.
abbrev pub writable_bytes : TcpBuffer → ℕ
writable_bytes b = sub_size (length b.buffer) b.write_pos

abbrev pub readable_bytes : TcpBuffer → ℕ
readable_bytes b = sub_size b.write_pos b.read_pos

-- `size()`
abbrev pub size : TcpBuffer → ℕ
size b = readable_bytes b

-- `mBuffer.resize(n)`: std::length_error above max_size().
unfoldable pub resize : ℕ → M TcpBuffer (Unit {0})
resize n b =
    if leb n max_size
    then ok tt (record b { buffer = resized n b.buffer })
    else threw other_exception b

-- memcpy to `getWritePos() + ...` or to the front, within the elements of the vector or a fault.
unfoldable pub copy_in : ℕ → List ℕ → M TcpBuffer (Unit {0})
copy_in pos bytes b = elim (copied_in pos bytes b.buffer) [
  | none ↦ fault
  | some xs ↦ ok tt (record b { buffer = xs })
]

-- memcpy from `getReadPos()`, or the view that starts there.
unfoldable pub copy_out : ℕ → M TcpBuffer (List ℕ)
copy_out n b = elim (copied_out b.read_pos n b.buffer) [ none ↦ fault | some xs ↦ ok xs b ]

-- The end of `updateReadPos`: the bytes are moved to the front once the gap before them is larger
-- than they are, so that the regions do not overlap.
unfoldable pub compact : M TcpBuffer (Unit {0})
compact b =
    if ltb (readable_bytes b) b.read_pos
    then (do
      bytes ← copy_out (readable_bytes b)
      copy_in 0 bytes
      modify (λ b. record b { write_pos = readable_bytes b; read_pos = 0 }))
        b
    else ok tt b

-- `updateReadPos`
unfoldable pub update_read_pos : Build → ℕ → M TcpBuffer (Unit {0})
update_read_pos build len b =
    (do
      assert_true build (leb (add_size b.read_pos len) b.write_pos)
      modify (λ b. record b { read_pos = add_size b.read_pos len })
      compact)
      b

-- What `::read` came to: bytes (none of them at the end of the stream), or a negative result.
pub data ReadResult : Type 0 where
  received : List ℕ → ReadResult
  read_failed : ReadResult

-- `readFromSocket`: the system call's result and the socket's error come from outside.
unfoldable pub read_from_socket : ReadResult → ℕ → M TcpBuffer (Unit {0})
read_from_socket read_failed err b = threw (network_exception err) b
read_from_socket (received []) err b = threw (network_exception err) b
read_from_socket (received (x ∷ xs)) err b =
    (do
      copy_in b.write_pos (x ∷ xs)
      if length (x ∷ xs) == writable_bytes b
          then (do
            modify (λ b. record b { write_pos = add_size b.write_pos (length (x ∷ xs)) })
            resize (double_size (length b.buffer)))
          else modify (λ b. record b { write_pos = add_size b.write_pos (length (x ∷ xs)) }))
      b

-- `writeToSocket`: `accepted` is the result of `::write` for the bytes that it was offered,
-- `none` where it is negative. The result is what went out.
unfoldable pub write_to_socket : Build → Option ℕ → ℕ → M TcpBuffer (List ℕ)
write_to_socket build none err b = threw (network_exception err) b
write_to_socket build (some zero) err b = threw (network_exception err) b
write_to_socket build (some (suc n)) err b =
    (do
      offered ← copy_out (readable_bytes b)
      update_read_pos build (suc n)
      return (take (suc n) offered))
      b

-- The `while` of `appendToBuffer`, with fuel.
unfoldable pub make_room : ℕ → ℕ → M TcpBuffer (Unit {0})
make_room zero n b = hang
make_room (suc fuel) n b = elim (ltb (writable_bytes b) n) [
  | true ↦ (resize (double_size n) >> make_room fuel n) b
  | false ↦ ok tt b
]

-- `appendToBuffer`
unfoldable pub append_to_buffer : ℕ → List ℕ → M TcpBuffer (Unit {0})
append_to_buffer fuel bytes = do
  make_room fuel (length bytes)
  (λ b. copy_in b.write_pos bytes b)
  modify (λ b. record b { write_pos = add_size b.write_pos (length bytes) })

-- The number of bytes that `read` and `extract` give for a request.
abbrev pub granted : ℕ → TcpBuffer → ℕ
granted n b = if ltb n (readable_bytes b) then n else readable_bytes b

-- `read`, `readString` and `readU8String`
unfoldable pub read : ℕ → M TcpBuffer (List ℕ)
read n b = copy_out (granted n b) b

-- `extract`, `extractString` and `extractU8String`
unfoldable pub extract : Build → ℕ → M TcpBuffer (List ℕ)
extract build n b =
    (do bytes ← copy_out (granted n b); update_read_pos build (length bytes); return bytes) b
