-- ===== src/Buffer/Valid.antt =====
-- The representation invariant of TcpBuffer, the bytes it stands for, and the memory accesses that
-- the invariant keeps within the vector.
use simple_tcp.Prelude.{
  ℕ, ◌+◌, ◌-◌, ◌≤◌, ◌≡◌, List, ◌++◌, arith, length, take, drop, length-take, length-drop, take-take,
  ok,
}
use simple_tcp.Buffer.Memory.{max_size, copied_in, copied_out}
use simple_tcp.Buffer.{TcpBuffer, fresh, writable_bytes, readable_bytes, copy_in, copy_out}

pub record IsValid (b : TcpBuffer) : Type 0 where
  pub ordered : b.read_pos ≤ b.write_pos
  pub within : b.write_pos ≤ length b.buffer
  pub small : length b.buffer ≤ max_size

-- The bytes that a client has put in and not yet taken out.
unfoldable pub contents : TcpBuffer → List ℕ
contents b = take (b.write_pos - b.read_pos) (drop b.read_pos b.buffer)

-- No subtraction wraps in a valid buffer.
pub readable_lem : {b : TcpBuffer} → IsValid b → readable_bytes b ≡ b.write_pos - b.read_pos
readable_lem v = omega arith

pub writable_lem : {b : TcpBuffer} → IsValid b → writable_bytes b ≡ length b.buffer - b.write_pos
writable_lem v = omega arith

pub length-contents : {b : TcpBuffer} → IsValid b → length (contents b) ≡ b.write_pos - b.read_pos
unfolding contents
length-contents {b} v = omega (
  arith,
  length-take (b.write_pos - b.read_pos) (drop b.read_pos b.buffer),
  length-drop b.read_pos b.buffer,
)

pub fresh-IsValid : IsValid fresh
unfolding fresh
fresh-IsValid = omega arith

pub copy_out_lem :
    (n : ℕ) (b : TcpBuffer)
    → b.read_pos + n ≤ length b.buffer
    → copy_out n b ≡ ok (take n (drop b.read_pos b.buffer)) b
unfolding copy_out copied_out
copy_out_lem n b h = ground arith

pub copy_in_lem :
    (pos : ℕ) (bytes : List ℕ) (b : TcpBuffer)
    → pos + length bytes ≤ length b.buffer
    → copy_in pos bytes b
      ≡ ok tt
          (record b { buffer = take pos b.buffer ++ (bytes ++ drop (pos + length bytes) b.buffer) })
unfolding copy_in copied_in
copy_in_lem pos bytes b h = ground arith

-- What a client takes as a view is the front of the contents.
pub front_of_contents :
    (n : ℕ) {b : TcpBuffer}
    → IsValid b
    → n ≤ b.write_pos - b.read_pos
    → take n (contents b) ≡ take n (drop b.read_pos b.buffer)
unfolding contents
front_of_contents n {b} v h = take-take n (b.write_pos - b.read_pos) (drop b.read_pos b.buffer) h
