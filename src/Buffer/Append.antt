-- ===== src/Buffer/Append.antt =====
-- `appendToBuffer` of src/tcp/TcpBuffer.cpp: when it appends, when its loop never ends, and when it
-- writes outside the vector.
use simple_tcp.Prelude.{
  ℕ, zero, suc, ◌+◌, ◌-◌, ◌*◌, ◌≤◌, ◌<◌, ◌≡◌, refl, ap, ◌∙◌, List, ◌++◌, ◌⊎◌, arith, length,
  add_size, double_size, ok, fault, hang, dec_lt, take, replicate, length-append, length-take,
  length-replicate,
}
use simple_tcp.Buffer.Memory.{max_size, resized, copied_in}
use simple_tcp.Buffer.{TcpBuffer, writable_bytes, copy_in, make_room, append_to_buffer}
use simple_tcp.Buffer.Valid.{IsValid, contents, writable_lem, copy_in_lem}
use simple_tcp.Buffer.Extend.{
  extended, extended-IsValid, contents-extended, grown, contents-grown, resize_lem,
}

-- the loop's test fails at once
room_enough :
    (fuel n : ℕ) (b : TcpBuffer) → n ≤ writable_bytes b → make_room (suc fuel) n b ≡ ok tt b
unfolding make_room
room_enough fuel n b h = ground arith

-- one round of the loop
room_short :
    (fuel n : ℕ) (b : TcpBuffer)
    → writable_bytes b < n
    → n * 2 ≤ max_size
    → make_room (suc fuel) n b ≡ make_room fuel n (grown (n * 2) b)
unfolding make_room
room_short fuel n b h small =
    let d : double_size n ≡ n * 2 = omega arith in ground (arith, d, resize_lem (n * 2) b small)

-- the vector after `resize(2n)`, also where that cuts it off
length-resized : (n : ℕ) (xs : List ℕ) → length (resized n xs) ≡ n
unfolding resized
length-resized n xs = omega (
  arith,
  length-append (take n xs) (replicate (n - length xs) 0),
  length-take n xs,
  length-replicate {A = ℕ} (n - length xs) 0,
)

short_for_ever :
    (fuel n : ℕ) (b : TcpBuffer)
    → n < b.write_pos
    → b.write_pos ≤ n * 2
    → n * 2 ≤ max_size
    → length b.buffer ≡ n * 2
    → make_room fuel n b ≡ hang
unfolding make_room
short_for_ever zero n b above below small e = refl
short_for_ever (suc fuel) n b above below small e =
    room_short fuel n b (omega arith) small
    ∙ short_for_ever fuel n (grown (n * 2) b) above below small (length-resized (n * 2) b.buffer)

append_of_room :
    (fuel : ℕ) (bytes : List ℕ) (b b' : TcpBuffer)
    → make_room fuel (length bytes) b ≡ ok tt b'
    → IsValid b'
    → b'.write_pos + length bytes ≤ length b'.buffer
    → append_to_buffer fuel bytes b ≡ ok tt (extended bytes b')
unfolding append_to_buffer
append_of_room fuel bytes b b' e v fits =
    let w : add_size b'.write_pos (length bytes) ≡ b'.write_pos + length bytes = omega arith in
    ground (arith, e, w, copy_in_lem b'.write_pos bytes b' fits)

-- What an append leaves.
pub record Appended (bytes : List ℕ) (b b' : TcpBuffer) : Type 0 where
  pub valid : IsValid b'
  pub all_there : contents b' ≡ contents b ++ bytes

module _ (bytes : List ℕ) {b : TcpBuffer} (v : IsValid b)
    (small : length bytes * 2 ≤ max_size) where
  append_at_once :
      (fuel : ℕ)
      → b.write_pos + length bytes ≤ length b.buffer
      → append_to_buffer (suc fuel) bytes b ≡ ok tt (extended bytes b)
  append_at_once fuel fits =
      append_of_room (suc fuel) bytes b b
        (room_enough fuel (length bytes) b (omega (arith, writable_lem v))) v fits

  grown_room :
      length b.buffer < b.write_pos + length bytes
      → b.write_pos ≤ length bytes
      → length b.buffer ≤ length bytes * 2
  grown_room short low = omega arith

  append_grown :
      (fuel : ℕ)
      → length b.buffer < b.write_pos + length bytes
      → b.write_pos ≤ length bytes
      → append_to_buffer (suc (suc fuel)) bytes b
        ≡ ok tt (extended bytes (grown (length bytes * 2) b))
  append_grown fuel short low =
      append_of_room (suc (suc fuel)) bytes b larger
        (room_short (suc fuel) (length bytes) b (omega (arith, writable_lem v)) small
          ∙ room_enough fuel (length bytes) larger (omega (arith, size)))
        (omega (arith, size)) (omega (arith, size))
    where
      larger : TcpBuffer
      larger = grown (length bytes * 2) b

      size : length larger.buffer ≡ length bytes * 2
      size = length-resized (length bytes * 2) b.buffer

  Appended-grown :
      (fuel : ℕ)
      → length b.buffer < b.write_pos + length bytes
      → b.write_pos ≤ length bytes
      → (b' : TcpBuffer) × (append_to_buffer (suc (suc fuel)) bytes b ≡ ok tt b')
        × Appended bytes b b'
  Appended-grown fuel short low = (
    extended bytes larger,
    append_grown fuel short low,
    record {
      valid = extended-IsValid bytes valid (omega (arith, size));
      all_there =
          contents-extended bytes valid (omega (arith, size))
          ∙ ap (λ xs. xs ++ bytes) (contents-grown (length bytes * 2) v (grown_room short low));
    },
  )
    where
      larger : TcpBuffer
      larger = grown (length bytes * 2) b

      size : length larger.buffer ≡ length bytes * 2
      size = length-resized (length bytes * 2) b.buffer

      valid : IsValid larger
      valid = omega (arith, size)

-- `appendToBuffer` on a valid buffer appends exactly the given bytes behind the contents, if they
-- fit behind the write position, or if the write position is no larger than their number; two
-- rounds of its loop are then enough.
pub append_lem :
    (fuel : ℕ) (bytes : List ℕ) {b : TcpBuffer}
    → IsValid b
    → length bytes * 2 ≤ max_size
    → (b.write_pos + length bytes ≤ length b.buffer) ⊎ (b.write_pos ≤ length bytes)
    → (b' : TcpBuffer) × (append_to_buffer (suc (suc fuel)) bytes b ≡ ok tt b')
      × Appended bytes b b'
append_lem fuel bytes {b} v small h = elim (dec_lt (length b.buffer) (b.write_pos + length bytes)) [
  | no enough ↦ (
    extended bytes b,
    append_at_once bytes v small (suc fuel) (omega arith),
    record {
      valid = extended-IsValid bytes v (omega arith);
      all_there = contents-extended bytes v (omega arith);
    },
  )
  | yes short ↦ Appended-grown bytes v small fuel short (omega arith)
]

-- Where the bytes do not fit and the write position lies above their number, but not above its
-- double, the loop of `appendToBuffer` sets the same size again and again and never ends.
pub append_hangs :
    (fuel : ℕ) (bytes : List ℕ) {b : TcpBuffer}
    → IsValid b
    → length bytes * 2 ≤ max_size
    → length b.buffer < b.write_pos + length bytes
    → length bytes < b.write_pos
    → b.write_pos ≤ length bytes * 2
    → append_to_buffer fuel bytes b ≡ hang
unfolding append_to_buffer
append_hangs fuel bytes {b} v small short above below = ground (arith, never fuel)
  where
    never : (fuel : ℕ) → make_room fuel (length bytes) b ≡ hang
    never zero = unfold make_room in refl
    never (suc fuel) =
        room_short fuel (length bytes) b (omega (arith, writable_lem v)) small
        ∙ short_for_ever fuel (length bytes) (grown (length bytes * 2) b) above below small
            (length-resized (length bytes * 2) b.buffer)

-- Where the bytes do not fit and the write position lies above twice their number, the resize cuts
-- the vector off below the write position, the free space wraps round, and the copy leaves the
-- vector.
pub append_faults :
    (fuel : ℕ) (bytes : List ℕ) {b : TcpBuffer}
    → IsValid b
    → length b.buffer < b.write_pos + length bytes
    → length bytes * 2 < b.write_pos
    → append_to_buffer (suc (suc fuel)) bytes b ≡ fault
unfolding append_to_buffer copy_in copied_in
append_faults fuel bytes {b} v short above = ground (arith, rounds, outside)
  where
    cut : TcpBuffer
    cut = grown (length bytes * 2) b

    size : length cut.buffer ≡ length bytes * 2
    size = length-resized (length bytes * 2) b.buffer

    rounds : make_room (suc (suc fuel)) (length bytes) b ≡ ok tt cut
    rounds =
        room_short (suc fuel) (length bytes) b (omega (arith, writable_lem v)) (omega arith)
        ∙ room_enough fuel (length bytes) cut (omega (arith, size))

    outside : copy_in cut.write_pos bytes cut ≡ fault
    outside = ground (arith, size)
