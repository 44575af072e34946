-- ===== src/Buffer/Socket.antt =====
-- `readFromSocket` and `writeToSocket` of src/tcp/TcpBuffer.cpp.
use simple_tcp.Prelude.{
  ◌≢◌, add_size, double_size, ℕ, suc, ◌+◌, ◌-◌, ◌*◌, ◌≤◌, ◌<◌, ◌≡◌, ap, ◌∙◌, List, ◌∷◌, ◌++◌, some,
  arith, length, take, drop, take_cong, Build, ok, ℕ_discrete,
}
use simple_tcp.Buffer.Memory.{max_size, resized}
use simple_tcp.Buffer.{
  TcpBuffer, readable_bytes, copy_out, received, read_from_socket, write_to_socket,
}
use simple_tcp.Buffer.Valid.{
  IsValid, contents, readable_lem, writable_lem, length-contents, copy_out_lem, copy_in_lem,
}
use simple_tcp.Buffer.Advance.{Advanced, update_read_pos_lem}
use simple_tcp.Buffer.Extend.{
  extended, length-extended, extended-IsValid, contents-extended, grown, length-resized,
  contents-grown, resize_lem,
}

module _ (x : ℕ) (xs : List ℕ) (err : ℕ) {b : TcpBuffer} (v : IsValid b)
    (fits : b.write_pos + length (x ∷ xs) ≤ length b.buffer) where
  abbrev bytes : List ℕ
  bytes = x ∷ xs

  read_part :
      length bytes ≢ length b.buffer - b.write_pos
      → read_from_socket (received bytes) err b ≡ ok tt (extended bytes b)
  unfolding read_from_socket
  read_part ne =
      let w : add_size b.write_pos (length bytes) ≡ b.write_pos + length bytes = omega arith in
      ground (arith, copy_in_lem b.write_pos bytes b fits, writable_lem v, w)

  read_full :
      length bytes ≡ length b.buffer - b.write_pos
      → length b.buffer * 2 ≤ max_size
      → read_from_socket (received bytes) err b
        ≡ ok tt (grown (length b.buffer * 2) (extended bytes b))
  unfolding read_from_socket
  read_full e room =
      let w : add_size b.write_pos (length bytes) ≡ b.write_pos + length bytes = omega arith in
      let d : double_size (length (extended bytes b).buffer) ≡ length b.buffer * 2 =
        omega (arith, length-extended bytes v fits) in
      ground (
        arith,
        copy_in_lem b.write_pos bytes b fits,
        writable_lem v,
        w,
        d,
        resize_lem (length b.buffer * 2) (extended bytes b) room,
      )

-- What a read leaves: a valid buffer with the bytes at the end of the contents, and a free place
-- behind them, so that the next `::read` asks for at least one byte.
pub record Received (bytes : List ℕ) (b b' : TcpBuffer) : Type 0 where
  pub valid : IsValid b'
  pub all_there : contents b' ≡ contents b ++ bytes
  pub room : b'.write_pos < length b'.buffer

-- `readFromSocket` on a valid buffer, when `::read` delivers one byte or more and no more than the
-- free space it was given, and the doubled vector is allowed: the call succeeds, puts exactly these
-- bytes behind the contents, and leaves room for the next read.
pub read_from_socket_lem :
    (x : ℕ) (xs : List ℕ) (err : ℕ) {b : TcpBuffer}
    → IsValid b
    → b.write_pos + length (x ∷ xs) ≤ length b.buffer
    → length b.buffer * 2 ≤ max_size
    → (b' : TcpBuffer) × (read_from_socket (received (x ∷ xs)) err b ≡ ok tt b')
      × Received (x ∷ xs) b b'
read_from_socket_lem x xs err {b} v fits room =
    elim (ℕ_discrete (length (x ∷ xs)) (length b.buffer - b.write_pos)) [
      | yes e ↦ (
        grown (length b.buffer * 2) full,
        read_full x xs err v fits e room,
        record {
          valid = omega (arith, same, doubled);
          all_there =
              contents-grown (length b.buffer * 2) valid (omega (arith, same))
              ∙ contents-extended (x ∷ xs) v fits;
          room = omega (arith, doubled);
        },
      )
      | no ne ↦ (
        full,
        read_part x xs err v fits ne,
        record {
          valid = valid;
          all_there = contents-extended (x ∷ xs) v fits;
          room = omega (arith, same);
        },
      )
    ]
  where
    full : TcpBuffer
    full = extended (x ∷ xs) b

    valid : IsValid full
    valid = extended-IsValid (x ∷ xs) v fits

    same : length full.buffer ≡ length b.buffer
    same = length-extended (x ∷ xs) v fits

    doubled : length (resized (length b.buffer * 2) full.buffer) ≡ length b.buffer * 2
    doubled = length-resized (length b.buffer * 2) valid (omega (arith, same))

-- `writeToSocket` on a valid buffer, when `::write` accepts one byte or more of the contents that it
-- is offered: the bytes that go out are the first bytes held, and exactly these leave the buffer.
pub write_to_socket_lem :
    (build : Build) (n err : ℕ) {b : TcpBuffer}
    → IsValid b
    → suc n ≤ length (contents b)
    → (b' : TcpBuffer) × (write_to_socket build (some (suc n)) err b
        ≡ ok (take (suc n) (contents b)) b')
      × Advanced (suc n) b b'
unfolding write_to_socket contents
write_to_socket_lem build n err {b} v h =
    let u = update_read_pos_lem build (suc n) v (omega (arith, length-contents v)) in
    (u.0, ground (arith, offered, u.1), u.2)
  where
    offered : copy_out (readable_bytes b) b ≡ ok (contents b) b
    offered =
        copy_out_lem (readable_bytes b) b (omega (arith, readable_lem v))
        ∙ ap (λ xs. ok xs b)
            (take_cong (drop b.read_pos b.buffer) (readable_bytes b) (b.write_pos - b.read_pos)
              (readable_lem v))
