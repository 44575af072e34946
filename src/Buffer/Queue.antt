-- ===== src/Buffer/Queue.antt =====
-- A valid TcpBuffer is a queue of bytes: `read` and `extract` of src/tcp/TcpBuffer.cpp.
use simple_tcp.Prelude.{
  ℕ, ◌-◌, min, ◌≡◌, sym, ap, ◌∙◌, arith, length, take, drop, take-min, drop-min, length-take,
  take_cong, drop_cong, Build, ok,
}
use simple_tcp.Buffer.{TcpBuffer, granted, copy_out, read, extract, size}
use simple_tcp.Buffer.Valid.{
  IsValid, contents, readable_lem, length-contents, copy_out_lem, front_of_contents,
}
use simple_tcp.Buffer.Advance.{Advanced, update_read_pos_lem}

-- What is granted is no more than there is.
granted_lem : (n : ℕ) {b : TcpBuffer} → IsValid b → granted n b ≡ min n (b.write_pos - b.read_pos)
granted_lem n {b} v = ground (arith, readable_lem v)

take-granted :
    (n : ℕ) {b : TcpBuffer} → IsValid b → take (granted n b) (contents b) ≡ take n (contents b)
take-granted n {b} v =
    take_cong (contents b) (granted n b) (min n (length (contents b)))
      (omega (arith, granted_lem n v, length-contents v))
    ∙ take-min n (contents b)

drop_taken :
    (n : ℕ) {b : TcpBuffer}
    → IsValid b
    → drop (length (take n (contents b))) (contents b) ≡ drop n (contents b)
drop_taken n {b} v =
    drop_cong (contents b) _ _ (length-take n (contents b)) ∙ drop-min n (contents b)

copy_out-granted :
    (n : ℕ) {b : TcpBuffer} → IsValid b → copy_out (granted n b) b ≡ ok (take n (contents b)) b
copy_out-granted n {b} v =
    copy_out_lem (granted n b) b (omega (arith, granted_lem n v))
    ∙ ap (λ xs. ok xs b)
        (sym (front_of_contents (granted n b) v (omega (arith, granted_lem n v)))
          ∙ take-granted n v)

-- `size()` is the number of bytes held.
pub size_lem : {b : TcpBuffer} → IsValid b → size b ≡ length (contents b)
size_lem v = omega (arith, length-contents v)

-- `read(n)` returns the first n bytes held, or all of them where there are fewer, whatever n is,
-- stays inside the vector, and changes nothing.
pub read_lem : (n : ℕ) {b : TcpBuffer} → IsValid b → read n b ≡ ok (take n (contents b)) b
unfolding read
read_lem n v = copy_out-granted n v

-- `extract(n)` on a valid buffer never fails an assertion, never leaves the vector, returns the
-- first n bytes held (all of them where there are fewer), and leaves a valid buffer of the same
-- capacity that holds exactly the other bytes in order.
pub extract_lem :
    (build : Build) (n : ℕ) {b : TcpBuffer}
    → IsValid b
    → (b' : TcpBuffer) × (extract build n b ≡ ok (take n (contents b)) b') × Advanced n b b'
unfolding extract
extract_lem build n {b} v =
    let u =
      update_read_pos_lem build (length (take n (contents b))) v
        (omega (arith, length-take n (contents b), length-contents v)) in
    (
      u.0,
      ground (arith, copy_out-granted n v, u.1),
      record {
        valid = u.2.valid;
        rest = u.2.rest ∙ drop_taken n v;
        same_size = u.2.same_size;
        not_ahead = u.2.not_ahead;
      },
    )
