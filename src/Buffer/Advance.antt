-- ===== src/Buffer/Advance.antt =====
-- `updateReadPos` of src/tcp/TcpBuffer.cpp, with the move of the bytes to the front.
use simple_tcp.Prelude.{
  ℕ, ◌+◌, ◌-◌, ◌≤◌, ◌<◌, ◌≡◌, refl, sym, ap, ◌∙◌, ◌++◌, true, arith, leb, le→leb, length, take,
  drop, add_size, length-drop, length-append, take-append_left, take_all, take_cong, drop-drop,
  drop-take, Build, ok, dec_lt,
}
use simple_tcp.Buffer.{TcpBuffer, compact, update_read_pos}
use simple_tcp.Buffer.Valid.{IsValid, contents, length-contents, copy_out_lem, copy_in_lem}

-- The state after the bytes are moved to the front.
abbrev moved : TcpBuffer → TcpBuffer
moved b = record b {
  buffer = contents b ++ drop (length (contents b)) b.buffer;
  read_pos = 0;
  write_pos = b.write_pos - b.read_pos;
}

moved-contents : (b : TcpBuffer) → IsValid b → contents (moved b) ≡ contents b
unfolding contents
moved-contents b v =
    take_cong (moved b).buffer (b.write_pos - b.read_pos - 0) (length (contents b))
      (omega (arith, length-contents v))
    ∙ take-append_left (length (contents b)) (contents b) _ (omega arith)
    ∙ take_all (length (contents b)) (contents b) (omega arith)

length-moved : {b : TcpBuffer} → IsValid b → length (moved b).buffer ≡ length b.buffer
length-moved {b} v = omega (
  arith,
  length-contents v,
  length-append (contents b) (drop (length (contents b)) b.buffer),
  length-drop (length (contents b)) b.buffer,
)

moved-IsValid : {b : TcpBuffer} → IsValid b → IsValid (moved b)
moved-IsValid {b} v = omega (arith, length-moved v)

compact_stays :
    {b : TcpBuffer} → IsValid b → b.read_pos ≤ b.write_pos - b.read_pos → compact b ≡ ok tt b
unfolding compact
compact_stays {b} v h = ground arith

compact_moves :
    {b : TcpBuffer}
    → IsValid b
    → b.write_pos - b.read_pos < b.read_pos
    → compact b ≡ ok tt (moved b)
unfolding compact contents
compact_moves {b} v h = ground (
  arith,
  copy_out_lem (b.write_pos - b.read_pos) b (omega arith),
  copy_in_lem 0 (contents b) b (omega (arith, length-contents v)),
)

-- What `updateReadPos(n)` may rely on and leaves: the first `n` bytes are gone, the vector keeps its
-- size and the write position does not grow.
pub record Advanced (n : ℕ) (b b' : TcpBuffer) : Type 0 where
  pub valid : IsValid b'
  pub rest : contents b' ≡ drop n (contents b)
  pub same_size : length b'.buffer ≡ length b.buffer
  pub not_ahead : b'.write_pos ≤ b.write_pos

-- The state between the two halves of `updateReadPos`.
abbrev skipped : ℕ → TcpBuffer → TcpBuffer
skipped n b = record b { read_pos = b.read_pos + n }

contents-skipped :
    (n : ℕ) {b : TcpBuffer}
    → IsValid b
    → n ≤ b.write_pos - b.read_pos
    → contents (skipped n b) ≡ drop n (contents b)
unfolding contents
contents-skipped n {b} v h =
    ap (take (b.write_pos - (b.read_pos + n))) (sym (drop-drop n b.read_pos b.buffer))
    ∙ take_cong (drop n (drop b.read_pos b.buffer)) (b.write_pos - (b.read_pos + n))
        (b.write_pos - b.read_pos - n) (omega arith)
    ∙ sym (drop-take n (b.write_pos - b.read_pos) (drop b.read_pos b.buffer))

update-compact :
    (build : Build) (n : ℕ) {b : TcpBuffer}
    → IsValid b
    → n ≤ b.write_pos - b.read_pos
    → update_read_pos build n b ≡ compact (skipped n b)
unfolding update_read_pos
update-compact build n {b} v h =
    let sum : add_size b.read_pos n ≡ b.read_pos + n = omega arith in
    let holds : leb (add_size b.read_pos n) b.write_pos ≡ true = le→leb _ _ (omega arith) in
    ground (arith, sum, holds)

pub update_read_pos_lem :
    (build : Build) (n : ℕ) {b : TcpBuffer}
    → IsValid b
    → n ≤ b.write_pos - b.read_pos
    → (b' : TcpBuffer) × (update_read_pos build n b ≡ ok tt b') × Advanced n b b'
update_read_pos_lem build n {b} v h =
    elim (dec_lt (b.write_pos - (b.read_pos + n)) (b.read_pos + n)) [
      | yes gap ↦ (
        moved (skipped n b),
        update-compact build n v h ∙ compact_moves {b = skipped n b} skipped-IsValid gap,
        record {
          valid = moved-IsValid {b = skipped n b} skipped-IsValid;
          rest = moved-contents (skipped n b) skipped-IsValid ∙ contents-skipped n v h;
          same_size = length-moved {b = skipped n b} skipped-IsValid;
          not_ahead = omega arith;
        },
      )
      | no gap ↦ (
        skipped n b,
        update-compact build n v h ∙ compact_stays {b = skipped n b} skipped-IsValid (omega arith),
        record {
          valid = skipped-IsValid;
          rest = contents-skipped n v h;
          same_size = refl;
          not_ahead = omega arith;
        },
      )
    ]
  where
    skipped-IsValid : IsValid (skipped n b)
    skipped-IsValid = omega arith
