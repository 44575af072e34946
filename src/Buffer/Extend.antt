-- ===== src/Buffer/Extend.antt =====
-- Bytes put behind the contents of a TcpBuffer, and a vector that grows.
use simple_tcp.Prelude.{
  ℕ, ◌+◌, ◌-◌, ◌≤◌, ◌≡◌, ap, ◌∙◌, List, ◌++◌, arith, length, take, drop, length-take, length-drop,
  take_all, take_cong, ok, take-append_right, take-append_left, drop-append_left, drop-take, ◌≡⟨◌⟩◌,
  ◌∎, length-append, length-replicate, replicate,
}
use simple_tcp.Buffer.Memory.{max_size, resized}
use simple_tcp.Buffer.{TcpBuffer, resize}
use simple_tcp.Buffer.Valid.{IsValid, contents, length-contents}

-- The state after `bytes` are copied behind the contents and the write position is moved.
abbrev pub extended : List ℕ → TcpBuffer → TcpBuffer
extended bytes b = record b {
  buffer = take b.write_pos b.buffer ++ (bytes ++ drop (b.write_pos + length bytes) b.buffer);
  write_pos = b.write_pos + length bytes;
}

module _ (bytes : List ℕ) {b : TcpBuffer} (v : IsValid b)
    (fits : b.write_pos + length bytes ≤ length b.buffer) where
  pub length-extended : length (extended bytes b).buffer ≡ length b.buffer
  length-extended = omega (
    arith,
    length-append (take b.write_pos b.buffer) (bytes ++ drop (b.write_pos + length bytes) b.buffer),
    length-append bytes (drop (b.write_pos + length bytes) b.buffer),
    length-take b.write_pos b.buffer,
    length-drop (b.write_pos + length bytes) b.buffer,
  )

  pub extended-IsValid : IsValid (extended bytes b)
  extended-IsValid = omega (arith, length-extended)

  pub contents-extended : contents (extended bytes b) ≡ contents b ++ bytes
  unfolding contents
  contents-extended =
      take n (drop b.read_pos (before ++ (bytes ++ after)))
      ≡⟨ ap (take n) (drop-append_left b.read_pos before (bytes ++ after) (omega (arith, held))) ⟩
        take n (drop b.read_pos before ++ (bytes ++ after))
      ≡⟨ ap (λ xs. take n (xs ++ (bytes ++ after))) (drop-take b.read_pos b.write_pos b.buffer) ⟩
        take n (contents b ++ (bytes ++ after))
      ≡⟨ take-append_right n (contents b) (bytes ++ after) (omega (arith, length-contents v)) ⟩
        contents b ++ take (n - length (contents b)) (bytes ++ after)
      ≡⟨ ap (λ xs. contents b ++ xs) tail ⟩ contents b ++ bytes ∎
    where
      before : List ℕ
      before = take b.write_pos b.buffer

      after : List ℕ
      after = drop (b.write_pos + length bytes) b.buffer

      n : ℕ
      n = b.write_pos + length bytes - b.read_pos

      held : length before ≡ b.write_pos
      held = omega (arith, length-take b.write_pos b.buffer)

      tail : take (n - length (contents b)) (bytes ++ after) ≡ bytes
      tail =
          take_cong (bytes ++ after) (n - length (contents b)) (length bytes)
            (omega (arith, length-contents v))
          ∙ take-append_left (length bytes) bytes after (omega arith)
          ∙ take_all (length bytes) bytes (omega arith)

-- Growing the vector changes no byte that is held.
abbrev pub grown : ℕ → TcpBuffer → TcpBuffer
grown n b = record b { buffer = resized n b.buffer }

module _ (n : ℕ) {b : TcpBuffer} (v : IsValid b) (more : length b.buffer ≤ n) where
  pub length-resized : length (resized n b.buffer) ≡ n
  unfolding resized
  length-resized = omega (
    arith,
    length-append (take n b.buffer) (replicate (n - length b.buffer) 0),
    length-take n b.buffer,
    length-replicate {A = ℕ} (n - length b.buffer) 0,
  )

  pub contents-grown : contents (grown n b) ≡ contents b
  unfolding contents resized
  contents-grown =
      ap (λ xs. take (b.write_pos - b.read_pos) (drop b.read_pos (xs ++ zeros)))
        (take_all n b.buffer more)
      ∙ ap (take (b.write_pos - b.read_pos))
          (drop-append_left b.read_pos b.buffer zeros (omega arith))
      ∙ take-append_left (b.write_pos - b.read_pos) (drop b.read_pos b.buffer) zeros
          (omega (arith, length-drop b.read_pos b.buffer))
    where
      zeros : List ℕ
      zeros = replicate (n - length b.buffer) 0

pub resize_lem : (n : ℕ) (b : TcpBuffer) → n ≤ max_size → resize n b ≡ ok tt (grown n b)
unfolding resize
resize_lem n b h = ground arith
