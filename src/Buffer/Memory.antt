-- ===== src/Buffer/Memory.antt =====
-- std::vector<uint8_t> and memcpy, as TcpBuffer uses them.
use simple_tcp.Prelude.{
  ℕ, ◌+◌, ◌-◌, List, Option, none, some, ◌++◌, leb, if◌then◌else◌, length, take, drop, replicate,
}

-- 2 ^ 63 - 1, the largest size of a vector of bytes and of any object in memory.
abbrev pub max_size : ℕ
max_size = 9223372036854775807

-- The elements after `resize(n)`: cut off, or filled up with zeros.
unfoldable pub resized : ℕ → List ℕ → List ℕ
resized n xs = take n xs ++ replicate (n - length xs) 0

-- The elements after `bytes` are copied to position `pos`; `none` if that leaves the vector.
unfoldable pub copied_in : ℕ → List ℕ → List ℕ → Option (List ℕ)
copied_in pos bytes xs =
    if leb (pos + length bytes) (length xs)
    then some (take pos xs ++ (bytes ++ drop (pos + length bytes) xs))
    else none

-- `n` elements from position `pos` on; `none` if that leaves the vector.
unfoldable pub copied_out : ℕ → ℕ → List ℕ → Option (List ℕ)
copied_out pos n xs = if leb (pos + n) (length xs) then some (take n (drop pos xs)) else none
