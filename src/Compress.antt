-- ===== src/Compress.antt =====
-- The wrappers of zlib (include/base/Compress.h, src/base/Compress.cpp). The state is the number of
-- streams for which zlib holds memory. zlib is a parameter, `Zlib`; what its manual says of it, as far
-- as the theorems need it, is in Compress/Manual.
pub mod Manual
pub mod Streams
pub mod RoundTrip
pub mod Copying
mod Tests
use simple_tcp.Prelude.{
  ℕ, suc, ◌-◌, ◌%◌, ◌^◌, Bool, true, false, List, [], ◌++◌, Option, none, some, length, take, drop,
  replicate, M, ok, threw, ◌>>=◌, return, throw, other_exception,
}
use simple_tcp.Buffer.Memory.{resized}
use simple_tcp.Strings.{Text}

-- What a call of zlib returns, as far as the wrappers tell it apart.
pub data Code : Type 0 where
  z_ok z_stream_end z_error : Code

pub data Flush : Type 0 where
  z_no_flush z_finish : Flush

-- `z_stream`: its `state`, the `avail_in` bytes at `next_in`, `avail_out`, and the bytes that were
-- written behind the first `next_out`.
pub record Stream (S : Type 0) : Type 0 where
  pub state : S
  pub next_in : Text
  pub avail_out : ℕ
  pub written : Text

-- deflateInit2, deflate and deflateEnd, or inflateInit2, inflate and inflateEnd: with the parameters of
-- the source; `init` gives nothing where it does not return Z_OK; `end` says also whether the memory was
-- given back.
pub record Coder : Type 1 where
  pub State : Type 0
  pub init : Option State
  pub step : Flush → Stream State → Code × Stream State
  pub end : Stream State → Code × Bool

-- What compress and uncompress leave: their code, the length that they store, the destination.
pub record Filled : Type 0 where
  pub code : Code
  pub dest_len : ℕ
  pub dest : Text

pub record Zlib : Type 1 where
  pub deflate : Coder
  pub inflate : Coder
  pub compress : Text → ℕ → Text → Filled
  pub uncompress : Text → ℕ → Text → Filled

-- `compress_deflate`: the code of `compress` is not looked at.
unfoldable pub compress_deflate : Zlib → Text → Text
compress_deflate z src =
    let filled = z.compress (resized (length src) []) (length src) src in
    resized filled.dest_len filled.dest

-- `uncompress_deflate`
unfoldable pub uncompress_deflate : Zlib → Text → ℕ → Text
uncompress_deflate z src n =
    let filled = z.uncompress (resized n []) n src in resized filled.dest_len filled.dest

-- The stream before the first call: both sizes are cast to 32 bits.
abbrev pub start : {S : Type 0} → S → Text → ℕ → Stream S
start s src n = record {
  state = s;
  next_in = take (length src % 2 ^ 32) src;
  avail_out = n % 2 ^ 32;
  written = [];
}

abbrev pub same_code : Code → Code → Bool
same_code z_ok z_ok = true
same_code z_stream_end z_stream_end = true
same_code z_error z_error = true
same_code c c' = false

-- The destination of `n` bytes, cut to what the stream says it has filled.
unfoldable pub filled : {S : Type 0} → ℕ → Stream S → Text
filled n st = resized (n - st.avail_out) (st.written ++ drop (length st.written) (resized n []))

module _ (c : Coder) where
  unfoldable pub init_stream : M ℕ c.State
  init_stream open_streams = elim c.init [
    | none ↦ threw other_exception open_streams
    | some s ↦ ok s (suc open_streams)
  ]

  -- a call that has to return `wanted`
  unfoldable pub call : Flush → Code → Stream c.State → M ℕ (Stream c.State)
  call flush wanted st open_streams = elim (same_code (c.step flush st).0 wanted) [
    | true ↦ ok (c.step flush st).1 open_streams
    | false ↦ threw other_exception open_streams
  ]

  abbrev released : Bool → ℕ → ℕ
  released true open_streams = open_streams - 1
  released false open_streams = open_streams

  unfoldable pub end_stream : Stream c.State → M ℕ (Stream c.State)
  end_stream st open_streams = elim (same_code (c.end st).0 z_ok) [
    | true ↦ ok st (released (c.end st).1 open_streams)
    | false ↦ threw other_exception (released (c.end st).1 open_streams)
  ]

  -- The body that the two functions share; `wanted` is the code that the first call has to return.
  unfoldable pub run : Code → Text → ℕ → M ℕ Text
  run wanted src n = do
    s ← init_stream
    st ← call z_no_flush wanted (start s src n)
    last ← call z_finish z_stream_end st
    end ← end_stream last
    return (filled n end)

unfoldable pub compress_gzip : Zlib → Text → M ℕ Text
compress_gzip z src = run z.deflate z_ok src (length src)

unfoldable pub uncompress_gzip : Zlib → Text → ℕ → M ℕ Text
uncompress_gzip z src n = run z.inflate z_stream_end src n
