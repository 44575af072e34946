-- ===== src/Compress/Manual.antt =====
-- What zlib's manual (zlib.h) says of the calls that src/base/Compress.cpp makes, over two relations
-- between a text and its codings: that of zlib (RFC 1950) and that of gzip (RFC 1952).
use simple_tcp.Prelude.{◌≡◌, ℕ, ◌+◌, ◌≤◌, [], some, length, take, true}
use simple_tcp.Strings.{Text}
use simple_tcp.Compress.{z_ok, z_stream_end, Flush, z_no_flush, z_finish, Stream, Coder, Filled}

-- A stream with its whole input before it.
abbrev pub whole : {S : Type 0} → S → Text → ℕ → Stream S
whole s src n = record { state = s; next_in = src; avail_out = n; written = [] }

-- What both directions keep to: what is written comes off `avail_out`, and a stream that was finished
-- can be ended.
pub record IsCoder (c : Coder) : Type 0 where
  pub room :
      (f : Flush) (st : Stream c.State)
      → length (c.step f st).1.written + (c.step f st).1.avail_out
        ≡ length st.written + st.avail_out
  pub ends :
      (st : Stream c.State)
      → (c.step z_finish st).0 ≡ z_stream_end
      → c.end (c.step z_finish st).1 ≡ (z_ok, true)

module _ (IsCoding : Text → Text → Type 0) where
  -- `Given src st`: the stream was given all of `src`. When Z_FINISH returns Z_STREAM_END, then the
  -- coding of that is written.
  pub record IsDeflate (c : Coder) : Type 1 where
    pub coder : IsCoder c
    pub Given : Text → Stream c.State → Type 0
    pub given_start :
        (s : c.State) (src : Text) (n : ℕ) → c.init ≡ some s → Given src (whole s src n)
    pub given_step :
        (f : Flush) (src : Text) (st : Stream c.State) → Given src st → Given src (c.step f st).1
    pub given_end :
        (src : Text) (st : Stream c.State)
        → Given src st
        → (c.step z_finish st).0 ≡ z_stream_end
        → IsCoding src (c.step z_finish st).1.written

  -- With room for all of it, a coding is read in one call; after the end a call changes nothing.
  pub record IsInflate (c : Coder) : Type 0 where
    pub coder : IsCoder c
    pub reads :
        (s : c.State) (src coded : Text) (n : ℕ)
        → c.init ≡ some s
        → IsCoding src coded
        → length src ≤ n
        → ((c.step z_no_flush (whole s coded n)).0 ≡ z_stream_end)
          × ((c.step z_no_flush (whole s coded n)).1.written ≡ src)
    pub stays :
        (st : Stream c.State)
        → (c.step z_no_flush st).0 ≡ z_stream_end
        → ((c.step z_finish (c.step z_no_flush st).1).0 ≡ z_stream_end)
          × ((c.step z_finish (c.step z_no_flush st).1).1.written
              ≡ (c.step z_no_flush st).1.written)

  -- compress, where it returns Z_OK, leaves a coding at the start of the destination.
  abbrev pub IsCompress : (Text → ℕ → Text → Filled) → Type 0
  IsCompress compress =
      (dest src : Text) (n : ℕ)
      → n ≤ length dest
      → (compress dest n src).code ≡ z_ok
      → ((compress dest n src).dest_len ≤ length (compress dest n src).dest)
        × IsCoding src (take (compress dest n src).dest_len (compress dest n src).dest)

  -- uncompress reads a coding where there is room for all of the text.
  abbrev pub IsUncompress : (Text → ℕ → Text → Filled) → Type 0
  IsUncompress uncompress =
      (dest src coded : Text) (n : ℕ)
      → n ≤ length dest
      → length src ≤ n
      → IsCoding src coded
      → ((uncompress dest n coded).dest_len ≡ length src)
        × (length src ≤ length (uncompress dest n coded).dest)
        × (take (length src) (uncompress dest n coded).dest ≡ src)
