-- ===== src/Compress/RoundTrip.antt =====
-- What the functions of src/base/Compress.cpp give, where zlib is as its manual says.
use simple_tcp.Prelude.{
  ℕ, suc, ◌+◌, ◌-◌, ◌^◌, ◌<◌, ◌≤◌, ◌≡◌, ◌⊎◌, ap, subst, ◌∙◌, true, false, [], none, some, length,
  take, take_nil, append-nil, length-replicate, arith, Outcome, ok, threw, abort, fault, hang,
  other_exception,
}
use simple_tcp.Buffer.Memory.{resized}
use simple_tcp.Strings.{Text}
use simple_tcp.Compress.{
  z_ok, z_stream_end, z_no_flush, z_finish, Stream, Filled, Coder, Zlib, filled, run,
  compress_deflate, uncompress_deflate, compress_gzip, uncompress_gzip,
}
use simple_tcp.Compress.Manual.{whole, IsCoder, IsDeflate, IsInflate, IsCompress, IsUncompress}
use simple_tcp.Compress.Streams.{start_whole, filled_lem, first, last, IsRun, run_ok, run-IsRun}

resized_lem : (n : ℕ) (dest : Text) → n ≤ length dest → resized n dest ≡ take n dest
unfolding resized
resized_lem n dest h = rw none_left (append-nil (take n dest))
  where
    none_left : n - length dest ≡ 0
    none_left = omega (arith, h)

resized_room : (n : ℕ) → n ≤ length (resized n [])
unfolding resized
resized_room n = rw (take_nil {A = ℕ} n) (omega (arith, length-replicate {A = ℕ} (n - 0) 0))

-- What a stream has written at the end is what the caller is given.
module _ (c : Coder) (s : c.State) (src : Text) (n : ℕ) where
  abbrev after_first : Stream c.State
  after_first = (c.step z_no_flush (whole s src n)).1

  abbrev after_last : Stream c.State
  after_last = (c.step z_finish after_first).1

  module _ (k : IsCoder c) (short : length src < 2 ^ 32) (small : n < 2 ^ 32) where
    all_room : length after_last.written + after_last.avail_out ≡ n
    all_room = omega (arith, k.room z_finish after_first, k.room z_no_flush (whole s src n))

    last_written : filled n (last c src n s).1 ≡ after_last.written
    last_written =
        rw (start_whole s src n short small, last, first) (filled_lem n after_last all_room)

    last_fits : length (filled n (last c src n s).1) ≤ n
    last_fits = rw last_written (omega (arith, all_room))

module _ (IsCoding : Text → Text → Type 0) (z : Zlib) where
  -- What compress_gzip may come to.
  abbrev pub IsCompressed : Text → ℕ → Outcome ℕ Text → Type 0
  IsCompressed src open_streams (ok t after) =
      IsCoding src t × (length t ≤ length src) × (after ≡ open_streams)
  IsCompressed src open_streams (threw e after) =
      (e ≡ other_exception)
      × (((z.deflate.init ≡ none) × (after ≡ open_streams)) ⊎ (after ≡ suc open_streams))
  IsCompressed src open_streams abort = true ≡ false
  IsCompressed src open_streams fault = true ≡ false
  IsCompressed src open_streams hang = true ≡ false

  module _ (deflates : IsDeflate IsCoding z.deflate) (src : Text)
      (short : length src < 2 ^ 32) where
    coded :
        (s : z.deflate.State)
        → z.deflate.init ≡ some s
        → (last z.deflate src (length src) s).0 ≡ z_stream_end
        → IsCoding src (filled (length src) (last z.deflate src (length src) s).1)
    coded s e last_code =
        rw (last_written z.deflate s src (length src) deflates.coder short short) (
          deflates.given_end src st
            (deflates.given_step z_no_flush src (whole s src (length src))
              (deflates.given_start s src (length src) e))
            (subst (λ w. (z.deflate.step z_finish (z.deflate.step z_no_flush w).1).0 ≡ z_stream_end)
              (start_whole s src (length src) short short) last_code))
      where
        st : Stream z.deflate.State
        st = after_first z.deflate s src (length src)

    run-IsCompressed :
        (open_streams : ℕ) (o : Outcome ℕ Text)
        → IsRun z.deflate deflates.coder z_ok src (length src) open_streams o
        → IsCompressed src open_streams o
    run-IsCompressed open_streams (ok t after) (s, e, first_code, last_code, given, same) =
        rw given (
          coded s e last_code,
          last_fits z.deflate s src (length src) deflates.coder short short,
          same,
        )
    run-IsCompressed open_streams (threw x after) h = h
    run-IsCompressed open_streams abort h = h
    run-IsCompressed open_streams fault h = h
    run-IsCompressed open_streams hang h = h

    -- compress_gzip, for a text below 4 GiB: it gives a coding of the text that is no longer than the
    -- text, and no stream is left; or it throws, and unless none could be made, the stream is left in
    -- memory.
    pub compress_gzip-IsCompressed :
        (open_streams : ℕ) → IsCompressed src open_streams (compress_gzip z src open_streams)
    unfolding compress_gzip
    compress_gzip-IsCompressed open_streams =
        run-IsCompressed open_streams (run z.deflate z_ok src (length src) open_streams)
          (run-IsRun z.deflate deflates.coder z_ok src (length src) open_streams)

  -- uncompress_gzip of a coding of a text, with room for the text
  reads_back :
      (inflates : IsInflate IsCoding z.inflate) (s : z.inflate.State)
      → z.inflate.init ≡ some s
      → (src t : Text) (n open_streams : ℕ) → IsCoding src t
      → length t < 2 ^ 32
      → length src ≤ n
      → n < 2 ^ 32
      → uncompress_gzip z t n open_streams ≡ ok src open_streams
  unfolding uncompress_gzip
  reads_back inflates s e src t n open_streams coding short room small =
      run_ok z.inflate inflates.coder z_stream_end t n s open_streams e
        (rw (start_whole s t n short small, first) read.0)
        (rw (start_whole s t n short small, last, first) stay.0)
      ∙ ap (λ (u : Text). ok u open_streams)
          (last_written z.inflate s t n inflates.coder short small ∙ stay.1 ∙ read.1)
    where
      read :
          ((z.inflate.step z_no_flush (whole s t n)).0 ≡ z_stream_end)
          × ((z.inflate.step z_no_flush (whole s t n)).1.written ≡ src)
      read = inflates.reads s src t n e coding room

      stay :
          ((z.inflate.step z_finish (z.inflate.step z_no_flush (whole s t n)).1).0 ≡ z_stream_end)
          × ((z.inflate.step z_finish (z.inflate.step z_no_flush (whole s t n)).1).1.written
              ≡ (z.inflate.step z_no_flush (whole s t n)).1.written)
      stay = inflates.stays (whole s t n) read.0

  -- What compress_gzip gives for a text below 4 GiB, uncompress_gzip turns back into the text, in any
  -- room from the text's length up to 4 GiB, where a stream can be made; and it leaves no stream.
  pub uncompress_gzip-compress_gzip :
      IsDeflate IsCoding z.deflate
      → IsInflate IsCoding z.inflate
      → (s : z.inflate.State) (src t : Text) (n before after open_streams : ℕ)
      → z.inflate.init ≡ some s
      → length src ≤ n
      → n < 2 ^ 32
      → compress_gzip z src before ≡ ok t after
      → uncompress_gzip z t n open_streams ≡ ok src open_streams
  uncompress_gzip-compress_gzip deflates inflates s src t n before after open_streams e room small
        made =
      reads_back inflates s e src t n open_streams compressed.0 (omega (arith, compressed.1)) room
        small
    where
      compressed : IsCompressed src before (ok t after)
      compressed =
          subst (λ o. IsCompressed src before o) made
            (compress_gzip-IsCompressed deflates src (omega arith) before)

  -- What compress_deflate gives where zlib's compress had the room to succeed, uncompress_deflate turns
  -- back into the text, in any room from the text's length on.
  pub uncompress_deflate-compress_deflate :
      IsCompress IsCoding z.compress
      → IsUncompress IsCoding z.uncompress
      → (src : Text) (n : ℕ) → length src ≤ n
      → (z.compress (resized (length src) []) (length src) src).code ≡ z_ok
      → uncompress_deflate z (compress_deflate z src) n ≡ src
  unfolding uncompress_deflate compress_deflate
  uncompress_deflate-compress_deflate compresses uncompresses src n room went =
      rw back.0 (resized_lem (length src) filled_again.dest back.1 ∙ back.2)
    where
      compressed : Filled
      compressed = z.compress (resized (length src) []) (length src) src

      coding :
          (compressed.dest_len ≤ length compressed.dest)
          × IsCoding src (take compressed.dest_len compressed.dest)
      coding =
          compresses (resized (length src) []) src (length src) (resized_room (length src)) went

      filled_again : Filled
      filled_again = z.uncompress (resized n []) n (compress_deflate z src)

      back :
          (filled_again.dest_len ≡ length src)
          × (length src ≤ length filled_again.dest)
          × (take (length src) filled_again.dest ≡ src)
      back =
          uncompresses (resized n []) src (compress_deflate z src) n (resized_room n) room
            (rw (resized_lem compressed.dest_len compressed.dest coding.0) coding.1)
