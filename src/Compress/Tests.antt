-- ===== src/Compress/Tests.antt =====
-- Runs of Compress, and its theorems, with the coder that copies.
use simple_tcp.Prelude.{◌≡◌, refl, arith, ok, threw, other_exception}
use simple_tcp.Buffer.Memory.{resized}
use simple_tcp.Strings.{text}
use simple_tcp.Compress.{filled, init_stream, call, end_stream, run, compress_gzip, uncompress_gzip}
use simple_tcp.Compress.Copying.{IsCopy, copying, deflate_copy-IsDeflate, inflate_copy-IsInflate}
use simple_tcp.Compress.RoundTrip.{
  IsCompressed, compress_gzip-IsCompressed, uncompress_gzip-compress_gzip,
}

hello_there_and_back : uncompress_gzip copying (text "hello") 9 0 ≡ ok (text "hello") 0
unfolding uncompress_gzip run init_stream call end_stream filled resized
hello_there_and_back = refl

-- Without room the stream stays in memory.
no_room_leaves_a_stream : uncompress_gzip copying (text "hello") 4 0 ≡ threw other_exception 1
unfolding uncompress_gzip run init_stream call end_stream filled resized
no_room_leaves_a_stream = refl

compress_gzip-IsCompressed_example :
    IsCompressed IsCopy copying (text "hello") 2 (compress_gzip copying (text "hello") 2)
compress_gzip-IsCompressed_example =
    compress_gzip-IsCompressed IsCopy copying deflate_copy-IsDeflate (text "hello") (omega arith) 2

uncompress_gzip-compress_gzip_example :
    uncompress_gzip copying (text "hello") 9 3 ≡ ok (text "hello") 3
unfolding compress_gzip run init_stream call end_stream filled resized
uncompress_gzip-compress_gzip_example =
    uncompress_gzip-compress_gzip IsCopy copying deflate_copy-IsDeflate inflate_copy-IsInflate tt
      (text "hello") (text "hello") 9 0 0 3 refl (omega arith) (omega arith) refl
