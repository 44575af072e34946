-- ===== src/Http/Unpacked.antt =====
-- `setContentByFilePath` of src/http/HttpResponse.cpp with the compressors of src/base/Compress.cpp: what
-- a client gets that undoes the compression.
use simple_tcp.Prelude.{
  ℕ, false, some-injective, Bool-cases, arith, ◌≡◌, inl, inr, sym, ap, subst, ◌^◌, ◌≤◌, ◌<◌, Option,
  none, some, Outcome, ok, threw, abort, fault, hang, length, [],
}
use simple_tcp.Buffer.Memory.{resized}
use simple_tcp.Strings.{Text, text}
use simple_tcp.Compress.{
  Code, z_ok, same_code, Zlib, compress_gzip, uncompress_gzip, compress_deflate, uncompress_deflate,
}
use simple_tcp.Compress.Manual.{IsDeflate, IsInflate, IsCompress, IsUncompress}
use simple_tcp.Compress.Streams.{same_code-≡}
use simple_tcp.Compress.RoundTrip.{
  uncompress_gzip-compress_gzip, uncompress_deflate-compress_deflate,
}
use simple_tcp.Http.{HttpResponse, get_property, Result}
use simple_tcp.Http.Files.{set_content_by_file_path}
use simple_tcp.Http.Served.{
  Carries, as_it_is, as_gzip, as_deflate, Served, IsServed, set_content_by_file_path-IsServed,
}

-- What a call gives; nothing where it throws, which `setContentByFilePath` catches.
abbrev value_of : Outcome ℕ Text → Option Text
value_of (ok t after) = some t
value_of (threw e after) = none
value_of abort = none
value_of fault = none
value_of hang = none

value_of-some :
    (o : Outcome ℕ Text) (t : Text) → value_of o ≡ some t → (after : ℕ) × (o ≡ ok t after)
value_of-some (ok t' after) t e = (after, ap (λ u. ok u after) (some-injective e))
value_of-some (threw x after) t e = absurd (ground (arith, e))
value_of-some abort t e = absurd (ground (arith, e))
value_of-some fault t e = absurd (ground (arith, e))
value_of-some hang t e = absurd (ground (arith, e))

module _ (z : Zlib) (open_streams : ℕ) where
  abbrev pub gzipped : Text → Option Text
  gzipped t = value_of (compress_gzip z t open_streams)

  abbrev pub deflated : Text → Option Text
  deflated t = some (compress_deflate z t)

  -- What a client with room for `n` bytes gets that unpacks the body as its header says: the file,
  -- unless zlib's compress, whose code is not looked at, had failed.
  pub data IsUnpacked (bytes : Text) (n : ℕ) (r' : HttpResponse) : Type 0 where
    unpacked : r'.body ≡ bytes → IsUnpacked bytes n r'
    from_gzip :
        get_property (text "Content-Encoding") r'.headers ≡ some (text "gzip")
        → uncompress_gzip z r'.body n open_streams ≡ ok bytes open_streams
        → IsUnpacked bytes n r'
    from_deflate :
        get_property (text "Content-Encoding") r'.headers ≡ some (text "deflate")
        → uncompress_deflate z r'.body n ≡ bytes
        → IsUnpacked bytes n r'
    unnoticed :
        get_property (text "Content-Encoding") r'.headers ≡ some (text "deflate")
        → same_code (z.compress (resized (length bytes) []) (length bytes) bytes).code z_ok ≡ false
        → IsUnpacked bytes n r'

  module _ {IsGzip IsZlib : Text → Text → Type 0} (deflates : IsDeflate IsGzip z.deflate)
      (inflates : IsInflate IsGzip z.inflate) (compresses : IsCompress IsZlib z.compress)
      (uncompresses : IsUncompress IsZlib z.uncompress) (s : z.inflate.State)
      (made : z.inflate.init ≡ some s) (bytes : Text) (n : ℕ) (room : length bytes ≤ n) where
    deflate-IsUnpacked :
        (r' : HttpResponse)
        → deflated bytes ≡ some r'.body
        → get_property (text "Content-Encoding") r'.headers ≡ some (text "deflate")
        → IsUnpacked bytes n r'
    deflate-IsUnpacked r' e header = elim (Bool-cases (same_code code z_ok)) [
      | inl went ↦ from_deflate header (
          subst (λ t. uncompress_deflate z t n ≡ bytes) (some-injective e)
            (uncompress_deflate-compress_deflate IsZlib z compresses uncompresses bytes n room
              (same_code-≡ code z_ok went)))
      | inr failed ↦ unnoticed header failed
    ]
      where
        code : Code
        code = (z.compress (resized (length bytes) []) (length bytes) bytes).code

    Carries-IsUnpacked :
        (r' : HttpResponse) → n < 2 ^ 32 → Carries gzipped deflated bytes r' → IsUnpacked bytes n r'
    Carries-IsUnpacked r' small (as_it_is e) = unpacked e
    Carries-IsUnpacked r' small (as_gzip e header) =
        let given = value_of-some (compress_gzip z bytes open_streams) r'.body e in
        from_gzip header (
          uncompress_gzip-compress_gzip IsGzip z deflates inflates s bytes r'.body n open_streams
            given.0 open_streams made room small given.1)
    Carries-IsUnpacked r' small (as_deflate e header) = deflate-IsUnpacked r' e header

    -- Where setContentByFilePath, with the compressors over zlib, gives a response for a file, the file
    -- is its body, or is what uncompressing the body gives, by the method that the header names, in any
    -- room from the file's length up to 4 GiB; except where the header says deflate and zlib's compress
    -- had failed, which is not looked at.
    pub set_content_by_file_path-IsUnpacked :
        (ext : Option Text) (r r' : HttpResponse)
        → n < 2 ^ 32
        → set_content_by_file_path gzipped deflated ext (some bytes) r ≡ Result.ok r'
        → IsUnpacked bytes n r'
    set_content_by_file_path-IsUnpacked ext r r' small e = Carries-IsUnpacked r' small (
        subst (λ b. Carries gzipped deflated b r') (sym (some-injective served.there))
          served.carries)
      where
        served : Served gzipped deflated ext (some bytes) r r'
        served =
            subst (λ o. IsServed gzipped deflated ext (some bytes) r o) e
              (set_content_by_file_path-IsServed gzipped deflated ext (some bytes) r)
