-- ===== src/Http/Chosen.antt =====
-- What `setContentByFilePath` of src/http/HttpResponse.cpp gives, by what the file is.
use simple_tcp.Prelude.{
  ◌≡◌, ◌≢◌, refl, inl, inr, true, false, Option, none, some, arith, Option-cases, length, pos,
}
use simple_tcp.Strings.{Text, text}
use simple_tcp.Http.Common.{
  ContentType, EncodingType, no_encoding, gzip, compress, deflate, br, encoding_text,
}
use simple_tcp.Http.{
  Headers, HttpResponse, set_property, Result, ok, error, file_not_found, select_encode_type,
}
use simple_tcp.Http.Files.{type_of_file, encoded, compressed, set_file, set_content_by_file_path}
use simple_tcp.Http.Choice.{
  HasType, Selects, type_of_file-HasType, type_of_file-none, select_encode_type-Selects,
}

-- A response with this type, this body and these headers, and the length of the body.
abbrev pub carrying : ContentType → Text → Headers → HttpResponse → HttpResponse
carrying t body hs r = record r {
  headers = hs;
  body = body;
  content_type = t;
  content_length = pos (length body);
}

abbrev pub marked : Text → HttpResponse → Headers
marked name r = set_property (text "Content-Encoding") name r.headers

module _ (compress_gzip compress_deflate : Text → Option Text) (ext : Option Text)
    (r : HttpResponse) where
  -- What setContentByFilePath is to give, by what the file is.
  pub data Serves : Option Text → Result HttpResponse → Type 0 where
    as_it_is :
        {t : ContentType} {bytes : Text}
        → HasType ext t
        → Selects ext r.avail_encodings no_encoding
        → Serves (some bytes) (ok (carrying t bytes r.headers r))
    gzipped :
        {t : ContentType} {bytes b : Text}
        → HasType ext t
        → Selects ext r.avail_encodings gzip
        → compress_gzip bytes ≡ some b
        → Serves (some bytes) (ok (carrying t b (marked (text "gzip") r) r))
    deflated :
        {t : ContentType} {bytes b : Text} {c : EncodingType}
        → HasType ext t
        → Selects ext r.avail_encodings c
        → c ≢ no_encoding
        → c ≢ gzip
        → compress_deflate bytes ≡ some b
        → Serves (some bytes) (ok (carrying t b (marked (text "deflate") r) r))
    gzip_failed :
        {bytes : Text}
        → Selects ext r.avail_encodings gzip
        → compress_gzip bytes ≡ none
        → Serves (some bytes) (error file_not_found)
    deflate_failed :
        {bytes : Text} {c : EncodingType}
        → Selects ext r.avail_encodings c
        → c ≢ no_encoding
        → c ≢ gzip
        → compress_deflate bytes ≡ none
        → Serves (some bytes) (error file_not_found)
    unreadable : Serves none (error file_not_found)
    unknown_type :
        {file : Option Text}
        → ((t : ContentType) → HasType ext t → true ≡ false)
        → Serves file (error file_not_found)

module _ (compress_gzip compress_deflate : Text → Option Text) (ext : Option Text)
    (r : HttpResponse) where
  gzip-Serves :
      (t : ContentType) (bytes : Text) (out : Option Text)
      → HasType ext t
      → Selects ext r.avail_encodings gzip
      → compress_gzip bytes ≡ out
      → Serves compress_gzip compress_deflate ext r (some bytes) (compressed gzip t out r)
  unfolding encoded encoding_text
  gzip-Serves t bytes none h s e = gzip_failed s e
  gzip-Serves t bytes (some b) h s e = gzipped h s e

  deflate-Serves :
      (c : EncodingType) (t : ContentType) (bytes : Text) (out : Option Text)
      → HasType ext t
      → Selects ext r.avail_encodings c
      → c ≢ no_encoding
      → c ≢ gzip
      → compress_deflate bytes ≡ out
      → Serves compress_gzip compress_deflate ext r (some bytes) (compressed deflate t out r)
  unfolding encoded encoding_text
  deflate-Serves c t bytes none h s n g e = deflate_failed s n g e
  deflate-Serves c t bytes (some b) h s n g e = deflated h s n g e

  set_file-Serves :
      (c : EncodingType) (t : ContentType) (bytes : Text)
      → HasType ext t
      → Selects ext r.avail_encodings c
      → Serves compress_gzip compress_deflate ext r
          (some bytes)
          (set_file compress_gzip compress_deflate c t bytes r)
  unfolding set_file
  set_file-Serves no_encoding t bytes h s = as_it_is h s
  set_file-Serves gzip t bytes h s = gzip-Serves t bytes (compress_gzip bytes) h s refl
  set_file-Serves compress t bytes h s =
      deflate-Serves compress t bytes (compress_deflate bytes) h s (λ e. ground (arith, e))
        (λ e. ground (arith, e)) refl
  set_file-Serves deflate t bytes h s =
      deflate-Serves deflate t bytes (compress_deflate bytes) h s (λ e. ground (arith, e))
        (λ e. ground (arith, e)) refl
  set_file-Serves br t bytes h s =
      deflate-Serves br t bytes (compress_deflate bytes) h s (λ e. ground (arith, e))
        (λ e. ground (arith, e)) refl

  -- setContentByFilePath, for every file and every response: the type is that which the table lists for
  -- the extension, or binary without one; the encoding is the first one that the client accepts, for a
  -- page, XML, JavaScript or JSON, and none for any other file; the body is the file, or what gzip
  -- made of it where gzip is that encoding, or deflate where it is any other; the content length is the
  -- body's, and Content-Encoding names the compression. Or ResponseError is FileNotFound: then the file
  -- cannot be read, the compressor failed, or the table does not list the extension.
  pub set_content_by_file_path-Serves :
      (file : Option Text)
      → Serves compress_gzip compress_deflate ext r file
          (set_content_by_file_path compress_gzip compress_deflate ext file r)
  unfolding set_content_by_file_path
  set_content_by_file_path-Serves file = elim (Option-cases (type_of_file ext)) [
    | inl e ↦ rw (e, set_content_by_file_path) (unknown_type (λ t. type_of_file-none ext t e))
    | inr (t, e) ↦ go t e file
  ]
    where
      go :
          (t : ContentType)
          → type_of_file ext ≡ some t
          → (file : Option Text)
          → Serves compress_gzip compress_deflate ext r file
              (set_content_by_file_path compress_gzip compress_deflate ext file r)
      go t e none = rw (e, set_content_by_file_path) unreadable
      go t e (some bytes) =
          rw (e, set_content_by_file_path)
            (set_file-Serves (select_encode_type ext r) t bytes (type_of_file-HasType ext t e)
              (select_encode_type-Selects ext r))
