-- ===== src/Http/Served.antt =====
-- Responses that are made from files (`setContentByFilePath` of src/http/HttpResponse.cpp).
use simple_tcp.Prelude.{
  ◌≡◌, refl, true, false, Option, none, some, Option-cases, inl, inr, length, pos,
}
use simple_tcp.Strings.{Text, text}
use simple_tcp.Http.Common.{
  ContentType, EncodingType, no_encoding, gzip, compress, deflate, br, encoding_text,
}
use simple_tcp.Http.{
  HttpResponse, get_property, Result, ok, error, undefined, file_not_found, select_encode_type,
}
use simple_tcp.Http.Headers.{get_property-set_property}
use simple_tcp.Http.Files.{type_of_file, encoded, compressed, set_file, set_content_by_file_path}

module _ (compress_gzip compress_deflate : Text → Option Text) where
  -- The body for the content of a file: itself, or what a compressor gave, with the header that says so.
  pub data Carries (bytes : Text) (r' : HttpResponse) : Type 0 where
    as_it_is : r'.body ≡ bytes → Carries bytes r'
    as_gzip :
        compress_gzip bytes ≡ some r'.body
        → get_property (text "Content-Encoding") r'.headers ≡ some (text "gzip")
        → Carries bytes r'
    as_deflate :
        compress_deflate bytes ≡ some r'.body
        → get_property (text "Content-Encoding") r'.headers ≡ some (text "deflate")
        → Carries bytes r'

  pub record Served (ext file : Option Text) (r r' : HttpResponse) : Type 0 where
    pub bytes : Text
    pub there : file ≡ some bytes
    pub carries : Carries bytes r'
    pub typed : type_of_file ext ≡ some r'.content_type
    pub counted : r'.content_length ≡ pos (length r'.body)
    pub same_status : r'.status ≡ r.status
    pub same_version : r'.version ≡ r.version

  -- What the call comes to: a response that carries the file, or FileNotFound.
  abbrev pub IsServed : Option Text → Option Text → HttpResponse → Result HttpResponse → Type 0
  IsServed ext file r (ok r') = Served ext file r r'
  IsServed ext file r (error e) = e ≡ file_not_found
  IsServed ext file r undefined = true ≡ false

  module _ (ext : Option Text) (t : ContentType) (known : type_of_file ext ≡ some t)
      (r : HttpResponse) where
    gzip-IsServed :
        (bytes : Text) (out : Option Text)
        → compress_gzip bytes ≡ out
        → IsServed ext (some bytes) r (compressed gzip t out r)
    unfolding encoded encoding_text
    gzip-IsServed bytes none e = refl
    gzip-IsServed bytes (some b) e = record {
      bytes = bytes;
      there = refl;
      carries = as_gzip e (
          get_property-set_property (text "Content-Encoding") (text "Content-Encoding")
            (text "gzip") r.headers);
      typed = known;
      counted = refl;
      same_status = refl;
      same_version = refl;
    }

    deflate-IsServed :
        (bytes : Text) (out : Option Text)
        → compress_deflate bytes ≡ out
        → IsServed ext (some bytes) r (compressed deflate t out r)
    unfolding encoded encoding_text
    deflate-IsServed bytes none e = refl
    deflate-IsServed bytes (some b) e = record {
      bytes = bytes;
      there = refl;
      carries = as_deflate e (
          get_property-set_property (text "Content-Encoding") (text "Content-Encoding")
            (text "deflate") r.headers);
      typed = known;
      counted = refl;
      same_status = refl;
      same_version = refl;
    }

    set_file-IsServed :
        (e : EncodingType) (bytes : Text)
        → IsServed ext (some bytes) r (set_file compress_gzip compress_deflate e t bytes r)
    unfolding set_file
    set_file-IsServed no_encoding bytes = record {
      bytes = bytes;
      there = refl;
      carries = as_it_is refl;
      typed = known;
      counted = refl;
      same_status = refl;
      same_version = refl;
    }
    set_file-IsServed gzip bytes = gzip-IsServed bytes (compress_gzip bytes) refl
    set_file-IsServed compress bytes = deflate-IsServed bytes (compress_deflate bytes) refl
    set_file-IsServed deflate bytes = deflate-IsServed bytes (compress_deflate bytes) refl
    set_file-IsServed br bytes = deflate-IsServed bytes (compress_deflate bytes) refl

  -- setContentByFilePath gives a response with the file's content, as it is or compressed, in which
  -- case a header names the compression; with the type of the extension; and with a content length
  -- that is the body's; or else ResponseError is FileNotFound, also where the extension is unknown.
  pub set_content_by_file_path-IsServed :
      (ext file : Option Text) (r : HttpResponse)
      → IsServed ext file r (set_content_by_file_path compress_gzip compress_deflate ext file r)
  unfolding set_content_by_file_path
  set_content_by_file_path-IsServed ext file r = elim (Option-cases (type_of_file ext)) [
    | inl e ↦ rw (e, set_content_by_file_path) refl
    | inr (t, e) ↦ go file t e
  ]
    where
      go :
          (file : Option Text) (t : ContentType)
          → type_of_file ext ≡ some t
          → IsServed ext file r (set_content_by_file_path compress_gzip compress_deflate ext file r)
      go none t e = rw (e, set_content_by_file_path) refl
      go (some bytes) t e =
          rw (e, set_content_by_file_path)
            (set_file-IsServed ext t e r (select_encode_type ext r) bytes)
