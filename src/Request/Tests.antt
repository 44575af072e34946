-- ===== src/Request/Tests.antt =====
-- Runs of the parser, and its theorems at small packets.
use simple_tcp.Prelude.{
  ◌≡◌, ◌≢◌, refl, inl, [], ◌∷◌, ◌++◌, none, arith, length, pos, negsuc, to_string,
}
use simple_tcp.Strings.{Text, text, crlf, split_loop, split}
use simple_tcp.Http.Common.{get, post, content_text}
use simple_tcp.Http.{Headers, get_property}
use simple_tcp.Request.Results.{ok, refused, threw, hang, bad_request, partial_packet}
use simple_tcp.Request.Record.{HttpRequest, fresh}
use simple_tcp.Request.Scan.{number, from_chars, match_bytes, match_range, stoll, bounds, ranges}
use simple_tcp.Request.Settings.{set_ranges, to_content_type}
use simple_tcp.Request.{parse_http_request}
use simple_tcp.Request.Sound.{Sound, parse_http_request-Sound, parse_http_request-ends}
use simple_tcp.Request.Print.{IsUrl, start_line}
use simple_tcp.Request.Lines.{AreHeaders, no_headers, more_headers}
use simple_tcp.Request.RoundTrip.{print}
use simple_tcp.Request.Decimal.{from_chars-to_string}
use simple_tcp.Request.Accepted.{Announces, complete_post, Delivered, parse_http_request-Delivered}
use simple_tcp.Request.Refused.{
  other_length, parse_http_request-partial, parse_http_request-headerless,
}

abbrev with_range : Text → HttpRequest
with_range v = record fresh { headers = (text "Range", v) ∷ [] }

-- The last 500 bytes are asked for, and the first 501 are what is understood.
suffix_range :
    set_ranges (with_range (text "bytes=-500"))
    ≡ ok (record (with_range (text "bytes=-500")) { ranges = (pos 0, pos 500) ∷ [] })
unfolding set_ranges match_bytes split split_loop ranges match_range bounds stoll get_property
suffix_range = refl

second_range_is_lost :
    set_ranges (with_range (text "bytes=0-1,5-6"))
    ≡ ok (record (with_range (text "bytes=0-1,5-6")) { ranges = (pos 0, pos 1) ∷ [] })
unfolding set_ranges match_bytes split split_loop ranges match_range bounds stoll get_property
second_range_is_lost = refl

large_range_throws : set_ranges (with_range (text "bytes=9223372036854775808-")) ≡ threw
unfolding set_ranges match_bytes split split_loop ranges match_range bounds stoll get_property
large_range_throws = refl

abbrev sample_headers : Headers
sample_headers = (text "Content-Length", text "3") ∷ []

abbrev packet : Text
packet =
    print post (text "form") ((text "Content-Type", text "text/html") ∷ sample_headers) (text "a=1")

are_headers : AreHeaders [] ((text "Content-Type", text "text/html") ∷ sample_headers)
unfolding get_property
are_headers =
    more_headers refl refl refl refl refl (more_headers refl refl refl refl refl no_headers)

is_url : IsUrl (text "form")
is_url = record {
  trimmed = refl;
  no_query = refl;
  no_return = refl;
  no_version = refl;
  no_get = refl;
}

announces : Announces ((text "Content-Type", text "text/html") ∷ sample_headers) 3
unfolding get_property to_content_type to_string content_text
announces = record {
  type_text = text "text/html";
  typed = refl;
  known = refl;
  sized = refl;
  small = refl;
}

no_range :
    get_property (text "Range") ((text "Content-Type", text "text/html") ∷ sample_headers) ≡ none
unfolding get_property
no_range = refl

parse_http_request-Delivered_example :
    (r : HttpRequest) × (parse_http_request packet ≡ ok r)
    × Delivered post
        (text "form")
        ((text "Content-Type", text "text/html") ∷ sample_headers)
        (text "a=1")
        (length packet)
        r
parse_http_request-Delivered_example =
    parse_http_request-Delivered post (text "form") (text "Content-Type", text "text/html")
      sample_headers (text "a=1") is_url are_headers no_range (complete_post announces)

parse_http_request-Sound_example : Sound packet (parse_http_request-Delivered_example.0)
parse_http_request-Sound_example =
    parse_http_request-Sound packet (parse_http_request-Delivered_example.1)

parse_http_request-ends_example : parse_http_request packet ≢ hang
parse_http_request-ends_example = parse_http_request-ends packet

minus_is_read_back : from_chars (to_string (negsuc 41)) ≡ number (negsuc 41)
minus_is_read_back = from_chars-to_string (negsuc 41) refl

parse_http_request-partial_example :
    parse_http_request (
      print post
        (text "form")
        ((text "Content-Type", text "text/html") ∷ sample_headers)
        (text "a="))
    ≡ refused partial_packet
parse_http_request-partial_example =
    parse_http_request-partial (text "form") (text "Content-Type", text "text/html") sample_headers
      (text "a=") is_url are_headers no_range (other_length announces (λ e. absurd (omega arith)))

headerless_is_refused :
    parse_http_request (start_line get (text "form") ++ (crlf ++ crlf)) ≡ refused bad_request
headerless_is_refused = parse_http_request-headerless get (text "form") (inl refl) is_url
