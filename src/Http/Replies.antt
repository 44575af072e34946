-- ===== src/Http/Replies.antt =====
-- What generateResponse announces, when it refuses, and responses that are made from files.
use simple_tcp.Prelude.{
  ◌≤◌, ◌≡◌, refl, ap, ◌∙◌, ◌⊎◌, inl, inr, Bool, true, false, Bool-cases, some, if◌then◌else◌, arith,
  pos, ◌-ℤ◌, ◌==ℤ◌, is_negative, to_string, fits_int64, ltb, ltb→le, ◌||◌,
}
use simple_tcp.Strings.{Text, text, same_text, c_string}
use simple_tcp.Http.Common.{is_unknown_version, is_unknown_status, is_unknown_content, to_unsigned}
use simple_tcp.Http.{
  Headers, get_property, set_property, HttpResponse, Result, ok, error, undefined,
  validate_response,
}
use simple_tcp.Http.Headers.{get_property-set_property}
use simple_tcp.Http.Values.{c_string-to_string, c_string-type_value, c_string-keep}
use simple_tcp.Http.Generate.{
  describe, check_range, connect, final_headers, type_value, range_value,
}

-- What a response needs so that it can be sent.
pub record IsValid (r : HttpResponse) : Type 0 where
  pub version : is_unknown_version r.version ≡ false
  pub status : is_unknown_status r.status ≡ false
  pub sized : (is_negative r.content_length ≡ false) ⊎ (300 ≤ to_unsigned r.status)
  pub range :
      ((r.content_range.total ==ℤ pos 0) ≡ true)
      ⊎ ((r.content_range.end -ℤ r.content_range.start ==ℤ r.content_length) ≡ true)

validate_response-IsValid :
    (r : HttpResponse)
    → validate_response r ≡ ok tt
    → (is_unknown_version r.version ≡ false)
      × (is_unknown_status r.status ≡ false)
      × ((is_negative r.content_length ≡ false) ⊎ (300 ≤ to_unsigned r.status))
unfolding validate_response
validate_response-IsValid r e = elim (Bool-cases (is_unknown_version r.version)) [
  | inl v ↦ absurd (ground (arith, v, e))
  | inr v ↦ elim (Bool-cases (is_unknown_status r.status)) [
    | inl s ↦ absurd (ground (arith, v, s, e))
    | inr s ↦ elim (Bool-cases (ltb (to_unsigned r.status) 300)) [
      | inr l ↦ (v, s, inr (ltb→le (to_unsigned r.status) 300 l))
      | inl l ↦ elim (Bool-cases (is_negative r.content_length)) [
        | inl n ↦ absurd (ground (arith, v, s, l, n, e))
        | inr n ↦ (v, s, inl n)
      ]
    ]
  ]
]

check_range-IsValid :
    (r : HttpResponse) (hs hs' : Headers)
    → check_range r hs ≡ ok hs'
    → ((r.content_range.total ==ℤ pos 0) ≡ true)
      ⊎ ((r.content_range.end -ℤ r.content_range.start ==ℤ r.content_length) ≡ true)
unfolding check_range
check_range-IsValid r hs hs' e = elim (Bool-cases (r.content_range.total ==ℤ pos 0)) [
  | inl t ↦ inl t
  | inr t ↦ elim (Bool-cases (r.content_range.end -ℤ r.content_range.start ==ℤ r.content_length)) [
    | inl w ↦ inr w
    | inr w ↦ elim (Bool-cases (fits_int64 (r.content_range.end -ℤ r.content_range.start))) [
      | inl f ↦ absurd (ground (arith, t, w, f, e))
      | inr f ↦ absurd (ground (arith, t, w, f, e))
    ]
  ]
]

-- What the check of the range leaves: the headers, with one for the range where there is a range.
check_range_cases :
    (r : HttpResponse) (hs hs' : Headers)
    → check_range r hs ≡ ok hs'
    → (hs' ≡ hs) ⊎ (hs' ≡ set_property (text "Content-Range") (range_value r.content_range) hs)
unfolding check_range
check_range_cases r hs hs' e = elim (Bool-cases (r.content_range.total ==ℤ pos 0)) [
  | inl t ↦ inl (ground (arith, t, e))
  | inr t ↦ elim (Bool-cases (r.content_range.end -ℤ r.content_range.start ==ℤ r.content_length)) [
    | inr w ↦ elim (Bool-cases (fits_int64 (r.content_range.end -ℤ r.content_range.start))) [
      | inl f ↦ absurd (ground (arith, t, w, f, e))
      | inr f ↦ absurd (ground (arith, t, w, f, e))
    ]
    | inl w ↦ elim (Bool-cases (fits_int64 (r.content_range.end -ℤ r.content_range.start))) [
      | inl f ↦ inr (ground (arith, t, w, f, e))
      | inr f ↦ absurd (ground (arith, t, w, f, e))
    ]
  ]
]

set_other :
    (k j v : Text) (hs : Headers)
    → same_text (c_string k) j ≡ false
    → get_property j (set_property k v hs) ≡ get_property j hs
set_other k j v hs h = get_property-set_property k j v hs ∙ rw h refl

check_range_other :
    (r : HttpResponse) (hs hs' : Headers) (j : Text)
    → check_range r hs ≡ ok hs'
    → same_text (text "Content-Range") j ≡ false
    → get_property j hs' ≡ get_property j hs
check_range_other r hs hs' j e h = elim (check_range_cases r hs hs' e) [
  | inl f ↦ ap (get_property j) f
  | inr f ↦
      ap (get_property j) f ∙ set_other (text "Content-Range") j (range_value r.content_range) hs h
]

final_headers_inv :
    (r : HttpResponse) (hs : Headers)
    → final_headers r ≡ ok hs
    → (mid : Headers) × (validate_response r ≡ ok tt)
      × (check_range r (describe r) ≡ ok mid)
      × (hs ≡ connect r mid)
unfolding final_headers
final_headers_inv r hs e = go (validate_response r) (check_range r (describe r)) refl refl
  where
    go :
        (a : Result (Unit {0})) (b : Result Headers)
        → validate_response r ≡ a
        → check_range r (describe r) ≡ b
        → (mid : Headers) × (validate_response r ≡ ok tt)
          × (check_range r (describe r) ≡ ok mid)
          × (hs ≡ connect r mid)
    go (ok u) (ok mid) f g = (mid, f, g, ground (arith, f, g, e))
    go (ok u) (error x) f g = absurd (ground (arith, f, g, e))
    go (ok u) undefined f g = absurd (ground (arith, f, g, e))
    go (error x) b f g = absurd (ground (arith, f, e))
    go undefined b f g = absurd (ground (arith, f, e))

-- The keys that generateResponse sets itself.
abbrev pub is_own : Text → Bool
is_own k =
    same_text (text "Content-Type") k
    || (same_text (text "Content-Length") k
        || (same_text (text "Content-Range") k || same_text (text "Connection") k))

-- What the headers announce.
pub record Announced (r : HttpResponse) (k : Text) (hs : Headers) : Type 0 where
  pub valid : IsValid r
  pub length_is : get_property (text "Content-Length") hs ≡ some (to_string r.content_length)
  pub connection :
      get_property (text "Connection") hs
      ≡ some (if r.keep_alive then text "keep-alive" else text "close")
  pub typed :
      (is_unknown_content r.content_type ≡ true)
      ⊎ (get_property (text "Content-Type") hs ≡ some (type_value r))
  pub other : get_property k hs ≡ get_property k r.headers

describe-typed :
    (r : HttpResponse)
    → (is_unknown_content r.content_type ≡ true)
      ⊎ (get_property (text "Content-Type") (describe r) ≡ some (type_value r))
unfolding describe
describe-typed r = elim (Bool-cases (is_unknown_content r.content_type)) [
  | inl e ↦ inl e
  | inr e ↦ inr (
      set_other (text "Content-Length") (text "Content-Type") (to_string r.content_length) _ refl
      ∙ rw (e) (
          get_property-set_property (text "Content-Type") (text "Content-Type") (type_value r)
            r.headers
          ∙ ap some (c_string-type_value r)))
]

describe-other :
    (r : HttpResponse) (k : Text)
    → is_own k ≡ false
    → get_property k (describe r) ≡ get_property k r.headers
unfolding describe
describe-other r k h = elim (Bool-cases (is_unknown_content r.content_type)) [
  | inl e ↦
      set_other (text "Content-Length") k (to_string r.content_length) _ (ground (arith, h))
      ∙ rw e refl
  | inr e ↦
      set_other (text "Content-Length") k (to_string r.content_length) _ (ground (arith, h))
      ∙ rw e (set_other (text "Content-Type") k (type_value r) r.headers (ground (arith, h)))
]

-- Where generateResponse gets as far as its headers: the version and the status are set, a length is
-- set unless the status is 300 or more, and a range is as long as the content; the headers give the
-- length, the type if it is set, and whether the connection is kept; and any other header is as it
-- was set.
pub final_headers-Announced :
    (r : HttpResponse) (k : Text) {hs : Headers}
    → final_headers r ≡ ok hs
    → is_own k ≡ false
    → Announced r k hs
unfolding connect describe
final_headers-Announced r k {hs} e h =
    let (mid, f, g, last) = final_headers_inv r hs e in
    let v = validate_response-IsValid r f in
    let keep = if r.keep_alive then text "keep-alive" else text "close" in
    let past : (j : Text)
        → same_text (text "Content-Range") j ≡ false
        → same_text (text "Connection") j ≡ false
        → get_property j hs ≡ get_property j (describe r) =
      λ j a b.
        ap (get_property j) last
        ∙ set_other (text "Connection") j keep mid b
        ∙ check_range_other r (describe r) mid j g a in
    record {
      valid = record {
        version = v.0;
        status = v.1;
        sized = v.2;
        range = check_range-IsValid r (describe r) mid g;
      };
      length_is =
          past (text "Content-Length") refl refl
          ∙ get_property-set_property (text "Content-Length") (text "Content-Length")
              (to_string r.content_length) _
          ∙ ap some (c_string-to_string r.content_length);
      connection =
          ap (get_property (text "Connection")) last
          ∙ get_property-set_property (text "Connection") (text "Connection") keep mid
          ∙ ap some (c_string-keep r.keep_alive);
      typed = elim (describe-typed r) [
        | inl u ↦ inl u
        | inr t ↦ inr (past (text "Content-Type") refl refl ∙ t)
      ];
      other = past k (ground (arith, h)) (ground (arith, h)) ∙ describe-other r k h;
    }
