-- ===== src/Strings/Strip.antt =====
-- `strip` of include/base/StringHelper.h, which narrows a window from both ends at once.
use simple_tcp.Prelude.{
  ℕ, zero, suc, ◌+◌, ◌-◌, ◌≤◌, ◌<◌, ◌≡◌, refl, sym, ap, ap₂, subst, ◌∙◌, inl, inr, Bool, true,
  false, not, ◌&&◌, [], ◌∷◌, ◌++◌, some, Option, arith, ◌==◌, lt→ltb, le→ltb, Bool-cases, length,
  get_elem?, if◌then◌else◌, append_assoc, append-nil, length-append, leb, take-append, drop-append,
}
use simple_tcp.Strings.{Text, is_space, strip_loop, cut_out, strip}

-- The text without the spaces at its end, and at its start.
abbrev pub trim_end : Text → Text
trim_end [] = []
trim_end (x ∷ s) = elim (trim_end s) [ [] ↦ if x == 32 then [] else x ∷ [] | y ∷ r ↦ x ∷ y ∷ r ]

abbrev pub trim_start : Text → Text
trim_start [] = []
trim_start (x ∷ s) = let rest = trim_start s in if x == 32 then rest else x ∷ s

abbrev pub trim : Text → Text
trim s = trim_start (trim_end s)

trim_end-space : (s : Text) (y : ℕ) → (y == 32) ≡ true → trim_end (s ++ y ∷ []) ≡ trim_end s
trim_end-space [] y h = ground (arith, h)
trim_end-space (x ∷ s) y h = rw (trim_end-space s y h) refl

trim_end-other : (s : Text) (y : ℕ) → (y == 32) ≡ false → trim_end (s ++ y ∷ []) ≡ s ++ y ∷ []
trim_end-other [] y h = ground (arith, h)
trim_end-other (x ∷ []) y h = ground (arith, h)
trim_end-other (x ∷ z ∷ s) y h = rw (trim_end-other (z ∷ s) y h) refl

pub trim-space : (x : ℕ) (s : Text) → (x == 32) ≡ true → trim (x ∷ s) ≡ trim s
trim-space x s h = go (trim_end s) refl
  where
    go : (t : Text) → trim_end s ≡ t → trim (x ∷ s) ≡ trim s
    go [] e = ground (arith, h, e)
    go (y ∷ r) e = ground (arith, h, e)

pub trim-space_end : (s : Text) (y : ℕ) → (y == 32) ≡ true → trim (s ++ y ∷ []) ≡ trim s
trim-space_end s y h = ap trim_start (trim_end-space s y h)

trim-single : (x : ℕ) → trim (x ∷ []) ≡ (if x == 32 then [] else x ∷ [])
trim-single x = ground arith

pub trim-kept :
    (x y : ℕ) (m : Text)
    → (x == 32) ≡ false
    → (y == 32) ≡ false
    → trim (x ∷ (m ++ y ∷ [])) ≡ x ∷ (m ++ y ∷ [])
trim-kept x y m h k = rw (trim_end-other (x ∷ m) y k) (ground (arith, h))

-- A text in two parts or more has a first byte, a middle and a last one.
abbrev Ends : Text → Type 0
Ends w = (m : Text) × (y : ℕ) × (w ≡ m ++ y ∷ [])

ends : (x : ℕ) (s : Text) → Ends (x ∷ s)
ends x [] = ([], x, refl)
ends x (z ∷ s) = let e = ends z s in (x ∷ e.0, e.1, ap (λ t. x ∷ t) e.2)

-- The window from `start` to `end` of `s` holds `w`.
record Window (s : Text) (start end : ℕ) (w : Text) : Type 0 where
  before : Text
  behind : Text
  splits : s ≡ before ++ (w ++ behind)
  starts : length before ≡ start
  ends_at : start + length w ≡ end

length_snoc : (m : Text) (y : ℕ) → length (m ++ y ∷ []) ≡ suc (length m)
length_snoc m y = omega (arith, length-append m (y ∷ []))

get_elem?-append : (a : Text) (x : ℕ) (b : Text) → get_elem? (a ++ x ∷ b) (length a) ≡ some x
get_elem?-append [] x b = refl
get_elem?-append (z ∷ a) x b = get_elem?-append a x b

is_space_at : (s a b : Text) (x i : ℕ) → s ≡ a ++ x ∷ b → length a ≡ i → is_space s i ≡ (x == 32)
is_space_at s a b x i e f = rw (e, sym f, get_elem?-append a x b, is_space) refl

module _ {s : Text} {start end : ℕ} where
  first_byte : (x : ℕ) (w : Text) → Window s start end (x ∷ w) → is_space s start ≡ (x == 32)
  first_byte x w v = is_space_at s v.before (w ++ v.behind) x start v.splits v.starts

  last_byte :
      (m : Text) (y : ℕ) → Window s start end (m ++ y ∷ []) → is_space s (end - 1) ≡ (y == 32)
  last_byte m y v =
      is_space_at s (v.before ++ m) v.behind y (end - 1) (v.splits ∙ simp (append_assoc))
        (omega (arith, v.starts, v.ends_at, length_snoc m y, length-append v.before m))

  narrow : (x : ℕ) (w : Text) → Window s start end (x ∷ w) → Window s (start + 1) end w
  narrow x w v = record {
    before = v.before ++ x ∷ [];
    behind = v.behind;
    splits = v.splits ∙ simp (append_assoc);
    starts = omega (arith, v.starts, length_snoc v.before x);
    ends_at = omega (arith, v.ends_at);
  }

  narrow_end : (m : Text) (y : ℕ) → Window s start end (m ++ y ∷ []) → Window s start (end - 1) m
  narrow_end m y v = record {
    before = v.before;
    behind = y ∷ v.behind;
    splits = v.splits ∙ simp (append_assoc);
    starts = v.starts;
    ends_at = omega (arith, v.ends_at, length_snoc m y);
  }

  seen : (w : Text) → Window s start end w → cut_out s (start, end) ≡ w
  seen [] v = let none_left : end ≤ start = omega (arith, v.ends_at) in ground (arith, none_left)
  seen (x ∷ w) v =
      let some_left : leb end start ≡ false = ground (arith, v.ends_at) in
      let width : end - start ≡ length (x ∷ w) = omega (arith, v.ends_at) in
      rw (some_left, width, v.splits, sym v.starts, drop-append, take-append) refl

abbrev Found : Text → Text → Option (ℕ × ℕ) → Type 0
Found s w r = (r' : ℕ × ℕ) × (r ≡ some r') × (cut_out s r' ≡ trim w)

module _ (s : Text) where
  -- one round of the loop, for what it sees at the two ends
  abbrev after_look : ℕ → ℕ → ℕ → Bool → Bool → Option (ℕ × ℕ)
  after_look fuel start end b c = elim (not b && not c) [
    | true ↦ some (start, end)
    | false ↦ strip_loop fuel s (if b then start + 1 else start) (if c then end - 1 else end)
  ]

  round :
      (fuel start end : ℕ) (b c : Bool)
      → start < end
      → is_space s start ≡ b
      → is_space s (end - 1) ≡ c
      → strip_loop (suc fuel) s start end ≡ after_look fuel start end b c
  unfolding strip_loop
  round fuel start end b c h e f =
      rw (lt→ltb start end h, strip_loop) (ap₂ (after_look fuel start end) e f)

  shut : (fuel start end : ℕ) → end ≤ start → strip_loop (suc fuel) s start end ≡ some (start, end)
  unfolding strip_loop
  shut fuel start end h = rw (le→ltb start end h, strip_loop) refl

  crossed : (start end : ℕ) → end ≤ start → cut_out s (start, end) ≡ []
  crossed start end h = ground (arith, h)

  strip_loop-Found :
      (fuel start end : ℕ) (w : Text)
      → length w + 1 < fuel
      → Window s start end w
      → Found s w (strip_loop fuel s start end)
  strip_loop-Found zero start end w f v = absurd (omega arith)
  strip_loop-Found (suc fuel) start end [] f v =
      let none_left : end ≤ start = omega (arith, v.ends_at) in
      ((start, end), shut fuel start end none_left, crossed start end none_left)
  strip_loop-Found (suc zero) start end (x ∷ w) f v = absurd (omega arith)
  strip_loop-Found (suc (suc fuel)) start end (x ∷ []) f v = elim (Bool-cases (x == 32)) [
    | inl e ↦ (
      (start + 1, end - 1),
      round (suc fuel) start end true true (omega (arith, v.ends_at)) (first_byte x [] v ∙ e)
            (last_byte [] x v ∙ e)
          ∙ shut fuel (start + 1) (end - 1) (omega (arith, v.ends_at)),
      crossed (start + 1) (end - 1) (omega (arith, v.ends_at)) ∙ sym (rw (trim-single x, e) refl),
    )
    | inr e ↦ (
      (start, end),
      round (suc fuel) start end false false (omega (arith, v.ends_at)) (first_byte x [] v ∙ e)
          (last_byte [] x v ∙ e),
      seen (x ∷ []) v ∙ sym (rw (trim-single x, e) refl),
    )
  ]
  strip_loop-Found (suc (suc fuel)) start end (x ∷ z ∷ w) f v =
      let e = ends z w in
      let size : length (z ∷ w) ≡ suc (length e.0) = ap length e.2 ∙ length_snoc e.0 e.1 in
      let v' : Window s start end ((x ∷ e.0) ++ e.1 ∷ []) =
        subst (λ t. Window s start end (x ∷ t)) e.2 v in
      let same : trim (x ∷ z ∷ w) ≡ trim (x ∷ (e.0 ++ e.1 ∷ [])) = ap (λ t. trim (x ∷ t)) e.2 in
      let at : (b c : Bool)
          → (x == 32) ≡ b
          → (e.1 == 32) ≡ c
          → strip_loop (suc (suc fuel)) s start end ≡ after_look (suc fuel) start end b c =
        λ b c g h.
          round (suc fuel) start end b c (omega (arith, v.ends_at)) (first_byte x (z ∷ w) v ∙ g)
            (last_byte (x ∷ e.0) e.1 v' ∙ h) in
      elim (Bool-cases (x == 32)) [
        | inl g ↦ elim (Bool-cases (e.1 == 32)) [
          | inl h ↦
              let r =
                strip_loop-Found (suc fuel) (start + 1) (end - 1) e.0 (omega (arith, size))
                  (narrow_end e.0 e.1 (narrow x (e.0 ++ e.1 ∷ []) v')) in
              (
                r.0,
                at true true g h ∙ r.1,
                r.2 ∙ sym (same ∙ trim-space x (e.0 ++ e.1 ∷ []) g ∙ trim-space_end e.0 e.1 h),
              )
          | inr h ↦
              let r =
                strip_loop-Found (suc fuel) (start + 1) end (z ∷ w) (omega (arith, size))
                  (narrow x (z ∷ w) v) in
              (r.0, at true false g h ∙ r.1, r.2 ∙ sym (trim-space x (z ∷ w) g))
        ]
        | inr g ↦ elim (Bool-cases (e.1 == 32)) [
          | inl h ↦
              let r =
                strip_loop-Found (suc fuel) start (end - 1) (x ∷ e.0) (omega (arith, size))
                  (narrow_end (x ∷ e.0) e.1 v') in
              (r.0, at false true g h ∙ r.1, r.2 ∙ sym (same ∙ trim-space_end (x ∷ e.0) e.1 h))
          | inr h ↦ (
            (start, end),
            at false false g h,
            seen (x ∷ z ∷ w) v ∙ ap (λ t. x ∷ t) e.2 ∙ sym (same ∙ trim-kept x e.1 e.0 g h),
          )
        ]
      ]

-- strip takes exactly the spaces at both ends off, whatever the text, within its length in rounds.
pub strip_lem : (s : Text) → strip s ≡ some (trim s)
unfolding strip
strip_lem s =
    let r = strip_loop-Found s (suc (suc (length s))) 0 (length s) s (omega arith) (record {
      before = [];
      behind = [];
      splits = sym (append-nil s);
      starts = refl;
      ends_at = omega arith;
    }) in
    rw (r.1, r.2, strip) refl
