-- ===== src/Strings/Find.antt =====
-- The searches of std::string_view.
use simple_tcp.Prelude.{
  ℕ, suc, ◌+◌, ◌≡◌, refl, sym, ap, ap₂, subst, ◌∙◌, Option-cases, drop_cong, drop-suc, true, false,
  ◌&&◌, [], ◌∷◌, ◌++◌, some, none, arith, ◌==◌, ==→eq, ==_self, Bool-cases, inl, inr, member,
  length, take, drop,
}
use simple_tcp.Strings.{Text, same_text, starts_with, find}

pub same_text→eq : (s t : Text) → same_text s t ≡ true → s ≡ t
same_text→eq [] [] h = refl
same_text→eq [] (y ∷ ys) h = absurd (cc h)
same_text→eq (x ∷ xs) [] h = absurd (cc h)
same_text→eq (x ∷ xs) (y ∷ ys) h =
    let first : (x == y) ≡ true = ground arith in
    let rest : same_text xs ys ≡ true = ground arith in
    ap₂ (λ z zs. z ∷ zs) (==→eq x y first) (same_text→eq xs ys rest)

pub same_text_self : (s : Text) → same_text s s ≡ true
same_text_self [] = refl
same_text_self (x ∷ xs) = ground (arith, ==_self x, same_text_self xs)

pub starts_with-append : (p s : Text) → starts_with p (p ++ s) ≡ true
starts_with-append [] s = refl
starts_with-append (c ∷ p) s = ground (arith, ==_self c, starts_with-append p s)

-- A pattern is found where it first can be: its first byte does not stand before.
pub find-append :
    (c : ℕ) (p xs ys : Text)
    → member c xs ≡ false
    → find (c ∷ p) (xs ++ c ∷ (p ++ ys)) ≡ some (length xs)
find-append c p [] ys h = ground (arith, ==_self c, starts_with-append p ys)
find-append c p (x ∷ xs) ys h =
    let other : (x == c) ≡ false = ground arith in
    let rest : member c xs ≡ false = ground arith in
    ground (arith, other, find-append c p xs ys rest)

-- A byte that the pattern lacks keeps its occurrences apart.
starts_with_break :
    (c : ℕ) (p xs ys : Text) → member c p ≡ false → starts_with p (xs ++ c ∷ ys) ≡ starts_with p xs
starts_with_break c [] xs ys h = refl
starts_with_break c (d ∷ p) [] ys h = ground arith
starts_with_break c (d ∷ p) (x ∷ xs) ys h =
    let rest : member c p ≡ false = ground arith in
    ap (λ b. x == d && b) (starts_with_break c p xs ys rest)

pub find_break :
    (c d : ℕ) (p xs ys : Text) (n : ℕ)
    → member c (d ∷ p) ≡ false
    → find (d ∷ p) xs ≡ none
    → find (d ∷ p) ys ≡ some n
    → find (d ∷ p) (xs ++ c ∷ ys) ≡ some (length xs + suc n)
find_break c d p [] ys n h e f =
    let other : (c == d) ≡ false = ground arith in ground (arith, other, f)
find_break c d p (x ∷ xs) ys n h e f =
    let shut : starts_with (d ∷ p) (x ∷ xs) ≡ false = ground arith in
    let rest : find (d ∷ p) xs ≡ none = ground arith in
    ground
      (arith, starts_with_break c (d ∷ p) (x ∷ xs) ys h, shut, find_break c d p xs ys n h rest f)

starts_with_lem : (p s : Text) → starts_with p s ≡ true → s ≡ p ++ drop (length p) s
starts_with_lem [] s h = refl
starts_with_lem (c ∷ p) [] h = absurd (cc h)
starts_with_lem (c ∷ p) (x ∷ s) h =
    let same : x ≡ c = ground (arith, h) in
    let rest : starts_with p s ≡ true = ground (arith, h) in
    ap₂ (λ y t. y ∷ t) same (starts_with_lem p s rest)

-- The pattern stands at position `n`.
abbrev Stands : Text → Text → ℕ → Type 0
Stands p s n = s ≡ take n s ++ (p ++ drop (n + length p) s)

Stands-first : (p s : Text) → starts_with p s ≡ true → Stands p s 0
Stands-first p s h =
    starts_with_lem p s h ∙ ap (λ t. p ++ t) (drop_cong s (length p) (0 + length p) (omega arith))

Stands-later : (p : Text) (x : ℕ) (s : Text) (n : ℕ) → Stands p s n → Stands p (x ∷ s) (suc n)
Stands-later p x s n h =
    ap (λ t. x ∷ t) h
    ∙ ap (λ t. x ∷ (take n s ++ (p ++ t)))
        (sym (drop-suc (n + length p) (suc n + length p) x s (omega arith)))

-- A position that find gives is one where the pattern stands.
pub find_lem :
    (p s : Text) (n : ℕ) → find p s ≡ some n → s ≡ take n s ++ (p ++ drop (n + length p) s)
find_lem p [] n h = elim (Bool-cases (starts_with p [])) [
  | inl e ↦ subst (Stands p []) {x = 0} (ground (arith, e, h)) (Stands-first p [] e)
  | inr e ↦ absurd (ground (arith, e, h))
]
find_lem p (x ∷ s) n h = elim (Bool-cases (starts_with p (x ∷ s))) [
  | inl e ↦ subst (Stands p (x ∷ s)) {x = 0} (ground (arith, e, h)) (Stands-first p (x ∷ s) e)
  | inr e ↦ elim (Option-cases (find p s)) [
    | inl f ↦ absurd (ground (arith, e, f, h))
    | inr (k, f) ↦
        subst (Stands p (x ∷ s)) {x = suc k} (ground (arith, e, f, h))
          (Stands-later p x s k (find_lem p s k f))
  ]
]

-- A text that lacks the pattern on both sides of a byte that the pattern lacks, lacks it.
pub find_break_none :
    (c d : ℕ) (p xs ys : Text)
    → member c (d ∷ p) ≡ false
    → find (d ∷ p) xs ≡ none
    → find (d ∷ p) ys ≡ none
    → find (d ∷ p) (xs ++ c ∷ ys) ≡ none
find_break_none c d p [] ys h e f =
    let other : (c == d) ≡ false = ground arith in ground (arith, other, f)
find_break_none c d p (x ∷ xs) ys h e f =
    let shut : starts_with (d ∷ p) (x ∷ xs) ≡ false = ground arith in
    let rest : find (d ∷ p) xs ≡ none = ground arith in
    ground
      (arith, starts_with_break c (d ∷ p) (x ∷ xs) ys h, shut, find_break_none c d p xs ys h rest f)

-- A pattern that stands somewhere is found.
pub find_present : (p xs ys : Text) → (n : ℕ) × (find p (xs ++ (p ++ ys)) ≡ some n)
find_present [] [] [] = (0, refl)
find_present [] [] (y ∷ ys) = (0, refl)
find_present (c ∷ p) [] ys = (0, ground (arith, ==_self c, starts_with-append p ys))
find_present p (x ∷ xs) ys =
    let later = find_present p xs ys in
    elim (Bool-cases (starts_with p (x ∷ (xs ++ (p ++ ys))))) [
      | inl e ↦ (0, rw e refl)
      | inr e ↦ (suc later.0, rw (e, later.1) refl)
    ]

pub find-lacking : (c : ℕ) (s : Text) → member c s ≡ false → find (c ∷ []) s ≡ none
find-lacking c [] h = refl
find-lacking c (x ∷ s) h =
    let other : (x == c) ≡ false = ground arith in
    let rest : member c s ≡ false = ground arith in ground (arith, other, find-lacking c s rest)

pub member-append :
    (c : ℕ) (s t : Text) → member c s ≡ false → member c t ≡ false → member c (s ++ t) ≡ false
member-append c [] t h k = k
member-append c (x ∷ s) t h k =
    let other : (x == c) ≡ false = ground arith in
    let rest : member c s ≡ false = ground arith in
    ground (arith, other, member-append c s t rest k)

-- A pattern is not found before the first place of its first byte.
pub find_beyond :
    (c : ℕ) (p xs ys : Text) (n : ℕ)
    → member c xs ≡ false
    → find (c ∷ p) ys ≡ some n
    → find (c ∷ p) (xs ++ ys) ≡ some (length xs + n)
find_beyond c p [] ys n h e = ground (arith, e)
find_beyond c p (x ∷ xs) ys n h e =
    let other : (x == c) ≡ false = ground arith in
    let rest : member c xs ≡ false = ground arith in
    ground (arith, other, find_beyond c p xs ys n rest e)
