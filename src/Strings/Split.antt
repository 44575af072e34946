-- ===== src/Strings/Split.antt =====
-- `split` of include/base/StringHelper.h.
use simple_tcp.Prelude.{
  ℕ, zero, suc, ◌≤◌, ◌<◌, ◌≡◌, refl, ap, ◌∙◌, true, false, List, [], ◌∷◌, ◌++◌, Option, some, none,
  arith, ◌==◌, ==_self, Bool-cases, Option-cases, inl, inr, member, length, take, drop, length-drop,
  length-append, take-append, drop-append, append_assoc,
}
use simple_tcp.Strings.{Text, find, next, skip_any, c_string, split_loop, first_end, split}
use simple_tcp.Strings.Find.{find-append, find-lacking}

-- What is left starts with a byte that is not one of the token's.
abbrev Begins : Text → Option Text → Type 0
Begins token none = Unit {0}
Begins token (some []) = true ≡ false
Begins token (some (x ∷ s)) = member x token ≡ false

abbrev left : Option Text → ℕ
left none = 0
left (some s) = length s

skip_any-Begins : (token s : Text) → Begins token (skip_any token s)
skip_any-Begins token [] = tt
skip_any-Begins token (x ∷ s) = elim (Bool-cases (member x token)) [
  | inl h ↦ rw h (skip_any-Begins token s)
  | inr h ↦ rw h h
]

left-skip_any : (token s : Text) → left (skip_any token s) ≤ length s
left-skip_any token [] = omega arith
left-skip_any token (x ∷ s) = elim (Bool-cases (member x token)) [
  | inl h ↦ rw h (omega (arith, left-skip_any token s))
  | inr h ↦ rw h (omega arith)
]

Begins-find :
    (t : ℕ) (token : Text) (x : ℕ) (s : Text) (n : ℕ)
    → member x (t ∷ token) ≡ false
    → find (t ∷ token) (x ∷ s) ≡ some n
    → 1 ≤ n
Begins-find t token x s n h e = go (next (find (t ∷ token) s)) refl
  where
    other : (x == t) ≡ false
    other = ground (arith, h)

    go : (o : Option ℕ) → next (find (t ∷ token) s) ≡ o → 1 ≤ n
    go none f = absurd (ground (arith, other, f, e))
    go (some zero) f = absurd (ground (arith, f))
    go (some (suc k)) f = ground (arith, other, f, e)

split_loop-ends :
    (fuel t : ℕ) (token : Text) (start : Option Text)
    → left start < fuel
    → Begins (t ∷ token) start
    → (ws : List Text) × (split_loop fuel (t ∷ token) start ≡ some ws)
unfolding split_loop
split_loop-ends zero t token start f b = absurd (omega arith)
split_loop-ends (suc fuel) t token none f b = ([], refl)
split_loop-ends (suc fuel) t token (some []) f b = absurd (cc b)
split_loop-ends (suc fuel) t token (some (x ∷ s)) f b =
    elim (Option-cases (find (t ∷ token) (x ∷ s))) [
      | inl e ↦ ([], rw (e, split_loop) refl)
      | inr (n, e) ↦
          let more =
            split_loop-ends fuel t token (skip_any (t ∷ token) (drop n (x ∷ s)))
              (omega (
                arith,
                left-skip_any (t ∷ token) (drop n (x ∷ s)),
                length-drop n (x ∷ s),
                Begins-find t token x s n b e,
              ))
              (skip_any-Begins (t ∷ token) (drop n (x ∷ s))) in
          (take n (x ∷ s) ∷ more.0, rw (e, more.1, split_loop) refl)
    ]

-- split ends, whatever the text and what stands behind it, where the token is not empty.
pub split-ends :
    (behind str : Text) (t : ℕ) (token : Text)
    → (ws : List Text) × (split behind str (t ∷ token) ≡ some ws)
unfolding split
split-ends behind str t token =
    elim (Option-cases (first_end (t ∷ token) (skip_any (t ∷ token) str))) [
      | inl e ↦ (c_string (str ++ behind) ∷ [], rw (e, split) refl)
      | inr (n, e) ↦
          let r =
            split_loop-ends (suc (length str)) t token (skip_any (t ∷ token) str)
              (omega (arith, left-skip_any (t ∷ token) str)) (skip_any-Begins (t ∷ token) str) in
          (r.0, rw (e, r.1, split) refl)
    ]

-- Each word with the separator behind it.
abbrev pub terminated : ℕ → List Text → Text
terminated c [] = []
terminated c (w ∷ ws) = w ++ c ∷ terminated c ws

-- Words that are not empty and lack the separator.
pub data AreWords (c : ℕ) : List Text → Type 0 where
  no_words : AreWords c []
  more_words :
      {x : ℕ} {w : Text} {ws : List Text}
      → member c (x ∷ w) ≡ false
      → AreWords c ws
      → AreWords c ((x ∷ w) ∷ ws)

member-flip : (c x : ℕ) (w : Text) → member c (x ∷ w) ≡ false → member x (c ∷ []) ≡ false
member-flip c x w h = ground (arith, h)

skip_any-word :
    (c x : ℕ) (w s : Text)
    → member c (x ∷ w) ≡ false
    → skip_any (c ∷ []) (x ∷ (w ++ s)) ≡ some (x ∷ (w ++ s))
skip_any-word c x w s h = rw (member-flip c x w h) refl

skip_any_self : (c : ℕ) (s : Text) → skip_any (c ∷ []) (c ∷ s) ≡ skip_any (c ∷ []) s
skip_any_self c s = ground (arith, ==_self c)

split_loop-lacking :
    (fuel c : ℕ) (s : Text)
    → member c s ≡ false
    → split_loop (suc fuel) (c ∷ []) (skip_any (c ∷ []) s) ≡ some []
unfolding split_loop
split_loop-lacking fuel c [] h = refl
split_loop-lacking fuel c (x ∷ s) h =
    rw (member-flip c x s h, find-lacking c (x ∷ s) h, split_loop) refl

split_loop-words :
    (c : ℕ) (ws : List Text) (last : Text) (fuel : ℕ)
    → AreWords c ws
    → member c last ≡ false
    → length ws < fuel
    → split_loop fuel (c ∷ []) (skip_any (c ∷ []) (terminated c ws ++ last)) ≡ some ws
unfolding split_loop
split_loop-words c ws last zero d h f = absurd (omega arith)
split_loop-words c [] last (suc fuel) d h f = split_loop-lacking fuel c last h
split_loop-words c ([] ∷ ws) last (suc fuel) d h f = elim d [ ]
split_loop-words c ((x ∷ w) ∷ ws) last (suc fuel) (more_words k d) h f =
    let rest = terminated c ws ++ last in
    let found : find (c ∷ []) (x ∷ (w ++ c ∷ rest)) ≡ some (suc (length w)) =
      find-append c [] (x ∷ w) rest k in
    let later : split_loop fuel (c ∷ []) (skip_any (c ∷ []) (c ∷ rest)) ≡ some ws =
      ap (split_loop fuel (c ∷ [])) (skip_any_self c rest)
      ∙ split_loop-words c ws last fuel d h (omega arith) in
    rw
      (
        append_assoc w (c ∷ terminated c ws) last,
        skip_any-word c x w (c ∷ rest) k,
        found,
        take-append w (c ∷ rest),
        drop-append w (c ∷ rest),
        later,
        split_loop,
      )
      refl

length-terminated : (c : ℕ) (ws : List Text) → length ws ≤ length (terminated c ws)
length-terminated c [] = omega arith
length-terminated c (w ∷ ws) =
    omega (arith, length-append w (c ∷ terminated c ws), length-terminated c ws)

first_end-lacking :
    (c : ℕ) (s : Text) → member c s ≡ false → first_end (c ∷ []) (skip_any (c ∷ []) s) ≡ none
first_end-lacking c [] h = refl
first_end-lacking c (x ∷ s) h = rw (member-flip c x s h, find-lacking c (x ∷ s) h) refl

-- Of words that are followed by a separator each, split gives exactly these, in order; what stands
-- behind the last separator is dropped. Where there is no separator it gives what the pointer to
-- the text stands for.
pub split_lem :
    (behind : Text) (c : ℕ) (w : Text) (ws : List Text) (last : Text)
    → AreWords c (w ∷ ws)
    → member c last ≡ false
    → (split behind (terminated c (w ∷ ws) ++ last) (c ∷ []) ≡ some (w ∷ ws))
      × (split behind last (c ∷ []) ≡ some (c_string (last ++ behind) ∷ []))
unfolding split
split_lem behind c [] ws last d h = elim d [ ]
split_lem behind c (x ∷ w) ws last (more_words k d) h =
    let rest = terminated c ws ++ last in
    let found : find (c ∷ []) (x ∷ (w ++ c ∷ rest)) ≡ some (suc (length w)) =
      find-append c [] (x ∷ w) rest k in
    let enough : length ((x ∷ w) ∷ ws) < suc (length (terminated c ((x ∷ w) ∷ ws) ++ last)) =
      omega (
        arith,
        length-terminated c ((x ∷ w) ∷ ws),
        length-append (terminated c ((x ∷ w) ∷ ws)) last,
      ) in
    let whole =
      split_loop-words c ((x ∷ w) ∷ ws) last (suc (length (terminated c ((x ∷ w) ∷ ws) ++ last)))
        (more_words k d) h enough in
    let first : skip_any (c ∷ []) (terminated c ((x ∷ w) ∷ ws) ++ last)
        ≡ some (x ∷ (w ++ c ∷ rest)) =
      rw (append_assoc w (c ∷ terminated c ws) last) (skip_any-word c x w (c ∷ rest) k) in
    (
      rw (ap (first_end (c ∷ [])) first ∙ found, split) whole,
      rw (first_end-lacking c last h, split) refl,
    )
