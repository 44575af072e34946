-- ===== src/Prelude/Assoc.antt =====
-- std::unordered_map and std::unordered_set with numbers for keys, as association lists.
use Prim.Native.Nat.{ℕ}
use mathlib.Core.Path.{◌≡◌, refl}
use mathlib.Core.Bool.{Bool, false, ◌||◌}
use mathlib.Core.List.{List, [], ◌∷◌}
use mathlib.Core.Option.{Option, none, some}
use native.Mathlib.Omega.{arith}
use simple_tcp.Prelude.Tests.{◌==◌, if◌then◌else◌}

module _ {ℓ} {V : Type ℓ} where
  -- `find`
  abbrev pub lookup : ℕ → List (ℕ × V) → Option V
  lookup k [] = none
  lookup k ((j, v) ∷ m) = if j == k then some v else lookup k m

  -- `insert` and `emplace`: a key that is there keeps its value.
  abbrev pub insert_new : ℕ → V → List (ℕ × V) → List (ℕ × V)
  insert_new k v [] = (k, v) ∷ []
  insert_new k v ((j, w) ∷ m) = if j == k then (j, w) ∷ m else (j, w) ∷ insert_new k v m

  -- `erase`
  abbrev pub erase : ℕ → List (ℕ × V) → List (ℕ × V)
  erase k [] = []
  erase k ((j, v) ∷ m) = if j == k then erase k m else (j, v) ∷ erase k m

  abbrev pub or_else : Option V → V → Option V
  or_else none v = some v
  or_else (some w) v = some w

  pub lookup-insert_new :
      (k j : ℕ) (v : V) (m : List (ℕ × V))
      → lookup j (insert_new k v m) ≡ (if k == j then or_else (lookup k m) v else lookup j m)
  lookup-insert_new k j v [] = refl
  lookup-insert_new k j v ((i, w) ∷ m) = ground (arith, lookup-insert_new k j v m)

  pub lookup-erase :
      (k j : ℕ) (m : List (ℕ × V)) → lookup j (erase k m) ≡ (if k == j then none else lookup j m)
  lookup-erase k j [] = ground arith
  lookup-erase k j ((i, w) ∷ m) = ground (arith, lookup-erase k j m)

-- `count(k) != 0` of a set
abbrev pub member : ℕ → List ℕ → Bool
member k [] = false
member k (j ∷ s) = j == k || member k s

abbrev pub remove : ℕ → List ℕ → List ℕ
remove k [] = []
remove k (j ∷ s) = if j == k then remove k s else j ∷ remove k s

pub member-remove :
    (k j : ℕ) (s : List ℕ) → member j (remove k s) ≡ (if k == j then false else member j s)
member-remove k j [] = ground arith
member-remove k j (i ∷ s) = ground (arith, member-remove k j s)

module _ {ℓ} {V : Type ℓ} where
  -- `operator[]` that is assigned to
  abbrev pub put : ℕ → V → List (ℕ × V) → List (ℕ × V)
  put k v [] = (k, v) ∷ []
  put k v ((j, w) ∷ m) = if j == k then (k, v) ∷ m else (j, w) ∷ put k v m

  pub lookup-put :
      (k j : ℕ) (v : V) (m : List (ℕ × V))
      → lookup j (put k v m) ≡ (if k == j then some v else lookup j m)
  lookup-put k j v [] = refl
  lookup-put k j v ((i, w) ∷ m) = ground (arith, lookup-put k j v m)
