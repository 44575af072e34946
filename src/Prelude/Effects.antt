-- ===== src/Prelude/Effects.antt =====
-- What a call may come to, and the state that it leaves: the monad of all handlers.
-- A thrown exception keeps the changes made before the throw, as in C++.
use Prim.Native.Nat.{ℕ}
use mathlib.Core.Path.{◌≡◌, refl}
use mathlib.Core.Bool.{Bool, true, false}

-- The exceptions that the library throws (include/base/Error.h) and all others.
pub data Exception : Type 0 where
  network_exception : ℕ → Exception
  system_exception : Exception
  other_exception : Exception

-- `abort`: LOG_FATAL or a failed assertion of a debug build. `fault`: an access outside an object,
-- or through a null pointer. `hang`: a loop that was still running when its fuel was used up.
pub data Outcome {ℓ κ} (S : Type ℓ) (A : Type κ) : Type (ℓ ⊔ κ) where
  ok : A → S → Outcome S A
  threw : Exception → S → Outcome S A
  abort fault hang : Outcome S A

abbrev pub M {ℓ κ} : Type ℓ → Type κ → Type (ℓ ⊔ κ)
M S A = S → Outcome S A

-- The build that decides what `assertTrue` does (include/base/Log.h).
pub data Build : Type 0 where
  debug_build release_build : Build

infixl 5 ◌>>=◌ ◌>>◌
abbrev pub ◌>>=◌ {ℓ κ μ} : {S : Type ℓ} {A : Type κ} {B : Type μ} → M S A → (A → M S B) → M S B
◌>>=◌ m f s = elim (m s) [
  | ok a s' ↦ f a s'
  | threw e s' ↦ threw e s'
  | abort ↦ abort
  | fault ↦ fault
  | hang ↦ hang
]

abbrev pub ◌>>◌ {ℓ κ} : {S : Type ℓ} {B : Type κ} → M S (Unit {0}) → M S B → M S B
m >> k = m >>= λ _. k

abbrev pub return {ℓ κ} : {S : Type ℓ} {A : Type κ} → A → M S A
return a s = ok a s

abbrev pub throw {ℓ κ} : {S : Type ℓ} {A : Type κ} → Exception → M S A
throw e s = threw e s

abbrev pub modify {ℓ} : {S : Type ℓ} → (S → S) → M S (Unit {0})
modify f s = ok tt (f s)

-- `assertTrue`: a debug build stops the process, a release build logs and goes on.
abbrev pub failed_assert {ℓ} : {S : Type ℓ} → Build → M S (Unit {0})
failed_assert debug_build s = abort
failed_assert release_build s = ok tt s

abbrev pub assert_true {ℓ} : {S : Type ℓ} → Build → Bool → M S (Unit {0})
assert_true build c s = elim c [ true ↦ ok tt s | false ↦ failed_assert build s ]

module _ {ℓ κ μ} {S : Type ℓ} {A : Type κ} {B : Type μ} where
  -- A call that returns hands its value and its state on.
  pub bind_ok :
      (m : M S A) (f : A → M S B) (s : S) {a : A} {s' : S} → m s ≡ ok a s' → (m >>= f) s ≡ f a s'
  bind_ok m f s h = rw (h, ◌>>=◌)

  -- What follows a call need only agree where the call returns.
  pub bind_cong :
      (m : M S A) (f g : A → M S B) (s : S)
      → ((a : A) (s' : S) → m s ≡ ok a s' → f a s' ≡ g a s')
      → (m >>= f) s ≡ (m >>= g) s
  bind_cong m f g s h = go (m s) refl
    where
      go :
          (o : Outcome S A)
          → m s ≡ o
          → elim o [
            | ok a s' ↦ f a s'
            | threw e s' ↦ threw e s'
            | abort ↦ abort
            | fault ↦ fault
            | hang ↦ hang
          ]
            ≡ elim o [
              | ok a s' ↦ g a s'
              | threw e s' ↦ threw e s'
              | abort ↦ abort
              | fault ↦ fault
              | hang ↦ hang
            ]
      go (ok a s') e = h a s' e
      go (threw x s') e = refl
      go abort e = refl
      go fault e = refl
      go hang e = refl

module _ {ℓ κ} {S : Type ℓ} {B : Type κ} where
  pub then_ok :
      (m : M S (Unit {0})) (k : M S B) (s : S) {s' : S} → m s ≡ ok tt s' → (m >> k) s ≡ k s'
  then_ok m k s h = rw (h, ◌>>◌, ◌>>=◌)

  pub then_cong :
      (m : M S (Unit {0})) (k k' : M S B) (s : S)
      → ((s' : S) → m s ≡ ok tt s' → k s' ≡ k' s')
      → (m >> k) s ≡ (m >> k') s
  then_cong m k k' s h = bind_cong m (λ _. k) (λ _. k') s (λ a s' e. h s' e)

  -- Only what the first call does where it starts matters.
  pub then_first :
      (m m' : M S (Unit {0})) (k : M S B) (s : S) → m s ≡ m' s → (m >> k) s ≡ (m' >> k) s
  then_first m m' k s h = rw (h, ◌>>◌, ◌>>=◌)
