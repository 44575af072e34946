-- ===== src/Request/Results.antt =====
-- What the parser of requests may come to.
use simple_tcp.Prelude.{◌≡◌, true, false, Option, none, some}

-- `RequestErrorType` of include/http/HttpError.h
pub data RequestErrorType : Type 0 where
  bad_request unsupport_method partial_packet : RequestErrorType

-- `refused`: RequestError is thrown. `threw`: an exception that is no RequestError. `fault`: an
-- access outside a text. `hang`: a loop that was still running when its fuel was used up.
pub data Parsed {ℓ} (A : Type ℓ) : Type ℓ where
  ok : A → Parsed A
  refused : RequestErrorType → Parsed A
  threw fault hang : Parsed A

infixl 5 ◌>>=◌
abbrev pub ◌>>=◌ {ℓ κ} : {A : Type ℓ} {B : Type κ} → Parsed A → (A → Parsed B) → Parsed B
m >>= f = elim m [
  | ok a ↦ f a
  | refused e ↦ refused e
  | threw ↦ threw
  | fault ↦ fault
  | hang ↦ hang
]

-- the result of a loop with fuel
abbrev pub looped {ℓ} : {A : Type ℓ} → Option A → Parsed A
looped none = hang
looped (some a) = ok a

-- What holds of the value, where there is one; and there is no hang.
abbrev pub All {ℓ} : {A : Type ℓ} → (A → Type 0) → Parsed A → Type 0
All P (ok a) = P a
All P (refused e) = Unit {0}
All P threw = Unit {0}
All P fault = Unit {0}
All P hang = true ≡ false

module _ {ℓ κ} {A : Type ℓ} {B : Type κ} (P : A → Type 0) (Q : B → Type 0) where
  pub All->>= :
      (m : Parsed A) (f : A → Parsed B) → All P m → ((a : A) → P a → All Q (f a)) → All Q (m >>= f)
  All->>= (ok a) f h k = k a h
  All->>= (refused e) f h k = tt
  All->>= threw f h k = tt
  All->>= fault f h k = tt
  All->>= hang f h k = absurd (cc h)

module _ {ℓ} {A : Type ℓ} {P Q : A → Type 0} where
  pub All-map : (m : Parsed A) → All P m → ((a : A) → P a → Q a) → All Q m
  All-map (ok a) h k = k a h
  All-map (refused e) h k = tt
  All-map threw h k = tt
  All-map fault h k = tt
  All-map hang h k = absurd (cc h)
