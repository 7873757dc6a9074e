-- ===== src/Base/Outcome.antt =====
-- A Python call returns a value or raises. What was written before a raise stays written, so an
-- action gives the state back beside the exception too. A message keeps its fixed text only.
use mathlib.Core.Bool.{Bool, true, false}
use Prim.Native.String.{String}
use mathlib.Core.Path.{◌≡◌, refl}

pub data Error : Type 0 where
  value_error runtime_error type_error key_error transition_error os_error : String → Error
  sqlite_error overflow_error attribute_error timeout_error : String → Error

pub data Result {ℓ} (A : Type ℓ) : Type ℓ where
  ok : A → Result A
  raised : Error → Result A

-- `if not test: raise error`.
abbrev pub require : Bool → Error → Result (Unit {0})
require b e = elim b [ true ↦ ok tt | false ↦ raised e ]

module _ {ℓ κ} {A : Type ℓ} {B : Type κ} where
  -- What comes after a call that returned.
  infixl 5 ◌>>=◌
  abbrev pub ◌>>=◌ : (m : Result A) (k : A → Result B) → Result B
  raised e >>= k = raised e
  ok a >>= k = k a

  -- What is known of the parts of a chain that returned.
  pub >>=-ok :
      (m : Result A) (k : A → Result B) {y : B}
      → m >>= k ≡ ok y
      → (x : A) × (m ≡ ok x) × (k x ≡ ok y)
  >>=-ok (raised e) k h = cc
  >>=-ok (ok x) k h = (x, refl, h)

module _ {κ} {B : Type κ} where
  infixl 5 ◌>>◌
  abbrev pub ◌>>◌ : (m : Result (Unit {0})) (k : Result B) → Result B
  raised e >> k = raised e
  ok _ >> k = k

  pub >>-ok :
      (m : Result (Unit {0})) (k : Result B) {y : B} → m >> k ≡ ok y → (m ≡ ok tt) × (k ≡ ok y)
  >>-ok (raised e) k h = cc
  >>-ok (ok _) k h = (refl, h)
