-- ===== src/Base/Results.antt =====
-- `Result`, the early return of an error, and `?` as a bind.
use mathlib.Core.Path.{◌≡◌, refl}
use mathlib.Core.Bool.{Bool, true, false}
use mathlib.Core.Option.{Option, none, some}

pub data Result {ℓ κ} (A : Type ℓ) (E : Type κ) : Type (ℓ ⊔ κ) where
  ok : A → Result A E
  err : E → Result A E

module _ {κ} {E : Type κ} where
  -- `if bad { return Err(e) }`.
  abbrev pub reject : Bool → E → Result (Unit {0}) E
  reject false error = ok tt
  reject true error = err error

  -- `Option::ok_or`.
  abbrev pub ok_or {ℓ} : {A : Type ℓ} → Option A → E → Result A E
  ok_or (some value) error = ok value
  ok_or none error = err error

  abbrev pub is_ok {ℓ} : {A : Type ℓ} → Result A E → Bool
  is_ok (err _) = false
  is_ok (ok _) = true

  pub is_ok→eq {ℓ} : {A : Type ℓ} (r : Result A E) → is_ok r ≡ true → (value : A) × (r ≡ ok value)
  is_ok→eq (err error) h = cc
  is_ok→eq (ok value) h = (value, refl)

  abbrev pub map_err {ℓ μ} : {A : Type ℓ} {F : Type μ} → (E → F) → Result A E → Result A F
  map_err convert (err error) = err (convert error)
  map_err convert (ok value) = ok value

  infixl 5 ◌>>=◌ ◌>>◌
  abbrev pub ◌>>=◌ {ℓ μ} : {A : Type ℓ} {B : Type μ} → Result A E → (A → Result B E) → Result B E
  err error >>= continue = err error
  ok value >>= continue = continue value

  abbrev pub ◌>>◌ {μ} : {B : Type μ} → Result (Unit {0}) E → Result B E → Result B E
  err error >> rest = err error
  ok _ >> rest = rest

  -- What a successful `?` went through.
  pub >>=-eq-ok {ℓ μ} :
      {A : Type ℓ} {B : Type μ} (first : Result A E) (continue : A → Result B E) {last : B}
      → (first >>= continue) ≡ ok last
      → (value : A) × (first ≡ ok value) × (continue value ≡ ok last)
  >>=-eq-ok (err error) continue h = cc
  >>=-eq-ok (ok value) continue h = (value, refl, h)
