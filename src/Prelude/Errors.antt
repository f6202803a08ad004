-- ===== src/Prelude/Errors.antt =====
-- What a Go function with a second result of type `error` returns.
use mathlib.Core.Path.{◌≡◌, refl, subst}
use mathlib.Core.Bool.{Bool, true, false, ◌&&◌}
use library_olm.Prelude.Tests.{if◌then◌else◌}

pub data Result {ℓ} (Failure Value : Type ℓ) : Type ℓ where
  err : Failure → Result Failure Value
  ok : Value → Result Failure Value

-- To split on a computed result and keep the equation.
pub data ResultCases {ℓ} {F V : Type ℓ} (outcome : Result F V) : Type ℓ where
  is_err : (failure : F) → outcome ≡ err failure → ResultCases outcome
  is_ok : (value : V) → outcome ≡ ok value → ResultCases outcome

module _ {ℓ} {F V : Type ℓ} where
  pub Result-cases : (outcome : Result F V) → ResultCases outcome
  Result-cases (err failure) = is_err failure refl
  Result-cases (ok value) = is_ok value refl

  abbrev pub succeeds : Result F V → Bool
  succeeds (err failure) = false
  succeeds (ok value) = true

  -- `fmt.Errorf("…: %w", err)`
  abbrev pub wrap_err : {G : Type ℓ} → (F → G) → Result F V → Result G V
  wrap_err wrap (err failure) = err (wrap failure)
  wrap_err wrap (ok value) = ok value

  -- `if err != nil { return err }`, and what comes behind it
  infixl 5 ◌>>=◌
  abbrev pub ◌>>=◌ : {W : Type ℓ} → Result F V → (V → Result F W) → Result F W
  err failure >>= next = err failure
  ok value >>= next = next value

  pub >>=-eq-ok :
      {W : Type ℓ} (first : Result F V) (next : V → Result F W) {w : W}
      → (first >>= next) ≡ ok w
      → (value : V) × (first ≡ ok value) × (next value ≡ ok w)
  >>=-eq-ok (err failure) next h = cc
  >>=-eq-ok (ok value) next h = (value, refl, h)

  -- A guard that let its body through.
  pub guarded-eq-ok :
      (b : Bool) (failure : F) (body : Result F V) {v : V}
      → (if b then err failure else body) ≡ ok v
      → (b ≡ false) × (body ≡ ok v)
  guarded-eq-ok true failure body h = cc
  guarded-eq-ok false failure body h = (refl, h)

-- Two steps whose results are put together succeed where both do.
pub succeeds-both {ℓ} :
    {F V W X : Type ℓ} (first : Result F V) (second : Result F W) (f : V → W → X)
    → succeeds (first >>= λ v. second >>= λ w. ok (f v w)) ≡ (succeeds first && succeeds second)
succeeds-both (err failure) second f = refl
succeeds-both (ok value) (err failure) f = refl
succeeds-both (ok value) (ok other) f = refl

-- What a result is of, where it is not an error.
pub record Yields {E A : Type 0} (P : A → Type 0) (outcome : Result E A) : Type 0 where
  pub at : (a : A) → outcome ≡ ok a → P a

module _ {E A : Type 0} {P : A → Type 0} where
  pub ok-Yields : (a : A) → P a → Yields {E = E} P (ok a)
  ok-Yields a h = record { at = λ b e. subst P (same b (ok a) refl e) h }
    where
      same : (b : A) (outcome : Result E A) → outcome ≡ ok a → outcome ≡ ok b → a ≡ b
      same b outcome e d = cc

  pub err-Yields : (e : E) → Yields P (err e)
  err-Yields e = record { at = λ b h. absurd (differ b (err e) refl h) }
    where
      differ : (b : A) (outcome : Result E A) → outcome ≡ err e → outcome ≡ ok b → ⊥
      differ b outcome d h = cc

  pub >>=-Yields :
      {B : Type 0} {f : B → Result E A} (first : Result E B)
      → ((b : B) → first ≡ ok b → Yields P (f b))
      → Yields P (first >>= f)
  >>=-Yields (err e) k = err-Yields e
  >>=-Yields (ok b) k = k b refl

  pub if-Yields :
      {outcome other : Result E A} (b : Bool)
      → Yields P outcome
      → Yields P other
      → Yields P (if b then outcome else other)
  if-Yields true k l = k
  if-Yields false k l = l
