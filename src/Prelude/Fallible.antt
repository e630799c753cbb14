-- ===== src/Prelude/Fallible.antt =====
-- What a Go function with an error result returns: a value, or the error.
use mathlib.Core.Path.{◌≡◌, refl}
use mathlib.Core.Logic.{◌⊎◌, inl, inr}

pub data Result {ℓ} (E : Type 0) (A : Type ℓ) : Type ℓ where
  ok : A → Result E A
  err : E → Result E A

-- `if err != nil { return err }`
infixl 5 ◌>>=◌
abbrev pub ◌>>=◌ {ℓ κ} :
    {E : Type 0} {A : Type ℓ} {B : Type κ} → Result E A → (A → Result E B) → Result E B
ok value >>= rest = rest value
err failure >>= rest = err failure

module _ {ℓ} {E : Type 0} {A : Type ℓ} where
  -- A call returns a value or fails.
  pub Result-cases :
      (call : Result E A)
      → ((value : A) × (call ≡ ok value)) ⊎ ((failure : E) × (call ≡ err failure))
  Result-cases (ok value) = inl (value, refl)
  Result-cases (err failure) = inr (failure, refl)

  -- If the whole succeeds, so did the first call.
  pub ok_of_bind {κ} :
      {B : Type κ} {rest : A → Result E B} {last : B} (call : Result E A)
      → (call >>= rest) ≡ ok last
      → (value : A) × (call ≡ ok value) × (rest value ≡ ok last)
  ok_of_bind (ok value) done = (value, refl, done)
  ok_of_bind (err failure) done = cc
