-- ===== src/Common/Outcome.antt =====
-- What a call of the program ends in: a value, an exception, or undefined behaviour of C++.
use mathlib.Core.Path.{ap, ◌≡◌, refl}
use vaedb.Common.Text.{Bytes}

-- `VaeDbQueryError` and `VaeDbInternalError` with their texts, any other `std::exception`, and a
-- thrown value of another type.
pub data Error : Type 0 where
  query_error : Bytes → Error
  internal_error : Bytes → Error
  std_exception : Error
  unknown_exception : Error

pub data Outcome {ℓ} (A : Type ℓ) : Type ℓ where
  done : A → Outcome A
  thrown : Error → Outcome A
  undefined : Outcome A

infixl 5 ◌>>=◌
abbrev pub ◌>>=◌ {ℓ κ} : {A : Type ℓ} {B : Type κ} → Outcome A → (A → Outcome B) → Outcome B
done a >>= f = f a
thrown e >>= f = thrown e
undefined >>= f = undefined

-- Inversion of a chain that ended in a value.
pub >>=-eq-done {ℓ κ} :
    {A : Type ℓ} {B : Type κ} (m : Outcome A) (f : A → Outcome B) {b : B}
    → (m >>= f) ≡ done b
    → (a : A) × (m ≡ done a) × (f a ≡ done b)
>>=-eq-done (done a) f h = (a, refl, h)
>>=-eq-done (thrown e) f h = cc
>>=-eq-done undefined f h = cc

pub done-injective {ℓ} : {A : Type ℓ} {a b : A} → done a ≡ done b → a ≡ b
done-injective h = cc

-- What follows an outcome that is known.
pub bind_at {ℓ κ} :
    {A : Type ℓ} {B : Type κ} (m : Outcome A) (f : A → Outcome B) (a : A)
    → m ≡ done a
    → (m >>= f) ≡ f a
bind_at m f a e = ap (λ o. o >>= f) e
