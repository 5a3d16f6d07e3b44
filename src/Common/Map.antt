-- ===== src/Common/Map.antt =====
-- `std::map` as an association list: the key that a call finds is the first of its equals.
use mathlib.Core.Path.{◌≡◌, refl}
use mathlib.Core.Logic.{ite}
use mathlib.Core.List.{List, [], ◌∷◌}
use mathlib.Core.Option.{Option, none, some}
use native.Mathlib.Omega.{arith}

module _ {ℓ} {K V : Type ℓ} (dec : Discrete K) where
  -- `find`: the value of the key, if it is there.
  unfoldable pub lookup : K → List (K × V) → Option V
  lookup k [] = none
  lookup k ((j, v) ∷ m) = ite (dec j k) (some v) (lookup k m)

  -- `m[k] = v`: the old value is overwritten.
  unfoldable pub assign : K → V → List (K × V) → List (K × V)
  assign k v [] = (k, v) ∷ []
  assign k v ((j, w) ∷ m) = ite (dec j k) ((j, v) ∷ m) ((j, w) ∷ assign k v m)

  -- `erase`: every entry of the key goes.
  unfoldable pub erase : K → List (K × V) → List (K × V)
  erase k [] = []
  erase k ((j, v) ∷ m) = ite (dec j k) (erase k m) ((j, v) ∷ erase k m)

  pub lookup-assign :
      (k q : K) (v : V) (m : List (K × V))
      → lookup q (assign k v m) ≡ ite (dec k q) (some v) (lookup q m)
  unfolding lookup assign
  lookup-assign k q v [] = refl
  lookup-assign k q v ((j, w) ∷ m) = ground (arith, lookup-assign k q v m)

  pub lookup-erase :
      (k q : K) (m : List (K × V)) → lookup q (erase k m) ≡ ite (dec k q) none (lookup q m)
  unfolding lookup erase
  lookup-erase k q [] = ground arith
  lookup-erase k q ((j, w) ∷ m) = ground (arith, lookup-erase k q m)
