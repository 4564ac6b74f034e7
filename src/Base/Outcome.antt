-- ===== src/Base/Outcome.antt =====
-- The outcome of C code that indexes arrays and loops: a value, an access outside an array, or a
-- loop that is still running when its fuel is spent.
use mathlib.Core.Path.{◌≡◌, refl}

pub data Run {ℓ} (A : Type ℓ) : Type ℓ where
  fault : Run A
  out_of_fuel : Run A
  ok : A → Run A

pub ok-injective {ℓ} : {A : Type ℓ} {a b : A} → ok a ≡ ok b → a ≡ b
ok-injective h = cc

module _ {ℓ κ} {X : Type ℓ} {Y : Type κ} where
  -- The rest of the code runs only after a value.
  infixl 5 ◌>>=◌
  abbrev pub ◌>>=◌ : Run X → (X → Run Y) → Run Y
  fault >>= rest = fault
  out_of_fuel >>= rest = out_of_fuel
  ok x >>= rest = rest x

  -- Where the whole has returned, so has each part.
  pub >>=-eq-ok :
      (first : Run X) (rest : X → Run Y) {y : Y}
      → (first >>= rest) ≡ ok y
      → (x : X) × (first ≡ ok x) × (rest x ≡ ok y)
  >>=-eq-ok fault rest h = cc
  >>=-eq-ok out_of_fuel rest h = cc
  >>=-eq-ok (ok x) rest h = (x, refl, h)
