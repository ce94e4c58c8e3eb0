-- ===== src/Prelude/Results.antt =====
-- `Result<A, E>`, and the `?` operator as a bind.
use mathlib.Core.Path.{◌≡◌, refl}
use native.Mathlib.Omega.{arith}

pub data Result (E A : Type 0) : Type 0 where
  err : E → Result E A
  ok : A → Result E A

-- What comes after `?`: an error is returned as it is.
infixl 5 ◌>>=◌
abbrev pub ◌>>=◌ : {E A B : Type 0} → Result E A → (A → Result E B) → Result E B
err e >>= after = err e
ok a >>= after = after a

-- A chain that ends well has a first step that did, and the rest goes on from its value.
pub went_through :
    {E A B : Type 0} (first : Result E A) (rest : A → Result E B) {end : B}
    → (first >>= rest) ≡ ok end
    → (x : A) × (first ≡ ok x) × (rest x ≡ ok end)
went_through (err reason) rest through = absurd (ground arith)
went_through (ok x) rest through = (x, refl, through)
