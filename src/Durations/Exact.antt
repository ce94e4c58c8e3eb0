-- ===== src/Durations/Exact.antt =====
-- That no check for overflow of crates/gapura-core/src/duration.rs ever fails: what the parser
-- would return if it computed with numbers of any size.
use gapura.Prelude.{
  ℕ, zero, suc, ◌+◌, ◌*◌, ◌||◌, Option, none, some, [], ◌∷◌, Text, drop, length, and_then,
  digits_value, if◌then◌else◌, ltb, ◌==◌,
}
use gapura.Durations.{digits_of, unit_of}

-- A pass that neither checks a sum nor a product, and reads digits of any value.
exact_part : ℕ → Text → Option (ℕ × Text)
exact_part total rest =
    let digits_end = length (digits_of rest) in
    let after = drop digits_end rest in
    if digits_end == 0 || ltb 5 digits_end
    then none
    else and_then (unit_of after)
        λ u. some (total + digits_value 0 (digits_of rest) * u.0, drop u.1 after)

exact_on : ℕ → Text → ℕ → ℕ → Option (Option ℕ)
exact_on fuel [] total parts = some (some total)
exact_on zero (c ∷ s) total parts = none
exact_on (suc fuel) (c ∷ s) total parts = elim (exact_part total (c ∷ s)) [
  | none ↦ some none
  | some p ↦
      let rest = exact_on fuel p.1 p.0 (parts + 1) in if ltb 4 (parts + 1) then some none else rest
]

pub exact_millis : Text → Option ℕ
exact_millis [] = none
exact_millis (c ∷ s) = and_then (exact_on 5 (c ∷ s) 0 0) λ r. r
