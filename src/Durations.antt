-- ===== src/Durations.antt =====
-- The parser of Gateway API durations: crates/gapura-core/src/duration.rs.

pub mod Grammar
pub mod Passes
pub mod Loop
pub mod Parsing
pub mod Exact
pub mod Tests
use gapura.Prelude.{
  ℕ, zero, suc, ◌+◌, ◌*◌, ◌^◌, Bool, ◌||◌, Option, none, some, [], ◌∷◌, Text, codes, is_ascii_digit,
  starts_with, drop, length, and_then, parse_unsigned, if◌then◌else◌, ltb, ◌==◌,
}

-- `checked_add` and `checked_mul` of `u64`.
unfoldable pub checked_add : ℕ → ℕ → Option ℕ
checked_add a b = if ltb (a + b) (2 ^ 64) then some (a + b) else none

unfoldable pub checked_mul : ℕ → ℕ → Option ℕ
checked_mul a b = if ltb (a * b) (2 ^ 64) then some (a * b) else none

-- `&rest[..digits_end]`, where the first byte that is no digit ends the digits.
unfoldable pub digits_of : Text → Text
digits_of [] = []
digits_of (c ∷ s) = let rest = digits_of s in if is_ascii_digit c then c ∷ rest else []

-- The multiplier and the length of the unit in front.
unfoldable pub unit_of : Text → Option (ℕ × ℕ)
unit_of rest =
    if starts_with rest (codes "ms")
    then some (1, 2)
    else if starts_with rest (codes "h")
    then some (3_600_000, 1)
    else if starts_with rest (codes "m")
    then some (60_000, 1)
    else if starts_with rest (codes "s")
    then some (1_000, 1)
    else none

-- One pass of the loop up to the new total: that total, and what is left of the text.
unfoldable pub part : ℕ → Text → Option (ℕ × Text)
part total rest =
    let digits_end = length (digits_of rest) in
    let after = drop digits_end rest in
    if digits_end == 0 || ltb 5 digits_end
    then none
    else and_then (parse_unsigned (2 ^ 64) (digits_of rest)) λ n. and_then (unit_of after) λ u.
      and_then (checked_mul n u.0)
        λ ms. and_then (checked_add total ms) λ total'. some (total', drop u.1 after)

-- The loop: `none` is out of fuel, and what it returns otherwise is what the source does.
unfoldable pub parse_on : ℕ → Text → ℕ → ℕ → Option (Option ℕ)
parse_on fuel [] total parts = some (some total)
parse_on zero (c ∷ s) total parts = none
parse_on (suc fuel) (c ∷ s) total parts = elim (part total (c ∷ s)) [
  | none ↦ some none
  | some p ↦
      let rest = parse_on fuel p.1 p.0 (parts + 1) in if ltb 4 (parts + 1) then some none else rest
]

-- The loop is left at its fifth pass at the latest.
unfoldable pub parse_millis : Text → Option ℕ
parse_millis [] = none
parse_millis (c ∷ s) = and_then (parse_on 5 (c ∷ s) 0 0) λ r. r
