-- ===== src/Prelude/Decimal.antt =====
-- Arithmetic on powers of two, and the unsigned parsers of the standard library.
use Prim.Native.Nat.{ℕ, zero, suc, ◌+◌, ◌-◌, ◌*◌, ◌/◌, ◌%◌, ◌^◌, ◌≤◌, ◌<◌}
use mathlib.Core.Path.{◌≡◌, refl, ap, ◌∙◌}
use mathlib.Core.Logic.{inl, inr}
use mathlib.Core.Bool.{true, false, ◌&&◌}
use mathlib.Core.List.{[], ◌∷◌, ◌++◌}
use mathlib.Core.Option.{Option, none, some}
use native.Mathlib.Nat.{
  pow-suc, pow-le-pow_right, mul-le-mul_right, div-add-mod, mod-lt, le-div_iff_mul-le,
  div-lt_iff_lt-mul,
}
use native.Mathlib.Omega.{arith}
use gapura.Prelude.Tests.{ltb, ◌==◌, if◌then◌else◌, Bool-cases}
use gapura.Prelude.Lists.{all, length}
use gapura.Prelude.Bytes.{Text, is_ascii_digit}

pub pow-pos : (n : ℕ) → 0 < 2 ^ n
pow-pos zero = omega arith
pow-pos (suc n) = omega (arith, pow-suc 2 n, pow-pos n)

pub pow-add : (m n : ℕ) → 2 ^ (m + n) ≡ 2 ^ m * 2 ^ n
pow-add m zero = grind arith
pow-add m (suc n) = grind (arith, pow-suc 2 n, pow-suc 2 (m + n), pow-add m n)

-- A multiple of the divisor goes through a division.
pub add-mul-div : (a b d : ℕ) → 0 < d → (a * d + b) / d ≡ a + b / d
add-mul-div a b d h =
    let split = div-add-mod b d in
    let small : b % d < d = mod-lt b h in
    let low : a + b / d ≤ (a * d + b) / d = (le-div_iff_mul-le h).1 (omega arith) in
    let high : (a * d + b) / d < suc (a + b / d) = (div-lt_iff_lt-mul h).1 (omega arith) in
    omega arith

abbrev add_digit : ℕ → ℕ → ℕ
add_digit n c = 10 * n + (c - 48)

unfoldable pub digits_value : ℕ → Text → ℕ
digits_value n [] = n
digits_value n (c ∷ s) = digits_value (add_digit n c) s

abbrev unsigned_below : ℕ → Text → Option ℕ
unsigned_below limit [] = none
unsigned_below limit (c ∷ s) =
    if all is_ascii_digit (c ∷ s) && ltb (digits_value 0 (c ∷ s)) limit
    then some (digits_value 0 (c ∷ s))
    else none

-- `parse::<u32>()` and its like, for the values below `limit`: digits, with one `+` allowed in
-- front.
unfoldable pub parse_unsigned : ℕ → Text → Option ℕ
unfolding digits_value
parse_unsigned limit [] = none
parse_unsigned limit (c ∷ s) =
    if c == b'+' then unsigned_below limit s else unsigned_below limit (c ∷ s)

-- `{p}` of a number, on fuel, which the number itself is enough of: it has at most as many digits.
unfoldable pub decimal_on : ℕ → ℕ → Text
decimal_on zero n = (48 + n % 10) ∷ []
decimal_on (suc fuel) n =
    let front = decimal_on fuel (n / 10) in
    if ltb n 10 then (48 + n) ∷ [] else front ++ (48 + n % 10) ∷ []

abbrev pub decimal : ℕ → Text
decimal n = decimal_on n n

digits_value-append :
    (s : Text) (n c : ℕ) → digits_value n (s ++ c ∷ []) ≡ 10 * digits_value n s + (c - 48)
unfolding digits_value
digits_value-append [] n c = refl
digits_value-append (d ∷ s) n c = digits_value-append s _ c

decimal_on-value : (fuel n : ℕ) → n ≤ fuel → digits_value 0 (decimal_on fuel n) ≡ n
unfolding decimal_on digits_value
decimal_on-value zero n h = omega arith
decimal_on-value (suc fuel) n h = elim (Bool-cases (ltb n 10)) [
  | inl e ↦ rw e (omega arith)
  | inr e ↦
      let front = decimal_on-value fuel (n / 10) (ground arith) in
      rw e (digits_value-append (decimal_on fuel (n / 10)) 0 (48 + n % 10) ∙ omega (arith, front))
]

-- The port that a location is written with reads back as the same number.
pub decimal-value : (n : ℕ) → digits_value 0 (decimal n) ≡ n
decimal-value n = decimal_on-value n n (omega arith)

digits-append :
    (s : Text) (d : ℕ)
    → all is_ascii_digit s ≡ true
    → d < 10
    → all is_ascii_digit (s ++ (48 + d) ∷ []) ≡ true
digits-append [] d h lt = ground arith
digits-append (c ∷ s) d h lt = ground (arith, digits-append s d)

not_plus : (c : ℕ) → is_ascii_digit c ≡ true → (c == b'+') ≡ false
not_plus c h = ground arith

pub parse_digits :
    (limit n c : ℕ) (s : Text)
    → all is_ascii_digit (c ∷ s) ≡ true
    → digits_value 0 (c ∷ s) ≡ n
    → n < limit
    → parse_unsigned limit (c ∷ s) ≡ some n
unfolding parse_unsigned
parse_digits limit n c s h e lt =
    let first : is_ascii_digit c ≡ true = ground arith in
    let small : ltb (digits_value 0 (c ∷ s)) limit ≡ true = rw e (ground arith) in
    rw (not_plus c first) (rw h (rw small (ap some e)))

append_is_cons : (s : Text) (d : ℕ) → (c : ℕ) × (rest : Text) × (s ++ d ∷ [] ≡ c ∷ rest)
append_is_cons [] d = (d, [], refl)
append_is_cons (c ∷ s) d = (c, s ++ d ∷ [], refl)

decimal_on_is_cons : (fuel n : ℕ) → (c : ℕ) × (rest : Text) × (decimal_on fuel n ≡ c ∷ rest)
unfolding decimal_on
decimal_on_is_cons zero n = (48 + n % 10, [], refl)
decimal_on_is_cons (suc fuel) n = elim (Bool-cases (ltb n 10)) [
  | inl e ↦ (48 + n, [], rw e refl)
  | inr e ↦
      let (c, rest, q) = append_is_cons (decimal_on fuel (n / 10)) (48 + n % 10) in
      (c, rest, rw e q)
]

decimal_on-digits : (fuel n : ℕ) → n ≤ fuel → all is_ascii_digit (decimal_on fuel n) ≡ true
unfolding decimal_on
decimal_on-digits zero n h = ground arith
decimal_on-digits (suc fuel) n h = elim (Bool-cases (ltb n 10)) [
  | inl e ↦ rw e (ground arith)
  | inr e ↦ rw e (
      digits-append (decimal_on fuel (n / 10)) (n % 10)
        (decimal_on-digits fuel (n / 10) (ground arith)) (omega arith))
]

-- A number is read back from its digits, if it fits.
pub parse_unsigned-decimal : (limit n : ℕ) → n < limit → parse_unsigned limit (decimal n) ≡ some n
parse_unsigned-decimal limit n h =
    let (c, rest, q) = decimal_on_is_cons n n in
    let digits = decimal_on-digits n n (omega arith) in
    let value = decimal-value n in
    rw q (parse_digits limit n c rest (rw q at digits) (rw q at value) h)

scaled : (a n p : ℕ) → a ≤ 10 * n + 9 → (a + 1) * p ≤ (n + 1) * (p * 10)
scaled a n p h =
    let tens : a + 1 ≤ (n + 1) * 10 = omega arith in grind (arith, mul-le-mul_right p tens)

-- A number of so many digits is below that power of ten.
digits_value-lt :
    (n : ℕ) (s : Text)
    → all is_ascii_digit s ≡ true
    → digits_value n s + 1 ≤ (n + 1) * 10 ^ length s
unfolding digits_value
digits_value-lt n [] h = omega arith
digits_value-lt n (c ∷ s) h =
    let rest = digits_value-lt (add_digit n c) s (ground arith) in
    let digit : add_digit n c ≤ 10 * n + 9 = ground arith in
    rw (pow-suc 10 (length s)) (omega (arith, rest, scaled _ n (10 ^ length s) digit))

pub digits_value-small :
    (s : Text) (k : ℕ) → all is_ascii_digit s ≡ true → length s ≤ k → digits_value 0 s < 10 ^ k
digits_value-small s k h few =
    let larger : 10 ^ length s ≤ 10 ^ k = pow-le-pow_right (omega arith) few in
    omega (arith, digits_value-lt 0 s h, larger)
