-- ===== src/Durations/Grammar.antt =====
-- The format that crates/gapura-core/src/duration.rs accepts, as a list of components.
use gapura.Prelude.{
  ℕ, ◌+◌, ◌*◌, ◌^◌, ◌<◌, ◌≤◌, true, false, List, [], ◌∷◌, ◌++◌, some, ◌≡◌, refl, ap, Text, codes,
  is_ascii_digit, starts_with, drop, length, all, All, arith, digits_value, digits_value-small,
  parse_unsigned, parse_digits, ltb, ◌==◌, ◌||◌,
}
use gapura.Durations.{checked_add, checked_mul, digits_of, unit_of, part}

pub data TimeUnit : Type 0 where
  hours minutes seconds milliseconds : TimeUnit

abbrev pub unit_text : TimeUnit → Text
unit_text hours = codes "h"
unit_text minutes = codes "m"
unit_text seconds = codes "s"
unit_text milliseconds = codes "ms"

abbrev pub unit_millis : TimeUnit → ℕ
unit_millis hours = 3_600_000
unit_millis minutes = 60_000
unit_millis seconds = 1_000
unit_millis milliseconds = 1

pub record Component : Type 0 where
  pub digits : Text
  pub unit : TimeUnit

pub record IsComponent (c : Component) : Type 0 where
  pub ascii : all is_ascii_digit c.digits ≡ true
  pub nonempty : 0 < length c.digits
  pub few : length c.digits ≤ 5

abbrev pub millis_of : Component → ℕ
millis_of c = digits_value 0 c.digits * unit_millis c.unit

unfoldable pub spelling : List Component → Text
spelling [] = []
spelling (c ∷ cs) = c.digits ++ (unit_text c.unit ++ spelling cs)

unfoldable pub millis : List Component → ℕ
millis [] = 0
millis (c ∷ cs) = millis_of c + millis cs

-- The digits in front, and what follows them.
digits_of-append :
    (d : Text) (c : ℕ) (t : Text)
    → all is_ascii_digit d ≡ true
    → is_ascii_digit c ≡ false
    → digits_of (d ++ c ∷ t) ≡ d
unfolding digits_of
digits_of-append [] c t h k = rw k refl
digits_of-append (x ∷ d) c t h k =
    let first : is_ascii_digit x ≡ true = ground arith in
    rw first (ap (λ r. x ∷ r) (digits_of-append d c t (ground arith) k))

drop-append : (d t : Text) → drop (length d) (d ++ t) ≡ t
drop-append [] t = refl
drop-append (x ∷ d) t = drop-append d t

-- Digits, few enough, are read as the number that they denote.
pub parse_few :
    (d : Text)
    → all is_ascii_digit d ≡ true
    → 0 < length d
    → length d ≤ 5
    → parse_unsigned (2 ^ 64) d ≡ some (digits_value 0 d)
parse_few [] h k l = absurd (omega arith)
parse_few (c ∷ d) h k l =
    parse_digits (2 ^ 64) _ c d h refl (omega (arith, digits_value-small (c ∷ d) 5 h l))

-- What a list of components is spelled as is empty or starts with a digit, so that an `m` in
-- front of it is not taken for `ms`.
data StartsWell : Text → Type 0 where
  ends : StartsWell []
  goes_on : {c : ℕ} {t : Text} → is_ascii_digit c ≡ true → StartsWell (c ∷ t)

digits-StartsWell : (d t : Text) → all is_ascii_digit d ≡ true → 0 < length d → StartsWell (d ++ t)
digits-StartsWell [] t h k = absurd (omega arith)
digits-StartsWell (c ∷ d) t h k = goes_on (ground arith)

spelling-StartsWell : (cs : List Component) → All IsComponent cs → StartsWell (spelling cs)
unfolding spelling
spelling-StartsWell [] h = ends
spelling-StartsWell (c ∷ cs) h =
    digits-StartsWell c.digits (unit_text c.unit ++ spelling cs) h.0.ascii h.0.nonempty

unit_of-append :
    (u : TimeUnit) (t : Text)
    → StartsWell t
    → unit_of (unit_text u ++ t) ≡ some (unit_millis u, length (unit_text u))
unfolding unit_of starts_with
unit_of-append hours t w = refl
unit_of-append minutes [] w = refl
unit_of-append minutes (c ∷ t) (goes_on e) = ground arith
unit_of-append seconds t w = refl
unit_of-append milliseconds t w = refl

no_digit :
    (u : TimeUnit) (t : Text)
    → (c : ℕ) × (s : Text) × (unit_text u ++ t ≡ c ∷ s) × (is_ascii_digit c ≡ false)
no_digit hours t = (_, _, refl, refl)
no_digit minutes t = (_, _, refl, refl)
no_digit seconds t = (_, _, refl, refl)
no_digit milliseconds t = (_, _, refl, refl)

-- A pass of the loop takes the component in front.
pub part-spelling :
    (c : Component) (cs : List Component) (total : ℕ)
    → IsComponent c
    → All IsComponent cs
    → total + millis_of c < 2 ^ 64
    → part total (spelling (c ∷ cs)) ≡ some (total + millis_of c, spelling cs)
unfolding part spelling checked_add checked_mul
part-spelling c cs total i is fits =
    let (x, s, q, other) = no_digit c.unit (spelling cs) in
    let digits : digits_of (c.digits ++ (unit_text c.unit ++ spelling cs)) ≡ c.digits =
      rw q (digits_of-append c.digits x s i.ascii other) in
    let few : (length c.digits == 0 || ltb 5 (length c.digits)) ≡ false =
      grind (arith, i.nonempty, i.few) in
    let value = parse_few c.digits i.ascii i.nonempty i.few in
    let unit = unit_of-append c.unit (spelling cs) (spelling-StartsWell cs is) in
    let product : ltb (millis_of c) (2 ^ 64) ≡ true = ground arith in
    let sum : ltb (total + millis_of c) (2 ^ 64) ≡ true = ground arith in
    rw digits (
      rw few (
        rw value (
          rw (drop-append c.digits (unit_text c.unit ++ spelling cs)) (
            rw unit
              (rw product (rw sum (rw (drop-append (unit_text c.unit) (spelling cs)) refl)))))))
