-- ===== src/Durations/Tests.antt =====
-- Runs of the code of crates/gapura-core/src/duration.rs.
use gapura.Prelude.{
  ◌≡◌, ◌↔◌, ◌<◌, refl, some, none, List, [], ◌∷◌, codes, starts_with, parse_unsigned, digits_value,
  length, arith,
}
use gapura.Durations.Grammar.{Component, hours, minutes, spelling, millis}
use gapura.Durations.Loop.{parse_on-enough}
use gapura.Durations.Parsing.{IsDuration, parse_millis-eq-some_iff}
use gapura.Durations.{checked_add, checked_mul, digits_of, unit_of, part, parse_on, parse_millis}

program : Unit {0}
unfolding checked_add checked_mul digits_of unit_of part parse_on parse_millis starts_with
    parse_unsigned digits_value spelling millis
program = tt

all_units : parse_millis (codes "1h30m10s500ms") ≡ some 5_410_500
unfolding program
all_units = refl

out_of_order : parse_millis (codes "1s1h") ≡ some 3_601_000
unfolding program
out_of_order = refl

too_many_digits : parse_millis (codes "000001s") ≡ none
unfolding program
too_many_digits = refl

too_many_parts : parse_millis (codes "1s1s1s1s1s") ≡ none
unfolding program
too_many_parts = refl

fraction : parse_millis (codes "1.5s") ≡ none
unfolding program
fraction = refl

abbrev hour_and_a_half : List Component
hour_and_a_half =
    record { digits = codes "1"; unit = hours }
    ∷ record { digits = codes "30"; unit = minutes }
    ∷ []

parse_millis-eq-some_iff_example :
    (parse_millis (codes "1h30m") ≡ some 5_400_000)
    ↔ ((cs : List Component) × (0 < length cs) × IsDuration 0 (codes "1h30m") 5_400_000 cs)
parse_millis-eq-some_iff_example = parse_millis-eq-some_iff (codes "1h30m") 5_400_000

read_back : parse_millis (spelling hour_and_a_half) ≡ some (millis hour_and_a_half)
unfolding program
read_back = refl

parse_on-enough_example :
    parse_on 9 (codes "1s1s1s1s1s1s") 0 0 ≡ some (parse_millis (codes "1s1s1s1s1s1s"))
parse_on-enough_example = parse_on-enough 9 b'1' (codes "s1s1s1s1s1s") (omega arith)
