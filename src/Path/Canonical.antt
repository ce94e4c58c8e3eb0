-- ===== src/Path/Canonical.antt =====
-- The canonical form of a path, described without the normaliser, and the normaliser's loops
-- against it. Code: crates/gapura-core/src/path.rs.
use gapura.Prelude.{
  ℕ, ◌+◌, ◌*◌, ◌≡◌, refl, Bool, true, false, not, ◌&&◌, ◌||◌, [], ◌∷◌, arith, leb, ◌==◌, Text,
  is_ascii_digit, is_ascii_hexdigit, to_upper,
}
use gapura.Path.{is_char_boundary, is_continuation, hex_value, is_unreserved}

unfoldable pub is_upper_hexdigit : ℕ → Bool
is_upper_hexdigit c = is_ascii_digit c || leb b'A' c && leb c b'F'

-- What may follow a percent sign: two upper-case digits of a reserved byte, then a character.
abbrev pub starts_escape : Text → Bool
starts_escape [] = false
starts_escape (d ∷ []) = false
starts_escape (d ∷ e ∷ s) =
    is_upper_hexdigit d
    && (is_upper_hexdigit e
        && (not (is_unreserved (16 * hex_value d + hex_value e)) && is_char_boundary s))

-- Every percent sign starts an escape of that form.
unfoldable pub is_encoded : Text → Bool
is_encoded [] = true
is_encoded (c ∷ s) = (not (c == b'%') || starts_escape s) && is_encoded s

abbrev pub starts_slash : Text → Bool
starts_slash [] = false
starts_slash (c ∷ s) = c == b'/'

unfoldable pub has_double_slash : Text → Bool
has_double_slash [] = false
has_double_slash (c ∷ s) = c == b'/' && starts_slash s || has_double_slash s

pub hex_value-to_upper : (d : ℕ) → is_ascii_hexdigit d ≡ true → hex_value (to_upper d) ≡ hex_value d
unfolding to_upper is_ascii_hexdigit hex_value
hex_value-to_upper d h = ground arith

-- A hexadecimal digit in upper case, and what it is not.
pub to_upper-hexdigit :
    (d : ℕ)
    → is_ascii_hexdigit d ≡ true
    → (is_upper_hexdigit (to_upper d) ≡ true) × ((to_upper d == b'%') ≡ false)
unfolding to_upper is_ascii_hexdigit is_upper_hexdigit
to_upper-hexdigit d h = ground arith

pub to_upper_of_upper :
    (d : ℕ)
    → is_upper_hexdigit d ≡ true
    → (to_upper d ≡ d)
      × (is_ascii_hexdigit d ≡ true)
      × ((d == b'%') ≡ false)
      × ((d == b'/') ≡ false)
      × (is_continuation d ≡ false)
unfolding to_upper is_upper_hexdigit is_ascii_hexdigit is_continuation
to_upper_of_upper d h = ground arith

pub unreserved_lem :
    (v : ℕ) → is_unreserved v ≡ true → ((v == b'%') ≡ false) × (is_continuation v ≡ false)
unfolding is_unreserved is_continuation
unreserved_lem v h = ground arith

pub percent_starts : is_continuation b'%' ≡ false
unfolding is_continuation
percent_starts = refl
