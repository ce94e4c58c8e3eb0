-- ===== src/Prelude/Space.antt =====
-- `str::trim`: the white space of Unicode, as bytes of UTF-8.
use Prim.Native.Nat.{ℕ}
use mathlib.Core.Bool.{Bool, ◌&&◌, ◌||◌}
use mathlib.Core.List.{[], ◌∷◌, reverse}
use gapura.Prelude.Tests.{leb, ◌==◌, if◌then◌else◌}
use gapura.Prelude.Bytes.{Text}

abbrev is_space : ℕ → Bool
is_space c = c == 32 || leb 9 c && leb c 13

-- U+0085 and U+00A0.
abbrev is_space2 : ℕ → ℕ → Bool
is_space2 c d = c == 0xc2 && (d == 0x85 || d == 0xa0)

-- U+1680, U+2000 to U+200A, U+2028, U+2029, U+202F, U+205F and U+3000.
abbrev is_space3 : ℕ → ℕ → ℕ → Bool
is_space3 c d e =
    c == 0xe1 && (d == 0x9a && e == 0x80)
    || c == 0xe2
      && (d == 0x80 && (leb 0x80 e && leb e 0x8a || e == 0xa8 || e == 0xa9 || e == 0xaf)
          || d == 0x81 && e == 0x9f)
    || c == 0xe3 && (d == 0x80 && e == 0x80)

unfoldable pub trim_start : Text → Text
trim_start [] = []
trim_start (c ∷ []) = if is_space c then [] else c ∷ []
trim_start (c ∷ d ∷ []) =
    let one = trim_start (d ∷ []) in
    if is_space c then one else if is_space2 c d then [] else c ∷ d ∷ []
trim_start (c ∷ d ∷ e ∷ s) =
    let one = trim_start (d ∷ e ∷ s) in
    let two = trim_start (e ∷ s) in
    let three = trim_start s in
    if is_space c
    then one
    else if is_space2 c d
    then two
    else if is_space3 c d e
    then three
    else c ∷ d ∷ e ∷ s

-- The same from the other end: over the bytes in reverse.
unfoldable pub trim_end_reversed : Text → Text
trim_end_reversed [] = []
trim_end_reversed (c ∷ []) = if is_space c then [] else c ∷ []
trim_end_reversed (c ∷ d ∷ []) =
    let one = trim_end_reversed (d ∷ []) in
    if is_space c then one else if is_space2 d c then [] else c ∷ d ∷ []
trim_end_reversed (c ∷ d ∷ e ∷ s) =
    let one = trim_end_reversed (d ∷ e ∷ s) in
    let two = trim_end_reversed (e ∷ s) in
    let three = trim_end_reversed s in
    if is_space c
    then one
    else if is_space2 d c
    then two
    else if is_space3 e d c
    then three
    else c ∷ d ∷ e ∷ s

unfoldable pub trim : Text → Text
unfolding trim_start trim_end_reversed
trim s = reverse (trim_end_reversed (reverse (trim_start s)))
