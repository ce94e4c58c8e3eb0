-- ===== src/Hostname.antt =====
-- Hostname matching, intersection and specificity: crates/gapura-core/src/hostname.rs.
pub mod Suffix
pub mod Comparing
pub mod Intersection
pub mod Ordered
pub mod Tests
use gapura.Prelude.{
  ℕ, ◌+◌, ◌-◌, ◌≡◌, Bool, true, false, not, ◌&&◌, ◌||◌, Option, none, some, List, [], ◌∷◌, ◌++◌,
  map, ltb, ◌==◌, if◌then◌else◌, length, drop, get_elem?, Text, codes, text_eq, text_le,
  to_ascii_lowercase, eq_ignore_ascii_case, strip_prefix,
}

-- `h[i] == b`, for an index in range.
abbrev byte_is : Option ℕ → ℕ → Bool
byte_is none b = false
byte_is (some c) b = c == b

-- The `Some(suffix)` branch: a label, a dot and the suffix.
unfoldable pub has_suffix : Text → Text → Bool
has_suffix suffix h =
    ltb (length suffix + 1) (length h)
    && (byte_is (get_elem? h (length h - length suffix - 1)) b'.'
        && eq_ignore_ascii_case (drop (length h - length suffix) h) suffix)

unfoldable pub matches : Text → Text → Bool
matches pattern host = elim (strip_prefix (codes "*.") pattern) [
  | some suffix ↦ has_suffix suffix host
  | none ↦ eq_ignore_ascii_case pattern host
]

-- `out.sort()`: insertion keeps equal texts in their order, as any stable sort does.
unfoldable pub insert_text : Text → List Text → List Text
insert_text h [] = h ∷ []
insert_text h (x ∷ xs) = let rest = insert_text h xs in if text_le h x then h ∷ x ∷ xs else x ∷ rest

unfoldable pub sort : List Text → List Text
sort [] = []
sort (x ∷ xs) = insert_text x (sort xs)

-- `out.dedup()`: of neighbours that are equal the first stays.
unfoldable pub dedup : List Text → List Text
dedup [] = []
dedup (x ∷ []) = x ∷ []
dedup (x ∷ y ∷ xs) = let rest = dedup (y ∷ xs) in if text_eq x y then rest else x ∷ rest

-- One round of the loop over the route's hostnames: what is pushed on `out`.
unfoldable pub narrower : Text → Text → List Text
narrower l r =
    if matches l r
    then to_ascii_lowercase r ∷ []
    else (if matches r l then to_ascii_lowercase l ∷ [] else [])

unfoldable pub narrow : Text → List Text → List Text
narrow l [] = []
narrow l (r ∷ rs) = narrower l r ++ narrow l rs

-- `None` of the result is the outer `none`.
unfoldable pub candidates : Option Text → List Text → Option (List Text)
candidates none [] = some []
candidates none (r ∷ rs) = some (map to_ascii_lowercase (r ∷ rs))
candidates (some l) [] = some (to_ascii_lowercase l ∷ [])
candidates (some l) (r ∷ rs) = elim (narrow l (r ∷ rs)) [ [] ↦ none | h ∷ hs ↦ some (h ∷ hs) ]

unfoldable pub intersect : Option Text → List Text → Option (List Text)
intersect listener route = elim (candidates listener route) [
  | none ↦ none
  | some out ↦ some (dedup (sort out))
]

abbrev is_some {ℓ} : {A : Type ℓ} → Option A → Bool
is_some none = false
is_some (some a) = true

-- Kind 2 is an exact name, 1 a wildcard, 0 none; then the length in bytes.
unfoldable pub specificity : Option Text → ℕ × ℕ
specificity none = (0, 0)
specificity (some h) = (if is_some (strip_prefix (codes "*.") h) then 1 else 2, length h)
