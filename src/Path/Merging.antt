-- ===== src/Path/Merging.antt =====
-- The loop of `normalize_path` in crates/gapura-core/src/path.rs that merges repeated slashes.
use gapura.Prelude.{◌≡◌, refl, Bool, true, false, [], ◌∷◌, arith, ◌==◌, Text}
use gapura.Path.{is_char_boundary, merge_slashes}
use gapura.Path.Canonical.{
  starts_escape, is_encoded, starts_slash, has_double_slash, to_upper_of_upper,
}

merge_slashes-boundary : (s : Text) → is_char_boundary (merge_slashes false s) ≡ is_char_boundary s
unfolding merge_slashes
merge_slashes-boundary [] = refl
merge_slashes-boundary (c ∷ s) = ground arith

merge_slashes-starts_escape :
    (s : Text) → starts_escape s ≡ true → starts_escape (merge_slashes false s) ≡ true
unfolding merge_slashes
merge_slashes-starts_escape (d ∷ e ∷ s) h =
    ground (arith, merge_slashes-boundary s, to_upper_of_upper d, to_upper_of_upper e)
merge_slashes-starts_escape _ h = ground arith

pub merge_slashes-is_encoded :
    (ends : Bool) (s : Text) → is_encoded s ≡ true → is_encoded (merge_slashes ends s) ≡ true
unfolding merge_slashes is_encoded
merge_slashes-is_encoded ends [] h = refl
merge_slashes-is_encoded ends (c ∷ s) h =
    ground (arith, merge_slashes-is_encoded (c == b'/') s, merge_slashes-starts_escape s)

-- No two slashes are left beside one another, nor one behind the slash that came before.
pub merge_slashes-has_double_slash :
    (ends : Bool) (s : Text)
    → (has_double_slash (merge_slashes ends s) ≡ false)
      × (ends ≡ true → starts_slash (merge_slashes ends s) ≡ false)
unfolding merge_slashes has_double_slash
merge_slashes-has_double_slash ends [] = ground arith
merge_slashes-has_double_slash ends (c ∷ s) =
    ground (arith, merge_slashes-has_double_slash (c == b'/') s)

merge_slashes_same :
    (ends : Bool) (s : Text)
    → has_double_slash s ≡ false
    → (ends ≡ true → starts_slash s ≡ false)
    → merge_slashes ends s ≡ s
unfolding merge_slashes has_double_slash
merge_slashes_same ends [] h k = refl
merge_slashes_same ends (c ∷ s) h k = ground (arith, merge_slashes_same (c == b'/') s)

-- Merging leaves a text without a double slash alone.
pub merge_slashes_of_single : (s : Text) → has_double_slash s ≡ false → merge_slashes false s ≡ s
merge_slashes_of_single s h = merge_slashes_same false s h (λ e. absurd (ground arith))

pub merge_slashes-starts_slash : (s : Text) → starts_slash (merge_slashes false s) ≡ starts_slash s
unfolding merge_slashes
merge_slashes-starts_slash [] = refl
merge_slashes-starts_slash (c ∷ s) = ground arith
