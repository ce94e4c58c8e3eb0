-- ===== src/Path/Segments.antt =====
-- The segment test of `normalize_path` in crates/gapura-core/src/path.rs, against a description
-- of dot segments that splits nothing.
use gapura.Prelude.{
  ℕ, Bool-cases, ap, ◌≡◌, refl, ◌⊎◌, inl, inr, Bool, true, false, List, [], ◌∷◌, ◌++◌, map, arith,
  ◌==◌, Text, codes, text_eq, split, extend_first, before, any,
}
use gapura.Path.{without_params, is_dot, has_dot_segment}

-- What may stand behind a segment's name: the end, the next segment, or its parameters.
abbrev pub EndsName : Text → Type 0
EndsName [] = Unit
EndsName (c ∷ s) = (c ≡ b'/') ⊎ (c ≡ b';')

-- A slash, then `.` or `..`, then the end of a name.
pub record DotSegment (p : Text) : Type 0 where
  pub front : Text
  pub dots : Text
  pub back : Text
  pub is_dots : (dots ≡ codes ".") ⊎ (dots ≡ codes "..")
  pub ends : EndsName back
  pub joined : p ≡ front ++ b'/' ∷ (dots ++ back)

first_name : List Text → Text
first_name [] = []
first_name (seg ∷ segs) = without_params seg

has_dot_first :
    (segs : List Text)
    → is_dot (first_name segs) ≡ true
    → any is_dot (map without_params segs) ≡ true
unfolding first_name text_eq
has_dot_first [] h = ground arith
has_dot_first (seg ∷ segs) h = ground arith

-- Some segment but the first is a dot segment.
later_dot : List Text → Bool
later_dot [] = false
later_dot (seg ∷ segs) = any is_dot (map without_params segs)

later_dot_lem :
    (segs : List Text) → later_dot segs ≡ true → any is_dot (map without_params segs) ≡ true
unfolding later_dot
later_dot_lem [] h = ground arith
later_dot_lem (seg ∷ segs) h = ground arith

later_dot-extend_first :
    (c : ℕ) (segs : List Text) → later_dot (extend_first c segs) ≡ later_dot segs
unfolding later_dot
later_dot-extend_first c [] = refl
later_dot-extend_first c (seg ∷ segs) = refl

first_name-extend_first :
    (c : ℕ) (segs : List Text)
    → (c == b';') ≡ false
    → first_name (extend_first c segs) ≡ c ∷ first_name segs
unfolding first_name before
first_name-extend_first c [] h = ground arith
first_name-extend_first c (seg ∷ segs) h = ground arith

first_name-params : (segs : List Text) → first_name (extend_first b';' segs) ≡ []
unfolding first_name before
first_name-params [] = refl
first_name-params (seg ∷ segs) = refl

-- Of a text that goes on with the end of a name, the first name is what stands before.
first_name-end : (s : Text) → EndsName s → first_name (split b'/' s) ≡ []
unfolding first_name split before
first_name-end [] h = refl
first_name-end (c ∷ s) (inl e) = ground arith
first_name-end (c ∷ s) (inr e) = rw e (unfold split in first_name-params (split b'/' s))

first_name-dots :
    (dots back : Text)
    → (dots ≡ codes ".") ⊎ (dots ≡ codes "..")
    → EndsName back
    → first_name (split b'/' (dots ++ back)) ≡ dots
unfolding split
first_name-dots dots back (inl d) h = rw (d, first_name-extend_first, first_name-end back h)
first_name-dots dots back (inr d) h =
    rw d (rw first_name-extend_first (rw (first_name-extend_first, first_name-end back h)))

is_dot_dots : (dots : Text) → (dots ≡ codes ".") ⊎ (dots ≡ codes "..") → is_dot dots ≡ true
unfolding text_eq
is_dot_dots dots (inl d) = rw d
is_dot_dots dots (inr d) = rw d

later_dot-split :
    (front rest : Text)
    → any is_dot (map without_params (split b'/' rest)) ≡ true
    → later_dot (split b'/' (front ++ b'/' ∷ rest)) ≡ true
unfolding split later_dot
later_dot-split [] rest h = h
later_dot-split (c ∷ front) rest h = elim (Bool-cases (c == b'/')) [
  | inl e ↦ rw e (later_dot_lem _ (later_dot-split front rest h))
  | inr e ↦ rw (e, later_dot-extend_first) (later_dot-split front rest h)
]

-- A text that passes the test has no dot segment behind any slash.
pub has_dot_segment_complete : (p : Text) → has_dot_segment p ≡ false → ¬ DotSegment p
has_dot_segment_complete p h d =
    let first : is_dot (first_name (split b'/' (d.dots ++ d.back))) ≡ true =
      rw (first_name-dots d.dots d.back d.is_dots d.ends) (is_dot_dots d.dots d.is_dots) in
    let found : has_dot_segment (d.front ++ b'/' ∷ (d.dots ++ d.back)) ≡ true =
      later_dot_lem _ (later_dot-split d.front (d.dots ++ d.back) (has_dot_first _ first)) in
    cc (ap has_dot_segment d.joined)
