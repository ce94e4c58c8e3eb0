-- ===== src/Path/Normal.antt =====
-- What `normalize_path` of crates/gapura-core/src/path.rs promises of its results.
use gapura.Prelude.{
  went_through, ℕ, ◌≡◌, refl, true, false, [], ◌∷◌, arith, ◌==◌, Text, Bool-cases, inl, inr, codes,
  split, before, text_eq,
}
use gapura.Path.{ok, ◌>>=◌, decode, merge_slashes, has_dot_segment, check_segments, normalize_path}
use gapura.Path.Canonical.{is_encoded, starts_slash, has_double_slash}
use gapura.Path.Decoding.{decode-is_encoded, decode_of_is_encoded}
use gapura.Path.Merging.{
  merge_slashes-is_encoded, merge_slashes-has_double_slash, merge_slashes_of_single,
  merge_slashes-starts_slash,
}
use gapura.Path.Segments.{DotSegment, has_dot_segment_complete}

-- The canonical form: an absolute path whose percent escapes are all needed and in upper case,
-- with no repeated slash and no dot segment, with parameters or without.
pub record IsCanonical (p : Text) : Type 0 where
  pub absolute : starts_slash p ≡ true
  pub encoded : is_encoded p ≡ true
  pub single : has_double_slash p ≡ false
  pub dotless : ¬ DotSegment p

record Passed (raw p : Text) : Type 0 where
  decoded : Text
  starts : starts_slash raw ≡ true
  decodes : decode raw ≡ ok decoded
  merged : p ≡ merge_slashes false decoded
  passes : has_dot_segment p ≡ false

decode-starts_slash : (s t : Text) → starts_slash s ≡ true → decode s ≡ ok t → starts_slash t ≡ true
unfolding decode
decode-starts_slash (c ∷ []) t h k = ground arith
decode-starts_slash (c ∷ d ∷ []) t h k =
    let (out, _, j) =
      went_through (decode (d ∷ [])) (λ out. ok (c ∷ out)) {end = t} (ground arith) in
    ground arith
decode-starts_slash (c ∷ d ∷ e ∷ s) t h k =
    let (out, _, j) =
      went_through (decode (d ∷ e ∷ s)) (λ out. ok (c ∷ out)) {end = t} (ground arith) in
    ground arith
decode-starts_slash _ t h k = ground arith

normalize_path-Passed : (c : ℕ) (s p : Text) → normalize_path (c ∷ s) ≡ ok p → Passed (c ∷ s) p
unfolding normalize_path
normalize_path-Passed c s p h = elim (Bool-cases (c == b'/')) [
  | inr n ↦ absurd (ground arith)
  | inl y ↦
      let (t, ht, h₁) =
        went_through (decode (c ∷ s)) (λ t. check_segments (merge_slashes false t)) (rw y at h) in
      elim (Bool-cases (has_dot_segment (merge_slashes false t))) [
        | inl bad ↦ absurd (ground arith)
        | inr good ↦
            let e : p ≡ merge_slashes false t = ground arith in
            record { decoded = t; starts = y; decodes = ht; merged = e; passes = rw e good }
      ]
]

Passed-IsCanonical : (raw p : Text) → Passed raw p → IsCanonical p
Passed-IsCanonical raw p x = record {
  absolute =
      rw (x.merged, merge_slashes-starts_slash)
        (decode-starts_slash raw x.decoded x.starts x.decodes);
  encoded =
      rw x.merged
        (merge_slashes-is_encoded false x.decoded (decode-is_encoded raw x.decoded x.decodes).0);
  single = rw x.merged (merge_slashes-has_double_slash false x.decoded).0;
  dotless = has_dot_segment_complete p x.passes;
}

root_passes : has_dot_segment (codes "/") ≡ false
unfolding split before text_eq
root_passes = refl

-- Whatever the client sends, a path that is let through is in canonical form: absolute, without a
-- repeated slash, with every percent escape standing for a reserved byte in upper-case digits, and
-- with no segment that is a dot segment, with path parameters or without.
pub normalize_path-IsCanonical : (raw p : Text) → normalize_path raw ≡ ok p → IsCanonical p
normalize_path-IsCanonical (c ∷ s) p h =
    Passed-IsCanonical (c ∷ s) p (normalize_path-Passed c s p h)
normalize_path-IsCanonical [] p h =
    let e : p ≡ codes "/" = unfold normalize_path in ground arith in
    rw e (record {
      absolute = refl;
      encoded = unfold is_encoded in refl;
      single = unfold has_double_slash in refl;
      dotless = has_dot_segment_complete (codes "/") root_passes;
    })

pub normalize_path_steps :
    (p : Text)
    → starts_slash p ≡ true
    → normalize_path p ≡ (decode p >>= λ t. check_segments (merge_slashes false t))
unfolding normalize_path
normalize_path_steps [] h = ground arith
normalize_path_steps (c ∷ s) h = rw h

normalize_path-root : normalize_path (codes "/") ≡ ok (codes "/")
unfolding normalize_path decode merge_slashes split before text_eq
normalize_path-root = refl

-- Normalising is done once and for all: a path that was let through is let through again as it
-- stands, so the routes matched and the path forwarded upstream cannot come to disagree.
pub normalize_path_idempotent : (raw p : Text) → normalize_path raw ≡ ok p → normalize_path p ≡ ok p
normalize_path_idempotent [] p h =
    let e : p ≡ codes "/" = unfold normalize_path in ground arith in rw e normalize_path-root
normalize_path_idempotent (c ∷ s) p h =
    let x = normalize_path-Passed c s p h in
    let n = Passed-IsCanonical (c ∷ s) p x in
    rw (normalize_path_steps p n.absolute, decode_of_is_encoded p n.encoded)
      (rw (merge_slashes_of_single p n.single, x.passes))
