-- ===== src/Hostname/Tests.antt =====
-- The repository's own cases for crates/gapura-core/src/hostname.rs.
use gapura.Hostname.Intersection.{serves, listens, serves_any, intersect-serves}
use gapura.Prelude.{
  ◌&&◌, ◌≡◌, refl, some, none, true, false, [], ◌∷◌, codes, text_eq, text_le, to_lower,
  strip_prefix,
}
use gapura.Hostname.{
  has_suffix, matches, insert_text, sort, dedup, narrower, narrow, candidates, intersect,
  specificity,
}

program : Unit {0}
unfolding text_eq text_le to_lower strip_prefix has_suffix matches insert_text sort dedup narrower
    narrow candidates intersect specificity
program = tt

two_labels : matches (codes "*.Example.COM") (codes "b.a.example.com") ≡ true
unfolding program
two_labels = refl

no_label : matches (codes "*.example.com") (codes ".example.com") ≡ false
unfolding program
no_label = refl

table :
    intersect
      (some (codes "*.ex.com"))
      (codes "a.ex.com" ∷ codes "ex.com" ∷ codes "*.A.ex.com" ∷ [])
    ≡ some (codes "*.a.ex.com" ∷ codes "a.ex.com" ∷ [])
unfolding program
table = refl

apart : intersect (some (codes "*.a.com")) (codes "*.b.com" ∷ []) ≡ none
unfolding program
apart = refl

exact_kind : specificity (some (codes "a.b.c")) ≡ (2, 5)
unfolding program
exact_kind = refl

intersect-serves_example :
    serves_any (intersect (some (codes "*.ex.com")) (codes "*.a.ex.com" ∷ [])) (codes "b.a.ex.com")
    ≡ (listens (some (codes "*.ex.com")) (codes "b.a.ex.com")
        && serves (codes "*.a.ex.com" ∷ []) (codes "b.a.ex.com"))
intersect-serves_example =
    intersect-serves (some (codes "*.ex.com")) (codes "*.a.ex.com" ∷ []) (codes "b.a.ex.com")
