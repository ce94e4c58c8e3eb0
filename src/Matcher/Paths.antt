-- ===== src/Matcher/Paths.antt =====
-- Which paths a match of crates/gapura-core/src/matcher.rs holds of.
use gapura.Prelude.{
  ◌≡◌, ◌↔◌, inl, inr, refl, ◌∙◌, true, false, [], ◌∷◌, ◌++◌, arith, ◌==◌, Bool-cases, Option-cases,
  Text, codes, text_eq, text_eq_iff, strip_prefix, strip_prefix-eq-some_iff,
}
use gapura.Config.{prefix}
use gapura.Matcher.{RegexMap, goes_on_with_slash, path_matches}

goes_on_sound :
    (p path : Text) → goes_on_with_slash p path ≡ true → (s : Text) × (path ≡ p ++ b'/' ∷ s)
unfolding goes_on_with_slash
goes_on_sound p path h = elim (Option-cases (strip_prefix p path)) [
  | inl n ↦ absurd (ground arith)
  | inr (rest, e) ↦ behind rest ((strip_prefix-eq-some_iff p path rest).0 e) (ground arith)
]
  where
    behind :
        (rest : Text)
        → path ≡ p ++ rest
        → (elim rest [ [] ↦ false | c ∷ s ↦ c == b'/' ]) ≡ true
        → (s : Text) × (path ≡ p ++ b'/' ∷ s)
    behind [] e h = absurd (ground arith)
    behind (c ∷ s) e h = let slash : c ≡ b'/' = ground arith in (s, e ∙ rw slash)

goes_on_complete : (p s : Text) → goes_on_with_slash p (p ++ b'/' ∷ s) ≡ true
unfolding goes_on_with_slash
goes_on_complete p s =
    rw ((strip_prefix-eq-some_iff p (p ++ b'/' ∷ s) (b'/' ∷ s)).1 refl, goes_on_with_slash)

-- A path under a prefix: the prefix itself, or one that goes on with a slash.
pub data IsUnder (p path : Text) : Type 0 where
  root : p ≡ codes "/" → IsUnder p path
  same : path ≡ p → IsUnder p path
  deeper : (s : Text) → path ≡ p ++ b'/' ∷ s → IsUnder p path

prefix_sound :
    (p path : Text) (regexes : RegexMap)
    → path_matches (prefix p) path regexes ≡ true
    → IsUnder p path
unfolding path_matches
prefix_sound p path regexes h = elim (Bool-cases (text_eq p (codes "/"))) [
  | inl e ↦ root ((text_eq_iff p (codes "/")).0 e)
  | inr n ↦ elim (Bool-cases (text_eq path p)) [
    | inl e ↦ same ((text_eq_iff path p).0 e)
    | inr m ↦ let (s, e) = goes_on_sound p path (ground arith) in deeper s e
  ]
]

prefix_complete :
    (p path : Text) (regexes : RegexMap)
    → IsUnder p path
    → path_matches (prefix p) path regexes ≡ true
unfolding path_matches
prefix_complete p path regexes (root e) = rw ((text_eq_iff p (codes "/")).1 e)
prefix_complete p path regexes (same e) = ground (arith, (text_eq_iff path p).1 e)
prefix_complete p path regexes (deeper s e) = ground (arith, rw (← e) at (goes_on_complete p s))

-- A prefix match holds at the boundaries of segments only: of every path for the root, and
-- otherwise of the prefix itself and of what goes on from it with a slash.
pub path_matches-IsUnder :
    (p path : Text) (regexes : RegexMap)
    → (path_matches (prefix p) path regexes ≡ true) ↔ IsUnder p path
path_matches-IsUnder p path regexes = (prefix_sound p path regexes, prefix_complete p path regexes)
