-- ===== src/Hostname/Comparing.antt =====
-- How the matches of hostnames of crates/gapura-core/src/hostname.rs relate: what matches through
-- another name, and that two names that match one host match one another.
use gapura.Prelude.{
  ◌≡◌, refl, sym, ap, ◌∙◌, ◌≢◌, ◌⊎◌, inl, inr, true, none, [], ◌∷◌, ◌++◌, arith, Text, codes,
  to_ascii_lowercase, to_lower, append_assoc, eq_of_iff, strip_prefix,
}
use gapura.Hostname.{matches}
use gapura.Hostname.Suffix.{
  Labelled, wildcard, pattern-cases, matches-exact, matches-wildcard, wildcard_of_lower,
  exact_ne_wildcard,
}

lower_wildcard : (s : Text) → to_ascii_lowercase (wildcard s) ≡ b'*' ∷ b'.' ∷ to_ascii_lowercase s
lower_wildcard s = unfold to_lower in refl

-- In an exact name's place a wildcard with the same text in lower case cannot stand.
exact_of_lower :
    (p q : Text)
    → strip_prefix (codes "*.") p ≡ none
    → to_ascii_lowercase p ≡ to_ascii_lowercase q
    → strip_prefix (codes "*.") q ≡ none
exact_of_lower p q n e = elim (pattern-cases q) [
  | inl m ↦ m
  | inr (s, j) ↦
      let (t, k) =
        wildcard_of_lower p (to_ascii_lowercase s)
          (e ∙ (ap to_ascii_lowercase j ∙ lower_wildcard s)) in
      absurd (exact_ne_wildcard t (rw k at n))
]

-- One case of a match, as data: the name itself, or a wildcard with one more label.
data Matched (p h : Text) : Type 0 where
  exact :
      strip_prefix (codes "*.") p ≡ none → to_ascii_lowercase p ≡ to_ascii_lowercase h → Matched p h
  labelled :
      (s : Text)
      → p ≡ wildcard s
      → Labelled (to_ascii_lowercase s) (to_ascii_lowercase h)
      → Matched p h

matched : (p h : Text) → matches p h ≡ true → Matched p h
matched p h m = elim (pattern-cases p) [
  | inl n ↦ exact n ((matches-exact p h n).0 m)
  | inr (s, e) ↦ labelled s e ((matches-wildcard s h).0 (rw e at m))
]

matches_of : (p h : Text) → Matched p h → matches p h ≡ true
matches_of p h (exact n e) = (matches-exact p h n).1 e
matches_of p h (labelled s e x) = rw e ((matches-wildcard s h).1 x)

-- A label in front of a name that has one already.
Labelled-wildcard : (s t h : Text) → Labelled s (b'*' ∷ b'.' ∷ t) → Labelled t h → Labelled s h
Labelled-wildcard s t h x y = go x.label x.non_empty x.joined
  where
    go : (label : Text) → label ≢ [] → (b'*' ∷ b'.' ∷ t) ≡ label ++ b'.' ∷ s → Labelled s h
    go [] n e = absurd (n refl)
    go (c ∷ label) n e =
        let tail : (b'.' ∷ t) ≡ label ++ b'.' ∷ s = cc e in
        record {
          label = y.label ++ label;
          non_empty = λ k. y.non_empty (nil_left y.label label k);
          joined = y.joined ∙ (rw tail (sym (append_assoc y.label label _)));
        }
      where
        nil_left : (a b : Text) → a ++ b ≡ [] → a ≡ []
        nil_left [] b k = refl
        nil_left (d ∷ a) b k = ground arith

-- What a name on the listener's side matches, it matches through a narrower name on the route's.
pub matches_trans : (l r x : Text) → matches l r ≡ true → matches r x ≡ true → matches l x ≡ true
matches_trans l r x h k = matches_of l x (go (matched l r h) (matched r x k))
  where
    go : Matched l r → Matched r x → Matched l x
    go (exact n e) (exact m f) = exact n (e ∙ f)
    go (exact n e) (labelled t j y) =
        absurd (exact_ne_wildcard t (rw j at (exact_of_lower l r n e)))
    go (labelled s j y) (exact m f) = labelled s j (rw f at y)
    go (labelled s j y) (labelled t i z) = labelled s j (
        Labelled-wildcard (to_ascii_lowercase s) (to_ascii_lowercase t) _
          (rw (i, lower_wildcard t) at y) z)

overlap :
    (a b s t : Text)
    → a ++ b'.' ∷ s ≡ b ++ b'.' ∷ t
    → ((z : Text) × (b'.' ∷ t ≡ z ++ b'.' ∷ s)) ⊎ ((z : Text) × (b'.' ∷ s ≡ z ++ b'.' ∷ t))
overlap [] b s t e = inr (b, e)
overlap (c ∷ a) [] s t e = inl (c ∷ a, sym e)
overlap (c ∷ a) (d ∷ b) s t e = overlap a b s t (cc e)

wildcard_matches_wildcard :
    (s t z : Text)
    → b'.' ∷ to_ascii_lowercase t ≡ z ++ b'.' ∷ to_ascii_lowercase s
    → matches (wildcard s) (wildcard t) ≡ true
wildcard_matches_wildcard s t z e = (matches-wildcard s (wildcard t)).1 (record {
  label = b'*' ∷ z;
  non_empty = λ k. absurd (cc k);
  joined = lower_wildcard t ∙ ap (◌∷◌ b'*') e;
})

-- Two names that match one host match one another, one way round or the other.
pub matches_comparable :
    (l r x : Text)
    → matches l x ≡ true
    → matches r x ≡ true
    → (matches l r ≡ true) ⊎ (matches r l ≡ true)
matches_comparable l r x h k = go (matched l x h) (matched r x k)
  where
    go : Matched l x → Matched r x → (matches l r ≡ true) ⊎ (matches r l ≡ true)
    go (exact n e) (exact m f) = inl (matches_of l r (exact n (e ∙ sym f)))
    go (exact n e) (labelled t j y) = inr (matches_of r l (labelled t j (rw e y)))
    go (labelled s j y) (exact m f) = inl (matches_of l r (labelled s j (rw f y)))
    go (labelled s j y) (labelled t i z) =
        elim (overlap y.label z.label _ _ (sym y.joined ∙ z.joined)) [
          | inl (w, e) ↦ inl (rw (j, i) (wildcard_matches_wildcard s t w e))
          | inr (w, e) ↦ inr (rw (j, i) (wildcard_matches_wildcard t s w e))
        ]

pub to_lower_idem : (s : Text) → to_ascii_lowercase (to_ascii_lowercase s) ≡ to_ascii_lowercase s
unfolding to_lower
to_lower_idem [] = refl
to_lower_idem (c ∷ s) = ground (arith, to_lower_idem s)

-- The case of a pattern's letters does not matter.
pub matches-lower : (p x : Text) → matches (to_ascii_lowercase p) x ≡ matches p x
matches-lower p x =
    eq_of_iff (matches (to_ascii_lowercase p) x) (matches p x)
      (λ h. matches_of p x (back (matched _ x h))) (λ h. matches_of _ x (forth (matched p x h)))
  where
    forth : Matched p x → Matched (to_ascii_lowercase p) x
    forth (exact n e) =
        exact (exact_of_lower p (to_ascii_lowercase p) n (sym (to_lower_idem p)))
          (to_lower_idem p ∙ e)
    forth (labelled s j y) =
        labelled (to_ascii_lowercase s) (rw j (lower_wildcard s)) (rw (to_lower_idem s) y)

    wildcard_tail : (a b : Text) → b'*' ∷ b'.' ∷ a ≡ b'*' ∷ b'.' ∷ b → a ≡ b
    wildcard_tail a b e = cc e

    back : Matched (to_ascii_lowercase p) x → Matched p x
    back (exact n e) =
        exact (exact_of_lower (to_ascii_lowercase p) p n (to_lower_idem p))
          (sym (to_lower_idem p) ∙ e)
    back (labelled s j y) =
        let (t, i) = wildcard_of_lower p s j in
        let same : to_ascii_lowercase s ≡ to_ascii_lowercase t = wildcard_tail _ _ (
          sym (lower_wildcard s)
          ∙ (sym (ap to_ascii_lowercase j)
              ∙ (to_lower_idem p ∙ (ap to_ascii_lowercase i ∙ lower_wildcard t)))) in
        labelled t i (rw same at y)
