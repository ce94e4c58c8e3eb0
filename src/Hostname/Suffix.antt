-- ===== src/Hostname/Suffix.antt =====
-- What `matches` of crates/gapura-core/src/hostname.rs means, over names in lower case.
use gapura.Prelude.{
  ℕ, zero, suc, ◌+◌, ◌-◌, ◌<◌, ◌≡◌, refl, ap, ◌∙◌, ◌≢◌, ◌↔◌, ◌⊎◌, inl, inr, Bool, true, ◌&&◌,
  Option, none, some, List, [], ◌∷◌, ◌++◌, arith, ltb, length, take, drop, get_elem?, Text, codes,
  text_eq, text_eq_refl, text_eq_iff, to_lower, to_ascii_lowercase, Option-cases,
  strip_prefix-eq-some_iff, strip_prefix-append, strip_prefix, length-append,
}
use gapura.Hostname.{byte_is, has_suffix, matches}

-- Lists cut at an index.
split_at :
    {A : Type 0} (xs : List A) (n : ℕ) (c : A)
    → get_elem? xs n ≡ some c
    → xs ≡ take n xs ++ c ∷ drop (suc n) xs
split_at [] n c h = ground arith
split_at (x ∷ xs) zero c h = ground arith
split_at (x ∷ xs) (suc n) c h = ap (◌∷◌ x) (split_at xs n c h)

drop-middle : {A : Type 0} (xs ys : List A) (c : A) → drop (suc (length xs)) (xs ++ c ∷ ys) ≡ ys
drop-middle [] ys c = refl
drop-middle (x ∷ xs) ys c = drop-middle xs ys c

get_elem?-middle :
    {A : Type 0} (xs ys : List A) (c : A) → get_elem? (xs ++ c ∷ ys) (length xs) ≡ some c
get_elem?-middle [] ys c = refl
get_elem?-middle (x ∷ xs) ys c = get_elem?-middle xs ys c

length-take_of_lt : {A : Type 0} (n : ℕ) (xs : List A) → n < length xs → length (take n xs) ≡ n
length-take_of_lt zero xs h = refl
length-take_of_lt (suc n) [] h = absurd (omega arith)
length-take_of_lt (suc n) (x ∷ xs) h = omega (arith, length-take_of_lt n xs)

length-lower : (s : Text) → length (to_ascii_lowercase s) ≡ length s
length-lower [] = refl
length-lower (c ∷ s) = ap suc (length-lower s)

drop-lower : (n : ℕ) (s : Text) → drop n (to_ascii_lowercase s) ≡ to_ascii_lowercase (drop n s)
drop-lower zero s = refl
drop-lower (suc n) [] = refl
drop-lower (suc n) (c ∷ s) = drop-lower n s

byte_is-dot :
    (s : Text) (n : ℕ)
    → byte_is (get_elem? (to_ascii_lowercase s) n) b'.' ≡ byte_is (get_elem? s n) b'.'
unfolding to_lower
byte_is-dot [] n = refl
byte_is-dot (c ∷ s) zero = ground arith
byte_is-dot (c ∷ s) (suc n) = byte_is-dot s n

byte_is→some : (o : Option ℕ) (b : ℕ) → byte_is o b ≡ true → o ≡ some b
byte_is→some none b h = ground arith
byte_is→some (some c) b h = ground arith

-- A name that is a non-empty front, a dot and the suffix.
pub record Labelled (suffix h : Text) : Type 0 where
  pub label : Text
  pub non_empty : label ≢ []
  pub joined : h ≡ label ++ b'.' ∷ suffix

pos_length : (xs : Text) → xs ≢ [] → 0 < length xs
pos_length [] h = absurd (h refl)
pos_length (x ∷ xs) h = omega arith

-- The test without its foldings of case.
ends_labelled : Text → Text → Bool
ends_labelled s h =
    ltb (length s + 1) (length h)
    && (byte_is (get_elem? h (length h - length s - 1)) b'.'
        && text_eq (drop (length h - length s) h) s)

has_suffix-lower :
    (s h : Text) → has_suffix s h ≡ ends_labelled (to_ascii_lowercase s) (to_ascii_lowercase h)
unfolding has_suffix ends_labelled
has_suffix-lower s h =
    rw (length-lower s, length-lower h)
      (rw (byte_is-dot h (length h - length s - 1)) (rw (drop-lower (length h - length s) h)))

ends_labelled_sound : (s h : Text) → ends_labelled s h ≡ true → Labelled s h
unfolding ends_labelled
ends_labelled_sound s h e =
    let n = length h - length s - 1 in
    let longer : length s + 1 < length h = ground arith in
    let dot = byte_is→some (get_elem? h n) b'.' (ground arith) in
    let next : length h - length s ≡ suc n = omega arith in
    let tail : drop (suc n) h ≡ s = (text_eq_iff _ _).0 (rw next at (drop_tail e)) in
    record {
      label = take n h;
      non_empty = λ k. absurd (omega (arith, ap length k, length-take_of_lt n h));
      joined = split_at h n b'.' dot ∙ rw tail;
    }
  where
    drop_tail : ends_labelled s h ≡ true → text_eq (drop (length h - length s) h) s ≡ true
    drop_tail e = ground arith

ends_labelled_complete : (s h : Text) → Labelled s h → ends_labelled s h ≡ true
unfolding ends_labelled
ends_labelled_complete s h x =
    let label = x.label in
    let size : length h ≡ length label + suc (length s) =
      rw x.joined (length-append label (b'.' ∷ s)) in
    let at_dot : length h - length s - 1 ≡ length label = omega arith in
    let at_suffix : length h - length s ≡ suc (length label) = omega arith in
    let dot : get_elem? h (length label) ≡ some b'.' =
      rw x.joined (get_elem?-middle label s b'.') in
    let tail : drop (suc (length label)) h ≡ s = rw x.joined (drop-middle label s b'.') in
    rw (at_dot, at_suffix, dot, tail, text_eq_refl) (longer size)
  where
    longer :
        length h ≡ length x.label + suc (length s) → (ltb (length s + 1) (length h) && true) ≡ true
    longer e = ground (arith, pos_length x.label x.non_empty)

abbrev pub wildcard : Text → Text
wildcard s = codes "*." ++ s

-- A pattern is a wildcard or an exact name.
pub pattern-cases :
    (p : Text) → (strip_prefix (codes "*.") p ≡ none) ⊎ ((s : Text) × (p ≡ wildcard s))
pattern-cases p = elim (Option-cases (strip_prefix (codes "*.") p)) [
  | inl n ↦ inl n
  | inr (s, e) ↦ inr (s, (strip_prefix-eq-some_iff (codes "*.") p s).0 e)
]

pub matches-exact :
    (p h : Text)
    → strip_prefix (codes "*.") p ≡ none
    → (matches p h ≡ true) ↔ (to_ascii_lowercase p ≡ to_ascii_lowercase h)
unfolding matches
matches-exact p h n = rw (n, matches) (text_eq_iff _ _)

-- A wildcard matches the names that put one more label, of any form, in front of its suffix, in
-- any case of the letters.
pub matches-wildcard :
    (s h : Text)
    → (matches (wildcard s) h ≡ true) ↔ Labelled (to_ascii_lowercase s) (to_ascii_lowercase h)
matches-wildcard s h =
    let same : matches (wildcard s) h
        ≡ ends_labelled (to_ascii_lowercase s) (to_ascii_lowercase h) =
      unfold matches strip_prefix in has_suffix-lower s h in
    rw same (ends_labelled_sound _ _, ends_labelled_complete _ _)

-- A pattern is a wildcard in lower case exactly if it is one.
pub wildcard_of_lower :
    (p s : Text) → to_ascii_lowercase p ≡ wildcard s → (t : Text) × (p ≡ wildcard t)
unfolding to_lower
wildcard_of_lower [] s h = ground arith
wildcard_of_lower (c ∷ []) s h = ground arith
wildcard_of_lower (c ∷ d ∷ t) s h = (t, ground arith)

pub exact_ne_wildcard : (s : Text) → strip_prefix (codes "*.") (wildcard s) ≢ none
exact_ne_wildcard s h = cc (strip_prefix-append (codes "*.") s)
