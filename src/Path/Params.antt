-- ===== src/Path/Params.antt =====
-- `without_path_params` of crates/gapura-core/src/path.rs: the path that a servlet container reads.
use gapura.Prelude.{
  ℕ, ◌≡◌, refl, ◌∙◌, Bool, true, false, ◌||◌, some, none, List, [], ◌∷◌, ◌++◌, map, arith, ◌==◌,
  Text, Bool-cases, inl, inr, text_eq, contains, split, extend_first, before, append-nil, All,
  filter_by, not, ◌↔◌,
}
use gapura.Path.{without_params, join_segments, join_first, without_path_params}
use gapura.Path.Canonical.{starts_slash, has_double_slash}

-- The segments that a path names: those that are not empty.
abbrev pub names : List Text → List Text
names = filter_by (λ seg. not (text_eq seg []))

abbrev Lacks : ℕ → Text → Type 0
Lacks c s = contains c s ≡ false

contains-append : (c : ℕ) (s t : Text) → contains c (s ++ t) ≡ (contains c s || contains c t)
unfolding contains
contains-append c [] t = refl
contains-append c (d ∷ s) t = ground (arith, contains-append c s t)

before-Lacks : (c : ℕ) (s : Text) → Lacks c (before c s)
unfolding contains before
before-Lacks c [] = refl
before-Lacks c (d ∷ s) = ground (arith, before-Lacks c s)

before_keeps : (c k : ℕ) (s : Text) → Lacks c s → Lacks c (before k s)
unfolding contains before
before_keeps c k [] h = refl
before_keeps c k (d ∷ s) h = ground (arith, before_keeps c k s)

extend_first-Lacks :
    (c d : ℕ) (segs : List Text)
    → (d == c) ≡ false
    → All (Lacks c) segs
    → All (Lacks c) (extend_first d segs)
unfolding contains
extend_first-Lacks c d [] e h = ground arith
extend_first-Lacks c d (seg ∷ segs) e h = ground arith

split-Lacks : (c : ℕ) (s : Text) → All (Lacks c) (split c s)
unfolding split
split-Lacks c [] = unfold contains in (refl, tt)
split-Lacks c (d ∷ s) = elim (Bool-cases (d == c)) [
  | inl e ↦ rw e (contains_nil c, split-Lacks c s)
  | inr e ↦ rw e (extend_first-Lacks c d (split c s) e (split-Lacks c s))
]
  where
    contains_nil : (c : ℕ) → Lacks c []
    contains_nil c = unfold contains in refl

-- Stripped segments hold neither separator.
abbrev IsPlain : Text → Type 0
IsPlain seg = Lacks b'/' seg × Lacks b';' seg

map-IsPlain : (segs : List Text) → All (Lacks b'/') segs → All IsPlain (map without_params segs)
map-IsPlain [] h = tt
map-IsPlain (seg ∷ segs) h =
    ((before_keeps b'/' b';' seg h.0, before-Lacks b';' seg), map-IsPlain segs h.1)

abbrev stripped : Text → List Text
stripped path = map without_params (split b'/' path)

stripped-IsPlain : (path : Text) → All IsPlain (stripped path)
stripped-IsPlain path = map-IsPlain (split b'/' path) (split-Lacks b'/' path)

split_slash : (w s : Text) → Lacks b'/' w → split b'/' (w ++ b'/' ∷ s) ≡ w ∷ split b'/' s
unfolding split contains
split_slash [] s h = refl
split_slash (c ∷ w) s h = elim (Bool-cases (c == b'/')) [
  | inl e ↦ absurd (ground arith)
  | inr e ↦ rw (e, split_slash w s (ground arith))
]

split_plain : (w : Text) → Lacks b'/' w → split b'/' w ≡ w ∷ []
unfolding split contains
split_plain [] h = refl
split_plain (c ∷ w) h = elim (Bool-cases (c == b'/')) [
  | inl e ↦ absurd (ground arith)
  | inr e ↦ rw (e, split_plain w (ground arith))
]

join_segments-Lacks :
    (ends : Bool) (segs : List Text) → All IsPlain segs → Lacks b';' (join_segments ends segs)
unfolding join_segments
join_segments-Lacks ends [] h = unfold contains in refl
join_segments-Lacks true (seg ∷ segs) h =
    contains-append b';' seg _ ∙ ground (arith, join_segments-Lacks (text_eq seg []) segs)
join_segments-Lacks false (seg ∷ segs) h =
    contains_slash (seg ++ join_segments (text_eq seg []) segs)
    ∙ (contains-append b';' seg _ ∙ ground (arith, join_segments-Lacks (text_eq seg []) segs))
  where
    contains_slash : (s : Text) → contains b';' (b'/' ∷ s) ≡ contains b';' s
    contains_slash s = unfold contains in refl

has_double_slash-append :
    (w s : Text) → Lacks b'/' w → has_double_slash (w ++ s) ≡ has_double_slash s
unfolding contains has_double_slash
has_double_slash-append [] s h = refl
has_double_slash-append (c ∷ w) s h = ground (arith, has_double_slash-append w s)

starts_slash-append :
    (w s : Text)
    → Lacks b'/' w
    → (starts_slash (w ++ s) ≡ true)
    → (w ≡ []) × (starts_slash s ≡ true)
unfolding contains
starts_slash-append [] s h k = (refl, k)
starts_slash-append (c ∷ w) s h k = absurd (ground arith)

-- What is pushed after a slash does not start with one, and nothing that is pushed repeats one.
join_segments-single :
    (segs : List Text)
    → All IsPlain segs
    → (has_double_slash (join_segments true segs) ≡ false)
      × (starts_slash (join_segments true segs) ≡ false)
      × (has_double_slash (join_segments false segs) ≡ false)
unfolding join_segments has_double_slash text_eq
join_segments-single [] h = (refl, refl, refl)
join_segments-single ([] ∷ segs) h = ground (arith, join_segments-single segs)
join_segments-single ((c ∷ w) ∷ segs) h =
    let ih = join_segments-single segs h.1 in
    let same = has_double_slash-append (c ∷ w) (join_segments false segs) h.0.0 in
    let apart = starts_slash-append (c ∷ w) (join_segments false segs) h.0.0 in
    ground (arith, same, apart)

names-cons : (w : Text) (xs ys : List Text) → names xs ≡ names ys → names (w ∷ xs) ≡ names (w ∷ ys)
names-cons w xs ys h = elim (Bool-cases (text_eq w [])) [ inl e ↦ rw (e, h) | inr e ↦ rw (e, h) ]

names-split_joined :
    (w : Text) (segs : List Text)
    → Lacks b'/' w
    → names (split b'/' (join_segments true segs)) ≡ names segs
    → names (split b'/' (w ++ join_segments false segs)) ≡ names (w ∷ segs)
unfolding join_segments
names-split_joined w [] h ih = rw (append-nil, split_plain w h)
names-split_joined w (seg ∷ segs) h ih = rw (split_slash w _ h) (names-cons w _ (seg ∷ segs) ih)

names-join_segments :
    (segs : List Text)
    → All IsPlain segs
    → names (split b'/' (join_segments true segs)) ≡ names segs
unfolding join_segments text_eq
names-join_segments [] h = rw (split_plain [] (unfold contains in refl))
names-join_segments ([] ∷ segs) h = names-join_segments segs h.1
names-join_segments ((c ∷ w) ∷ segs) h =
    names-split_joined (c ∷ w) segs h.0.0 (names-join_segments segs h.1)

-- `q` names the segments `segs`, with no path parameter and no repeated slash.
pub record Names (segs : List Text) (q : Text) : Type 0 where
  pub lacks : contains b';' q ≡ false
  pub named : names (split b'/' q) ≡ names segs
  pub single : has_double_slash q ≡ false

join_first-Names : (segs : List Text) → All IsPlain segs → Names segs (join_first segs)
unfolding join_first
join_first-Names [] h = record {
  lacks = unfold contains in refl;
  named = rw (split_plain [] (unfold contains in refl)) (unfold text_eq in refl);
  single = unfold has_double_slash in refl;
}
join_first-Names (w ∷ segs) h = record {
  lacks = contains-append b';' w _ ∙ ground (arith, join_segments-Lacks false segs h.1);
  named = names-split_joined w segs h.0.0 (names-join_segments segs h.1);
  single =
      has_double_slash-append w (join_segments false segs) h.0.0
      ∙ (join_segments-single segs h.1).2;
}

-- A path is stripped exactly if it carries a `;`; what a servlet container then reads names the
-- same segments, each without its parameters and those that this leaves empty dropped, and has
-- neither a `;` nor a repeated slash.
pub without_path_params-Names :
    (path : Text)
    → ((without_path_params path ≡ none) ↔ (contains b';' path ≡ false))
      × ((q : Text)
          → without_path_params path ≡ some q
          → Names (map without_params (split b'/' path)) q)
unfolding without_path_params
without_path_params-Names path = (
  (ground arith, ground arith),
  λ q h. rw (← joined q h) (join_first-Names (stripped path) (stripped-IsPlain path)),
)
  where
    joined : (q : Text) → without_path_params path ≡ some q → join_first (stripped path) ≡ q
    joined q h = ground arith
