-- ===== src/Hostname/Ordered.antt =====
-- The form of what `intersect` of crates/gapura-core/src/hostname.rs returns.
use gapura.Prelude.{
  ◌≡◌, refl, sym, ap, ◌∙◌, inl, inr, true, ◌&&◌, not, Option, none, some, List, [], ◌∷◌, ◌++◌, map,
  arith, Text, to_ascii_lowercase, text_eq, text_eq_iff, text_le, text_le_total, Bool-cases,
  Option-cases, All,
}
use gapura.Hostname.{insert_text, sort, dedup, narrower, narrow, candidates, intersect}
use gapura.Hostname.Comparing.{to_lower_idem}

-- `<` and `≤` hold between neighbours.
abbrev pub IsAscending : List Text → Type 0
IsAscending [] = Unit
IsAscending (x ∷ []) = Unit
IsAscending (x ∷ y ∷ xs) = ((text_le x y && not (text_eq x y)) ≡ true) × IsAscending (y ∷ xs)

abbrev IsSorted : List Text → Type 0
IsSorted [] = Unit
IsSorted (x ∷ []) = Unit
IsSorted (x ∷ y ∷ xs) = (text_le x y ≡ true) × IsSorted (y ∷ xs)

insert_text-IsSorted : (h : Text) (xs : List Text) → IsSorted xs → IsSorted (insert_text h xs)
unfolding insert_text
insert_text-IsSorted h [] s = tt
insert_text-IsSorted h (x ∷ []) s = elim (Bool-cases (text_le h x)) [
  | inl e ↦ rw e (e, tt)
  | inr e ↦ rw e (ground (arith, text_le_total h x), tt)
]
insert_text-IsSorted h (x ∷ y ∷ xs) s = elim (Bool-cases (text_le h x)) [
  | inl e ↦ rw e (e, s)
  | inr e ↦ rw e (elim (Bool-cases (text_le h y)) [
    | inl f ↦ rw f (ground (arith, text_le_total h x), (f, s.1))
    | inr f ↦ rw f (s.0, rw f at (insert_text-IsSorted h (y ∷ xs) s.1))
  ])
]

sort-IsSorted : (xs : List Text) → IsSorted (sort xs)
unfolding sort
sort-IsSorted [] = tt
sort-IsSorted (x ∷ xs) = insert_text-IsSorted x (sort xs) (sort-IsSorted xs)

-- What is left begins with what came first.
dedup_first : (y : Text) (xs : List Text) → (rest : List Text) × (dedup (y ∷ xs) ≡ y ∷ rest)
unfolding dedup
dedup_first y [] = ([], refl)
dedup_first y (z ∷ xs) = elim (Bool-cases (text_eq y z)) [
  | inl e ↦
      let (rest, h) = dedup_first z xs in
      (rest, rw e (h ∙ ap (λ a. a ∷ rest) (sym ((text_eq_iff y z).0 e))))
  | inr e ↦ (dedup (z ∷ xs), rw e)
]

above :
    (x y : Text) (xs : List Text)
    → (text_le x y && not (text_eq x y)) ≡ true
    → IsAscending (dedup (y ∷ xs))
    → IsAscending (x ∷ dedup (y ∷ xs))
above x y xs lt h = let (rest, e) = dedup_first y xs in rw e (lt, rw e at h)

dedup-IsAscending : (xs : List Text) → IsSorted xs → IsAscending (dedup xs)
unfolding dedup
dedup-IsAscending [] s = tt
dedup-IsAscending (x ∷ []) s = tt
dedup-IsAscending (x ∷ y ∷ xs) s = elim (Bool-cases (text_eq x y)) [
  | inl e ↦ rw e (dedup-IsAscending (y ∷ xs) s.1)
  | inr e ↦ rw e (above x y xs (ground arith) (dedup-IsAscending (y ∷ xs) s.1))
]

abbrev IsLower : Text → Type 0
IsLower h = to_ascii_lowercase h ≡ h

insert_text-All :
    (P : Text → Type 0) (h : Text) (xs : List Text) → P h → All P xs → All P (insert_text h xs)
unfolding insert_text
insert_text-All P h [] p s = (p, tt)
insert_text-All P h (x ∷ xs) p s = ground (arith, insert_text-All P h xs p s.1)

sort-All : (P : Text → Type 0) (xs : List Text) → All P xs → All P (sort xs)
unfolding sort
sort-All P [] s = tt
sort-All P (x ∷ xs) s = insert_text-All P x (sort xs) s.0 (sort-All P xs s.1)

dedup-All : (P : Text → Type 0) (xs : List Text) → All P xs → All P (dedup xs)
unfolding dedup
dedup-All P [] s = tt
dedup-All P (x ∷ []) s = s
dedup-All P (x ∷ y ∷ xs) s = ground (arith, dedup-All P (y ∷ xs) s.1)

All-append : (P : Text → Type 0) (xs ys : List Text) → All P xs → All P ys → All P (xs ++ ys)
All-append P [] ys h k = k
All-append P (x ∷ xs) ys h k = (h.0, All-append P xs ys h.1 k)

map-IsLower : (xs : List Text) → All IsLower (map to_ascii_lowercase xs)
map-IsLower [] = tt
map-IsLower (x ∷ xs) = (to_lower_idem x, map-IsLower xs)

narrow-IsLower : (l : Text) (rs : List Text) → All IsLower (narrow l rs)
unfolding narrow narrower
narrow-IsLower l [] = tt
narrow-IsLower l (r ∷ rs) =
    All-append IsLower (narrower l r) (narrow l rs)
      (ground (arith, to_lower_idem l, to_lower_idem r)) (narrow-IsLower l rs)

candidates-IsLower :
    (listener : Option Text) (route out : List Text)
    → candidates listener route ≡ some out
    → All IsLower out
unfolding candidates
candidates-IsLower none [] out h = ground arith
candidates-IsLower none (r ∷ rs) out h =
    let e : out ≡ map to_ascii_lowercase (r ∷ rs) = ground arith in rw e (map-IsLower (r ∷ rs))
candidates-IsLower (some l) [] out h =
    let e : out ≡ to_ascii_lowercase l ∷ [] = ground arith in rw e (to_lower_idem l, tt)
candidates-IsLower (some l) (r ∷ rs) out h =
    let e : out ≡ narrow l (r ∷ rs) = ground arith in rw e (narrow-IsLower l (r ∷ rs))

-- The effective hostnames are in lower case, in ascending order, and no two of them are equal.
pub intersect-IsAscending :
    (listener : Option Text) (route out : List Text)
    → intersect listener route ≡ some out
    → IsAscending out × All IsLower out
unfolding intersect
intersect-IsAscending listener route out h = elim (Option-cases (candidates listener route)) [
  | inl n ↦ absurd (ground arith)
  | inr (found, e) ↦
      let j : out ≡ dedup (sort found) = ground arith in
      rw j (
        dedup-IsAscending (sort found) (sort-IsSorted found),
        dedup-All IsLower (sort found)
            (sort-All IsLower found (candidates-IsLower listener route found e)),
      )
]
