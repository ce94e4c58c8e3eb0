-- ===== src/Hostname/Intersection.antt =====
-- `intersect` of crates/gapura-core/src/hostname.rs serves exactly the hosts that both sides allow.
use gapura.Prelude.{
  not, ◌≡◌, refl, sym, ap, ◌∙◌, inl, inr, Bool, true, false, ◌&&◌, ◌||◌, Option, none, some, List,
  [], ◌∷◌, ◌++◌, map, arith, any, Text, to_ascii_lowercase, text_eq, text_eq_iff, Bool-cases,
}
use gapura.Hostname.{matches, insert_text, sort, dedup, narrower, narrow, candidates, intersect}
use gapura.Hostname.Comparing.{matches_trans, matches_comparable, matches-lower}

-- A host that a list of names serves; an empty list names no one in particular and serves all.
abbrev pub serves : List Text → Text → Bool
serves [] x = true
serves (h ∷ hs) x = any (λ p. matches p x) (h ∷ hs)

abbrev pub listens : Option Text → Text → Bool
listens none x = true
listens (some l) x = matches l x

-- No intersection serves no one.
abbrev pub serves_any : Option (List Text) → Text → Bool
serves_any none x = false
serves_any (some out) x = serves out x

any-append :
    {A : Type 0} (p : A → Bool) (xs ys : List A) → any p (xs ++ ys) ≡ (any p xs || any p ys)
any-append p [] ys = refl
any-append p (x ∷ xs) ys = ground (arith, any-append p xs ys)

any-insert_text :
    (p : Text → Bool) (h : Text) (xs : List Text) → any p (insert_text h xs) ≡ (p h || any p xs)
unfolding insert_text
any-insert_text p h [] = refl
any-insert_text p h (x ∷ xs) = ground (arith, any-insert_text p h xs)

any-sort : (p : Text → Bool) (xs : List Text) → any p (sort xs) ≡ any p xs
unfolding sort
any-sort p [] = refl
any-sort p (x ∷ xs) = any-insert_text p x (sort xs) ∙ rw (any-sort p xs)

any-dedup : (p : Text → Bool) (xs : List Text) → any p (dedup xs) ≡ any p xs
unfolding dedup
any-dedup p [] = refl
any-dedup p (x ∷ []) = refl
any-dedup p (x ∷ y ∷ xs) = elim (Bool-cases (text_eq x y)) [
  | inl e ↦ rw e (any-dedup p (y ∷ xs) ∙ (rw ((text_eq_iff x y).0 e) (or_idem (p y) (any p xs))))
  | inr e ↦ rw e (ap (◌||◌ (p x)) (any-dedup p (y ∷ xs)))
]
  where
    or_idem : (a b : Bool) → (a || b) ≡ (a || (a || b))
    or_idem a b = ground arith

any-narrower : (l r x : Text) → any (λ p. matches p x) (narrower l r) ≡ (matches l x && matches r x)
unfolding narrower
any-narrower l r x = ground (
  arith,
  matches-lower r x,
  matches-lower l x,
  matches_trans l r x,
  matches_trans r l x,
  matches_comparable l r x,
)

any-narrow :
    (l x : Text) (rs : List Text)
    → any (λ p. matches p x) (narrow l rs) ≡ (matches l x && any (λ p. matches p x) rs)
unfolding narrow
any-narrow l x [] = ground arith
any-narrow l x (r ∷ rs) =
    any-append (λ p. matches p x) (narrower l r) (narrow l rs)
    ∙ ground (arith, any-narrower l r x, any-narrow l x rs)

any-map_lower :
    (x : Text) (rs : List Text)
    → any (λ p. matches p x) (map to_ascii_lowercase rs) ≡ any (λ p. matches p x) rs
any-map_lower x [] = refl
any-map_lower x (r ∷ rs) = ground (arith, matches-lower r x, any-map_lower x rs)

serves-candidates :
    (listener : Option Text) (route : List Text) (x : Text)
    → serves_any (candidates listener route) x ≡ (listens listener x && serves route x)
unfolding candidates
serves-candidates none [] x = refl
serves-candidates none (r ∷ rs) x = any-map_lower x (r ∷ rs)
serves-candidates (some l) [] x = ground (arith, matches-lower l x)
serves-candidates (some l) (r ∷ rs) x = ground (arith, any-narrow l x (r ∷ rs))

serves_of_any :
    (xs : List Text) (x : Text)
    → serves xs x ≡ (not (any (λ _. true) xs) || any (λ p. matches p x) xs)
serves_of_any [] x = refl
serves_of_any (h ∷ hs) x = refl

serves-tidy : (out : List Text) (x : Text) → serves (dedup (sort out)) x ≡ serves out x
serves-tidy out x =
    serves_of_any (dedup (sort out)) x
    ∙ (rw (any-dedup, any-sort) (rw (any-dedup, any-sort) (sym (serves_of_any out x))))

-- The effective hostnames serve a host exactly if the listener listens to it and the route names
-- it, for every host, and a side that names nothing lets every host through: nothing is lost and
-- nothing is gained, whichever side is the narrower, and an attachment is refused (`none`) only
-- when there is no host that both would serve.
pub intersect-serves :
    (listener : Option Text) (route : List Text) (x : Text)
    → serves_any (intersect listener route) x ≡ (listens listener x && serves route x)
unfolding intersect
intersect-serves listener route x =
    tidy (candidates listener route) ∙ serves-candidates listener route x
  where
    tidy :
        (c : Option (List Text))
        → serves_any (elim c [ none ↦ none | some out ↦ some (dedup (sort out)) ]) x
          ≡ serves_any c x
    tidy none = refl
    tidy (some out) = serves-tidy out x
