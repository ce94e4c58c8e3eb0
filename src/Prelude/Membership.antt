-- ===== src/Prelude/Membership.antt =====
-- Membership in filtered lists, and what a search through a list finds.
use mathlib.Core.Path.{◌≡◌, refl, ap}
use mathlib.Core.Logic.{◌↔◌, ◌⊎◌, inl, inr}
use mathlib.Core.Bool.{Bool, true, false}
use mathlib.Core.List.{List, [], ◌∷◌, ◌++◌, map}
use mathlib.Core.Option.{none, some}
use native.Mathlib.Omega.{arith}
use gapura.Prelude.Tests.{Bool-cases}
use gapura.Prelude.Lists.{In, All, any, all, find, filter_by}

module _ {A : Type 0} (p : A → Bool) where
  filter_by_sound : (x : A) (xs : List A) → In x (filter_by p xs) → In x xs × (p x ≡ true)
  filter_by_sound x [] i = absurd i
  filter_by_sound x (y ∷ ys) i = elim (Bool-cases (p y)) [
    | inl e ↦
        let found : (x ≡ y) ⊎ In x (filter_by p ys) = rw e at i in
        elim found [
          | inl j ↦ (inl j, rw j e)
          | inr j ↦ let (k, q) = filter_by_sound x ys j in (inr k, q)
        ]
    | inr e ↦ let (k, q) = filter_by_sound x ys (rw e at i) in (inr k, q)
  ]

  filter_by_complete : (x : A) (xs : List A) → In x xs → p x ≡ true → In x (filter_by p xs)
  filter_by_complete x [] i e = absurd i
  filter_by_complete x (y ∷ ys) (inl j) e = let q : p y ≡ true = rw j at e in rw q (inl j)
  filter_by_complete x (y ∷ ys) (inr j) e = elim (Bool-cases (p y)) [
    | inl q ↦ rw q (inr (filter_by_complete x ys j e))
    | inr q ↦ rw q (filter_by_complete x ys j e)
  ]

  pub In-filter_by : (x : A) (xs : List A) → In x (filter_by p xs) ↔ (In x xs × (p x ≡ true))
  In-filter_by x xs = (filter_by_sound x xs, λ h. filter_by_complete x xs h.0 h.1)

  pub any→In : (xs : List A) → any p xs ≡ true → (x : A) × In x xs × (p x ≡ true)
  any→In [] h = absurd (ground arith)
  any→In (x ∷ xs) h = elim (Bool-cases (p x)) [
    | inl e ↦ (x, inl refl, e)
    | inr e ↦ let (y, i, k) = any→In xs (rw e at h) in (y, inr i, k)
  ]

  pub In→any : (x : A) (xs : List A) → In x xs → p x ≡ true → any p xs ≡ true
  In→any x [] i e = absurd i
  In→any x (y ∷ ys) (inl j) e = let q : p y ≡ true = rw j at e in rw q
  In→any x (y ∷ ys) (inr j) e = ground (arith, In→any x ys j e)

  pub find→In : (xs : List A) (x : A) → find p xs ≡ some x → In x xs × (p x ≡ true)
  find→In [] x h = absurd (ground arith)
  find→In (y ∷ ys) x h = elim (Bool-cases (p y)) [
    | inl e ↦ let same : y ≡ x = ground arith in rw (← same) (inl refl, e)
    | inr e ↦ let (i, k) = find→In ys x (rw e at h) in (inr i, k)
  ]

  pub find-none : (x : A) (xs : List A) → find p xs ≡ none → In x xs → p x ≡ false
  find-none x [] h i = absurd i
  find-none x (y ∷ ys) h (inl j) = elim (Bool-cases (p y)) [
    | inl e ↦ absurd (ground arith)
    | inr e ↦ rw j e
  ]
  find-none x (y ∷ ys) h (inr j) = elim (Bool-cases (p y)) [
    | inl e ↦ absurd (ground arith)
    | inr e ↦ find-none x ys (rw e at h) j
  ]

pub All-In : {A : Type 0} (P : A → Type 0) (x : A) (xs : List A) → All P xs → In x xs → P x
All-In P x [] h i = absurd i
All-In P x (y ∷ ys) h (inl e) = rw e h.0
All-In P x (y ∷ ys) h (inr i) = All-In P x ys h.1 i

pub In-append : {A : Type 0} (x : A) (xs ys : List A) → In x (xs ++ ys) ↔ (In x xs ⊎ In x ys)
In-append x [] ys = (λ i. inr i, λ h. elim h [ inl i ↦ absurd i | inr i ↦ i ])
In-append x (y ∷ xs) ys = (
  λ i. elim i [
    | inl e ↦ inl (inl e)
    | inr j ↦ elim ((In-append x xs ys).0 j) [ inl k ↦ inl (inr k) | inr k ↦ inr k ]
  ],
  λ h. elim h [
    | inl (inl e) ↦ inl e
    | inl (inr j) ↦ inr ((In-append x xs ys).1 (inl j))
    | inr j ↦ inr ((In-append x xs ys).1 (inr j))
  ],
)

module _ {A B : Type 0} (f : A → B) where
  pub In-map_sound : (y : B) (xs : List A) → In y (map f xs) → (x : A) × In x xs × (y ≡ f x)
  In-map_sound y [] i = absurd i
  In-map_sound y (x ∷ xs) (inl e) = (x, inl refl, e)
  In-map_sound y (x ∷ xs) (inr i) = let (z, j, e) = In-map_sound y xs i in (z, inr j, e)

  pub In-map : (x : A) (xs : List A) → In x xs → In (f x) (map f xs)
  In-map x [] i = absurd i
  In-map x (y ∷ ys) (inl e) = inl (ap f e)
  In-map x (y ∷ ys) (inr i) = inr (In-map x ys i)

pub All-weaken :
    {A : Type 0} (P Q : A → Type 0) (xs : List A) → ((x : A) → P x → Q x) → All P xs → All Q xs
All-weaken P Q [] f h = tt
All-weaken P Q (x ∷ xs) f h = (f x h.0, All-weaken P Q xs f h.1)

-- What holds of each member.
pub All-intro : {A : Type 0} (P : A → Type 0) (xs : List A) → ((x : A) → In x xs → P x) → All P xs
All-intro P [] f = tt
All-intro P (x ∷ xs) f = (f x (inl refl), All-intro P xs (λ y i. f y (inr i)))

module _ {A : Type 0} (p : A → Bool) where
  pub all→ : (xs : List A) → all p xs ≡ true → (x : A) → In x xs → p x ≡ true
  all→ [] h x i = absurd i
  all→ (y ∷ ys) h x (inl e) = let first : p y ≡ true = ground arith in rw e first
  all→ (y ∷ ys) h x (inr i) = all→ ys (ground arith) x i

  pub all_intro : (xs : List A) → ((x : A) → In x xs → p x ≡ true) → all p xs ≡ true
  all_intro [] f = refl
  all_intro (y ∷ ys) f = ground (arith, f y (inl refl), all_intro ys (λ x i. f x (inr i)))
