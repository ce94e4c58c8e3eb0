-- ===== src/Prelude/Order.antt =====
-- Total preorders as Boolean tests, their reverses and lexicographic products (`Reverse` and the
-- order of tuples in Rust), and the stable sort by one.
use Prim.Native.Nat.{ℕ}
use mathlib.Core.Path.{◌≡◌}
use mathlib.Core.Logic.{◌⊎◌, inl, inr}
use mathlib.Core.Bool.{Bool, true, not, ◌&&◌, ◌||◌}
use mathlib.Core.List.{List, [], ◌∷◌, Perm}
use mathlib.Core.List.Perm
use gapura.Prelude.Lists.{In, All}
use native.Mathlib.Omega.{arith}
use gapura.Prelude.Tests.{leb, if◌then◌else◌, Bool-cases}
use gapura.Prelude.Bytes.{Text, text_le, text_le_total, text_le_trans}

pub record Order (A : Type 0) : Type 0 where
  pub le : A → A → Bool
  pub total : (a b : A) → (le a b ≡ true) ⊎ (le b a ≡ true)
  pub trans : (a b c : A) → le a b ≡ true → le b c ≡ true → le a c ≡ true

pub leb_total : (a b : ℕ) → (leb a b ≡ true) ⊎ (leb b a ≡ true)
leb_total a b = ground arith

pub leb_trans : (a b c : ℕ) → leb a b ≡ true → leb b c ≡ true → leb a c ≡ true
leb_trans a b c h k = ground arith

abbrev pub nat_order : Order ℕ
nat_order = record { le = leb; total = leb_total; trans = leb_trans }

abbrev pub text_order : Order Text
text_order = record { le = text_le; total = text_le_total; trans = text_le_trans }

abbrev pub reverse_order : {A : Type 0} → Order A → Order A
reverse_order o = record {
  le = λ a b. o.le b a;
  total = λ a b. o.total b a;
  trans = λ a b c h k. o.trans c b a k h;
}

module _ {A B : Type 0} (o : Order A) (p : Order B) where
  -- The first components decide, and where they are equal the second.
  unfoldable pub lex_le : A × B → A × B → Bool
  lex_le (a, b) (c, d) = o.le a c && (not (o.le c a) || p.le b d)

  pub lex_total : (x y : A × B) → (lex_le x y ≡ true) ⊎ (lex_le y x ≡ true)
  unfolding lex_le
  lex_total (a, b) (c, d) = ground (arith, o.total a c, p.total b d)

  pub lex_trans : (x y z : A × B) → lex_le x y ≡ true → lex_le y z ≡ true → lex_le x z ≡ true
  unfolding lex_le
  lex_trans (a, b) (c, d) (e, f) h k =
      ground (arith, o.trans a c e, o.trans e a c, o.trans c e a, p.trans b d f)

  abbrev pub pair_order : Order (A × B)
  pair_order = record { le = lex_le; total = lex_total; trans = lex_trans }

-- `sort_by_cached_key`, with each element behind its key: stable, since an element is put in
-- front of those behind it in the list that have an equal key.
module _ {K A : Type 0} (o : Order K) where
  unfoldable pub insert_keyed : K × A → List (K × A) → List (K × A)
  insert_keyed x [] = x ∷ []
  insert_keyed x (y ∷ ys) =
      let rest = insert_keyed x ys in if o.le x.0 y.0 then x ∷ y ∷ ys else y ∷ rest

  unfoldable pub sort_keyed : List (K × A) → List (K × A)
  sort_keyed [] = []
  sort_keyed (x ∷ xs) = insert_keyed x (sort_keyed xs)

  -- No element has a key above that of one behind it.
  abbrev pub IsSortedBy : List (K × A) → Type 0
  IsSortedBy [] = Unit
  IsSortedBy (x ∷ xs) = All (λ y. o.le x.0 y.0 ≡ true) xs × IsSortedBy xs

  insert_keyed-All :
      (P : K × A → Type 0) (x : K × A) (xs : List (K × A))
      → P x
      → All P xs
      → All P (insert_keyed x xs)
  unfolding insert_keyed
  insert_keyed-All P x [] p h = (p, tt)
  insert_keyed-All P x (y ∷ ys) p h = elim (Bool-cases (o.le x.0 y.0)) [
    | inl e ↦ rw e (p, h)
    | inr e ↦ rw e (h.0, insert_keyed-All P x ys p h.1)
  ]

  below-All :
      (x y : K × A) (ys : List (K × A))
      → o.le x.0 y.0 ≡ true
      → All (λ z. o.le y.0 z.0 ≡ true) ys
      → All (λ z. o.le x.0 z.0 ≡ true) ys
  below-All x y [] e h = tt
  below-All x y (z ∷ ys) e h = (o.trans x.0 y.0 z.0 e h.0, below-All x y ys e h.1)

  insert_keyed-IsSortedBy :
      (x : K × A) (xs : List (K × A)) → IsSortedBy xs → IsSortedBy (insert_keyed x xs)
  unfolding insert_keyed
  insert_keyed-IsSortedBy x [] s = (tt, tt)
  insert_keyed-IsSortedBy x (y ∷ ys) s = elim (Bool-cases (o.le x.0 y.0)) [
    | inl e ↦ rw e ((e, below-All x y ys e s.0), s)
    | inr e ↦ rw e (
      insert_keyed-All (λ z. o.le y.0 z.0 ≡ true) x ys (ground (arith, o.total x.0 y.0)) s.0,
      insert_keyed-IsSortedBy x ys s.1,
    )
  ]

  pub sort_keyed-IsSortedBy : (xs : List (K × A)) → IsSortedBy (sort_keyed xs)
  unfolding sort_keyed
  sort_keyed-IsSortedBy [] = tt
  sort_keyed-IsSortedBy (x ∷ xs) =
      insert_keyed-IsSortedBy x (sort_keyed xs) (sort_keyed-IsSortedBy xs)

  insert_keyed-perm : (x : K × A) (xs : List (K × A)) → Perm (insert_keyed x xs) (x ∷ xs)
  unfolding insert_keyed
  insert_keyed-perm x [] = Perm.refl (x ∷ [])
  insert_keyed-perm x (y ∷ ys) = elim (Bool-cases (o.le x.0 y.0)) [
    | inl e ↦ rw e (Perm.refl (x ∷ y ∷ ys))
    | inr e ↦ rw e (Perm.trans (Perm.cons y (insert_keyed-perm x ys)) (Perm.swap x y ys))
  ]

  pub sort_keyed-perm : (xs : List (K × A)) → Perm (sort_keyed xs) xs
  unfolding sort_keyed
  sort_keyed-perm [] = Perm.refl []
  sort_keyed-perm (x ∷ xs) =
      Perm.trans (insert_keyed-perm x (sort_keyed xs)) (Perm.cons x (sort_keyed-perm xs))

  In-insert_keyed : (z x : K × A) (xs : List (K × A)) → (z ≡ x) ⊎ In z xs → In z (insert_keyed x xs)
  unfolding insert_keyed
  In-insert_keyed z x [] h = h
  In-insert_keyed z x (y ∷ ys) h = elim (Bool-cases (o.le x.0 y.0)) [
    | inl e ↦ rw e h
    | inr e ↦ rw e (elim h [
      | inl p ↦ inr (In-insert_keyed z x ys (inl p))
      | inr (inl q) ↦ inl q
      | inr (inr i) ↦ inr (In-insert_keyed z x ys (inr i))
    ])
  ]

  -- Nothing that is sorted is lost.
  pub In-sort_keyed : (z : K × A) (xs : List (K × A)) → In z xs → In z (sort_keyed xs)
  unfolding sort_keyed
  In-sort_keyed z [] h = absurd h
  In-sort_keyed z (x ∷ xs) (inl e) = In-insert_keyed z x (sort_keyed xs) (inl e)
  In-sort_keyed z (x ∷ xs) (inr i) =
      In-insert_keyed z x (sort_keyed xs) (inr (In-sort_keyed z xs i))

  pub sort_keyed-All : (P : K × A → Type 0) (xs : List (K × A)) → All P xs → All P (sort_keyed xs)
  unfolding sort_keyed
  sort_keyed-All P [] h = tt
  sort_keyed-All P (x ∷ xs) h = insert_keyed-All P x (sort_keyed xs) h.0 (sort_keyed-All P xs h.1)
