-- ===== src/Access/Sources.antt =====
-- What the sorts and searches of crates/gapura-control/src/access.rs do to a list of sources.
use gapura.Prelude.{
  Text, ℕ, ◌<◌, ◌≤◌, ◌≡◌, ◌↔◌, ◌⊎◌, inl, inr, refl, ap, ap₂, ◌∙◌, true, List, [], ◌∷◌, map, none,
  some, arith, In, In-map, In-map_sound, All-In, All-intro, Bool-cases, text_eq, text_eq_iff,
  and-eq-true_iff, ltb,
}
use gapura.Prelude.Order.{sort_keyed, In-sort_keyed, sort_keyed-All}
use gapura.Access.{
  Role, rank, Source, superuser, direct, group, role_of, keyed, source_order, source_eq, max_role,
  highest, sorted, dedup_after, dedup,
}

rank-injective : (a b : Role) → rank a ≡ rank b → a ≡ b
rank-injective a b h = ground arith

source_eq→eq : (a b : Source) → source_eq a b ≡ true → a ≡ b
unfolding source_eq
source_eq→eq (superuser a) (superuser b) h = ap superuser (rank-injective a b (ground arith))
source_eq→eq (superuser a) (direct b) h = absurd (ground arith)
source_eq→eq (superuser a) (group m b) h = absurd (ground arith)
source_eq→eq (direct a) (superuser b) h = absurd (ground arith)
source_eq→eq (direct a) (direct b) h = ap direct (rank-injective a b (ground arith))
source_eq→eq (direct a) (group m b) h = absurd (ground arith)
source_eq→eq (group n a) (superuser b) h = absurd (ground arith)
source_eq→eq (group n a) (direct b) h = absurd (ground arith)
source_eq→eq (group n a) (group m b) h =
    let (names, roles) = (and-eq-true_iff (text_eq n m) _).0 h in
    ap₂ group ((text_eq_iff n m).0 names) (rank-injective a b (ground arith))

from_sorted :
    (k : (ℕ × (Text × ℕ)) × Source) (ss : List Source)
    → In k (sort_keyed source_order (map keyed ss))
    → In k (map keyed ss)
from_sorted k ss i =
    let kept = All-intro (λ z. In z (map keyed ss)) (map keyed ss) (λ z j. j) in
    All-In (λ z. In z (map keyed ss)) k _ (sort_keyed-All source_order _ (map keyed ss) kept) i

pub In-sorted : (s : Source) (ss : List Source) → In s (sorted ss) ↔ In s ss
unfolding sorted
In-sorted s ss = (
  λ i.
      let (k, j, e) = In-map_sound (λ k. k.1) s (sort_keyed source_order (map keyed ss)) i in
      let (x, l, q) = In-map_sound keyed k ss (from_sorted k ss j) in rw (e ∙ ap (λ k. k.1) q) l,
  λ i.
      In-map (λ k. k.1) (keyed s) _
        (In-sort_keyed source_order (keyed s) (map keyed ss) (In-map keyed s ss i)),
)

dedup_after_sound : (s last : Source) (ss : List Source) → In s (dedup_after last ss) → In s ss
unfolding dedup_after
dedup_after_sound s last [] i = i
dedup_after_sound s last (x ∷ ss) i = elim (Bool-cases (source_eq x last)) [
  | inl e ↦ inr (dedup_after_sound s last ss (rw e at i))
  | inr e ↦
      let i' : (s ≡ x) ⊎ In s (dedup_after x ss) = rw e at i in
      elim i' [ inl q ↦ inl q | inr j ↦ inr (dedup_after_sound s x ss j) ]
]

dedup_after_complete :
    (s last : Source) (ss : List Source) → In s ss → (s ≡ last) ⊎ In s (dedup_after last ss)
unfolding dedup_after
dedup_after_complete s last [] i = absurd i
dedup_after_complete s last (x ∷ ss) i = elim (Bool-cases (source_eq x last)) [
  | inl e ↦ rw e (elim i [
    | inl q ↦ inl (q ∙ source_eq→eq x last e)
    | inr j ↦ dedup_after_complete s last ss j
  ])
  | inr e ↦ rw e (inr (elim i [ inl q ↦ inl q | inr j ↦ dedup_after_complete s x ss j ]))
]

pub In-dedup : (s : Source) (ss : List Source) → In s (dedup ss) ↔ In s ss
In-dedup s [] = (λ i. i, λ i. i)
In-dedup s (x ∷ ss) = (
  λ i. elim i [ inl e ↦ inl e | inr j ↦ inr (dedup_after_sound s x ss j) ],
  λ i. elim i [ inl e ↦ inl e | inr j ↦ dedup_after_complete s x ss j ],
)

-- The role that some source gives and that no source is above.
pub record IsHighest (ss : List Source) (r : Role) : Type 0 where
  pub held : (s : Source) × In s ss × (role_of s ≡ r)
  pub above : (s : Source) → In s ss → rank (role_of s) ≤ rank r

-- One more source below a given role.
module _ (x y : Source) (ss : List Source) (r : Role) where
  under_kept : rank (role_of y) < rank (role_of x) → IsHighest (x ∷ ss) r → IsHighest (x ∷ y ∷ ss) r
  under_kept lt h = record {
    held = let (s, i, e) = h.held in (s, elim i [ inl q ↦ inl q | inr j ↦ inr (inr j) ], e);
    above = λ s i. elim i [
      | inl q ↦ h.above s (inl q)
      | inr (inl q) ↦ rw q (omega (arith, lt, h.above x (inl refl)))
      | inr (inr j) ↦ h.above s (inr j)
    ];
  }

  under_replaced :
      rank (role_of x) ≤ rank (role_of y) → IsHighest (y ∷ ss) r → IsHighest (x ∷ y ∷ ss) r
  under_replaced le h = record {
    held = let (s, i, e) = h.held in (s, inr i, e);
    above = λ s i. elim i [
      | inl q ↦ rw q (omega (arith, le, h.above y (inl refl)))
      | inr j ↦ h.above s j
    ];
  }

max_role-IsHighest : (x : Source) (ss : List Source) → IsHighest (x ∷ ss) (max_role (role_of x) ss)
unfolding max_role
max_role-IsHighest x [] = record {
  held = (x, inl refl, refl);
  above = λ s i. elim i [ inl e ↦ rw e (omega arith) | inr j ↦ absurd j ];
}
max_role-IsHighest x (y ∷ ss) = elim (Bool-cases (ltb (rank (role_of y)) (rank (role_of x)))) [
  | inl e ↦ rw e (under_kept x y ss _ (ground arith) (max_role-IsHighest x ss))
  | inr e ↦ rw e (under_replaced x y ss _ (ground arith) (max_role-IsHighest y ss))
]

pub highest-IsHighest : (ss : List Source) (r : Role) → highest ss ≡ some r → IsHighest ss r
highest-IsHighest [] r h = absurd (ground arith)
highest-IsHighest (x ∷ ss) r h =
    let same : max_role (role_of x) ss ≡ r = ground arith in rw (← same) (max_role-IsHighest x ss)

pub highest-none : (ss : List Source) → highest ss ≡ none → ss ≡ []
highest-none [] h = refl
highest-none (x ∷ ss) h = absurd (ground arith)
