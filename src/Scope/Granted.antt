-- ===== src/Scope/Granted.antt =====
-- What the loops of crates/gapura-control/src/scope.rs collect.
use gapura.Prelude.{
  ◌≡◌, ◌⊎◌, inl, inr, refl, sym, ◌↔◌, List, [], ◌∷◌, none, some, Text, codes, text_eq, text_eq_iff,
  In, arith, Bool-cases, Option-cases,
}
use gapura.Scope.{Scope, all_namespaces, only, add_granted, granted_to, visible_from, visible}

-- One group's part: no star among it, and its namespaces added.
record IsAdded (old granted new : List Text) : Type 0 where
  pub starless : ¬ In (codes "*") granted
  pub added : (n : Text) → In n new ↔ (In n old ⊎ In n granted)

add_granted-IsAdded :
    (old granted new : List Text) → add_granted old granted ≡ some new → IsAdded old granted new
unfolding add_granted
add_granted-IsAdded old [] new h =
    let same : old ≡ new = ground arith in
    record {
      starless = λ i. i;
      added = λ n. rw same (λ i. inl i, λ j. elim j [ inl i ↦ i | inr i ↦ absurd i ]);
    }
add_granted-IsAdded old (g ∷ gs) new h = elim (Bool-cases (text_eq g (codes "*"))) [
  | inl e ↦ absurd (ground (arith, rw e at h))
  | inr e ↦
      let rest = add_granted-IsAdded (g ∷ old) gs new (rw e at h) in
      record {
        starless = λ i. elim i [
          | inl q ↦ absurd (ground (arith, e, (text_eq_iff g (codes "*")).1 (sym q)))
          | inr j ↦ rest.starless j
        ];
        added = λ n. (
          λ i. elim ((rest.added n).0 i) [
            | inl (inl q) ↦ inr (inl q)
            | inl (inr j) ↦ inl j
            | inr j ↦ inr (inr j)
          ],
          λ j.
              (rest.added n).1
                (elim j [ inl k ↦ inl (inr k) | inr (inl q) ↦ inl (inl q) | inr (inr k) ↦ inr k ]),
        );
      }
]

add_granted-none :
    (old granted : List Text) → add_granted old granted ≡ none → In (codes "*") granted
unfolding add_granted
add_granted-none old [] h = absurd (ground arith)
add_granted-none old (g ∷ gs) h = elim (Bool-cases (text_eq g (codes "*"))) [
  | inl e ↦ inl (sym ((text_eq_iff g (codes "*")).0 e))
  | inr e ↦ inr (add_granted-none (g ∷ old) gs (rw e at h))
]

module _ (mapping : List (Text × List Text)) where
  -- Some of the groups is mapped to the namespace.
  abbrev pub Granted : List Text → Text → Type 0
  Granted groups n = (g : Text) × In g groups × In n (granted_to mapping g)

  -- What a scope has to say of the groups, where some namespaces are already in it.
  abbrev pub IsScopeOf : List Text → List Text → Scope → Type 0
  IsScopeOf old groups all_namespaces = Granted groups (codes "*")
  IsScopeOf old groups (only new) =
      (¬ Granted groups (codes "*")) × ((n : Text) → In n new ↔ (In n old ⊎ Granted groups n))

  one_more :
      (old added groups : List Text) (g : Text) (s : Scope)
      → IsAdded old (granted_to mapping g) added
      → IsScopeOf added groups s
      → IsScopeOf old (g ∷ groups) s
  one_more old added groups g all_namespaces a (h, i, j) = (h, inr i, j)
  one_more old added groups g (only new) a (starless, lists) = (
    λ x. elim x.1 [ inl q ↦ a.starless (rw q at x.2) | inr i ↦ starless (x.0, i, x.2) ],
    λ n. (
      λ i. elim ((lists n).0 i) [
        | inl j ↦ elim ((a.added n).0 j) [ inl k ↦ inl k | inr k ↦ inr (g, inl refl, k) ]
        | inr (h, k, l) ↦ inr (h, inr k, l)
      ],
      λ j. (lists n).1 (elim j [
        | inl k ↦ inl ((a.added n).1 (inl k))
        | inr (h, inl q, l) ↦ inl ((a.added n).1 (inr (rw q at l)))
        | inr (h, inr k, l) ↦ inr (h, k, l)
      ]),
    ),
  )

  visible_from-IsScopeOf :
      (old groups : List Text) → IsScopeOf old groups (visible_from mapping old groups)
  unfolding visible_from
  visible_from-IsScopeOf old [] =
      (λ x. x.1, λ n. (λ i. inl i, λ j. elim j [ inl i ↦ i | inr x ↦ absurd x.1 ]))
  visible_from-IsScopeOf old (g ∷ groups) =
      elim (Option-cases (add_granted old (granted_to mapping g))) [
        | inl e ↦ rw (e, visible_from) (g, inl refl, add_granted-none old _ e)
        | inr (added, e) ↦
            rw (e, visible_from)
              (one_more old added groups g _ (add_granted-IsAdded old _ added e)
                (visible_from-IsScopeOf added groups))
      ]

-- An identity sees every namespace just where one of its groups is granted the star, and
-- otherwise those that its groups are granted, and no other.
pub visible-IsScope :
    (mapping : List (Text × List Text)) (groups : List Text)
    → IsScopeOf mapping [] groups (visible groups mapping)
visible-IsScope mapping groups = visible_from-IsScopeOf mapping [] groups
