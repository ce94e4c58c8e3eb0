-- ===== src/Access/Gifts.antt =====
-- Every grant that gives someone a role in a workspace, in the words of
-- crates/gapura-control/src/access.rs
use gapura.Prelude.{
  Text, ℕ, ◌≡◌, ◌↔◌, ◌⊎◌, inl, inr, refl, true, List, [], ◌∷◌, ◌++◌, map, arith, In, any, In-map,
  In-map_sound, In-append, In-filter_by, any→In, In→any, filter_by, Bool-cases, text_eq,
  text_eq_iff, text_eq_refl, and-eq-true_iff, if◌then◌else◌, ◌==◌, ==_iff,
}
use gapura.Access.{
  admin, Source, superuser, direct, group, User, Grant, GroupGrant, Rows, applies_directly,
  applies_to_group, collected,
}

module _ (rows : Rows) (u : User) (w : ℕ) where
  -- The three ways to a role in the workspace.
  abbrev BySuperuser : Source → Type 0
  BySuperuser s = (u.is_superuser ≡ true) × (s ≡ superuser admin)

  abbrev ByGrant : Source → Type 0
  ByGrant s =
      (g : Grant) × In g rows.grants × (g.user ≡ u.id) × (g.workspace ≡ w) × (s ≡ direct g.role)

  abbrev ByGroup : Source → Type 0
  ByGroup s =
      (g : GroupGrant) × In g rows.group_grants
      × (g.workspace ≡ w)
      × In g.name u.groups
      × (s ≡ group g.name g.role)

  abbrev pub Gives : Source → Type 0
  Gives s = BySuperuser s ⊎ ByGrant s ⊎ ByGroup s

  applies_directly_iff :
      (g : Grant) → (applies_directly u w g ≡ true) ↔ ((g.user ≡ u.id) × (g.workspace ≡ w))
  unfolding applies_directly
  applies_directly_iff g = ground arith

  in_groups : (name : Text) (names : List Text) → (any (text_eq name) names ≡ true) ↔ In name names
  in_groups name names = (
    λ h. let (m, i, e) = any→In (text_eq name) names h in rw ((text_eq_iff name m).0 e) i,
    λ i. In→any (text_eq name) name names i (text_eq_refl name),
  )

  applies_to_group_iff :
      (g : GroupGrant) → (applies_to_group u w g ≡ true) ↔ ((g.workspace ≡ w) × In g.name u.groups)
  unfolding applies_to_group
  applies_to_group_iff g = (
    λ h.
        let (a, b) = (and-eq-true_iff (g.workspace == w) _).0 h in
        ((==_iff g.workspace w).0 a, (in_groups g.name u.groups).0 b),
    λ h.
        (and-eq-true_iff (g.workspace == w) _).1
          ((==_iff g.workspace w).1 h.0, (in_groups g.name u.groups).1 h.1),
  )

  abbrev superuser_part : List Source
  superuser_part = if u.is_superuser then superuser admin ∷ [] else []

  abbrev direct_part : List Source
  direct_part = map (λ g. direct g.role) (filter_by (applies_directly u w) rows.grants)

  abbrev group_part : List Source
  group_part = map (λ g. group g.name g.role) (filter_by (applies_to_group u w) rows.group_grants)

  In-superuser_part : (s : Source) → In s superuser_part ↔ BySuperuser s
  In-superuser_part s = elim (Bool-cases u.is_superuser) [
    | inl e ↦ rw e (λ i. elim i [ inl q ↦ (refl, q) | inr j ↦ absurd j ], λ h. inl h.1)
    | inr e ↦ rw e (λ i. absurd i, λ h. absurd (ground (arith, h.0)))
  ]

  In-direct_part : (s : Source) → In s direct_part ↔ ByGrant s
  In-direct_part s = (
    λ i.
        let (g, j, e) = In-map_sound (λ g. direct g.role) s _ i in
        let (k, a) = (In-filter_by (applies_directly u w) g rows.grants).0 j in
        let (b, c) = (applies_directly_iff g).0 a in (g, k, b, c, e),
    λ h.
        let (g, k, b, c, e) = h in
        let j =
          (In-filter_by (applies_directly u w) g rows.grants).1
            (k, (applies_directly_iff g).1 (b, c)) in
        rw e (In-map (λ g. direct g.role) g _ j),
  )

  In-group_part : (s : Source) → In s group_part ↔ ByGroup s
  In-group_part s = (
    λ i.
        let (g, j, e) = In-map_sound (λ g. group g.name g.role) s _ i in
        let (k, a) = (In-filter_by (applies_to_group u w) g rows.group_grants).0 j in
        let (b, c) = (applies_to_group_iff g).0 a in (g, k, b, c, e),
    λ h.
        let (g, k, b, c, e) = h in
        let j =
          (In-filter_by (applies_to_group u w) g rows.group_grants).1
            (k, (applies_to_group_iff g).1 (b, c)) in
        rw e (In-map (λ g. group g.name g.role) g _ j),
  )

  pub collected_iff : (s : Source) → In s (collected rows u w) ↔ Gives s
  unfolding collected
  collected_iff s = (
    λ i. elim ((In-append s (superuser_part ++ direct_part) group_part).0 i) [
      | inl j ↦ elim ((In-append s superuser_part direct_part).0 j) [
        | inl k ↦ inl ((In-superuser_part s).0 k)
        | inr k ↦ inr (inl ((In-direct_part s).0 k))
      ]
      | inr j ↦ inr (inr ((In-group_part s).0 j))
    ],
    λ h. (In-append s (superuser_part ++ direct_part) group_part).1 (elim h [
      | inl a ↦ inl ((In-append s superuser_part direct_part).1 (inl ((In-superuser_part s).1 a)))
      | inr (inl b) ↦
          inl ((In-append s superuser_part direct_part).1 (inr ((In-direct_part s).1 b)))
      | inr (inr c) ↦ inr ((In-group_part s).1 c)
    ]),
  )
