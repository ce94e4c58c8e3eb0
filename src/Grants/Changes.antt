-- ===== src/Grants/Changes.antt =====
-- What the changes of an account's grants come to: `direct_changes` of
-- crates/gapura-control/src/grants.rs.
use gapura.Prelude.{
  subst, ℕ, ◌<◌, ◌≡◌, ◌≢◌, ◌⊎◌, inl, inr, refl, ap, sym, ◌∙◌, true, false, List, [], ◌∷◌, Option,
  none, some, In, All, arith, Bool-cases, Option-cases, ==_iff, ◌==◌,
}
use gapura.Access.{Role, viewer, editor, admin}
use gapura.Grants.{Change, same_role, between, held_at, direct_changes}

-- A `BTreeMap`: its keys are in strictly rising order.
abbrev pub IsMap {ℓ} : {A : Type ℓ} → List (ℕ × A) → Type ℓ
IsMap [] = Unit
IsMap (x ∷ m) = All (λ y. x.0 < y.0) m × IsMap m

-- The role in a workspace after changes, and after a request.
unfoldable pub role_after : List (ℕ × Role) → List (ℕ × Change) → ℕ → Option Role
role_after held changes id = elim (held_at id changes) [ none ↦ held_at id held | some c ↦ c.after ]

unfoldable pub role_asked : List (ℕ × Role) → List (ℕ × Option Role) → ℕ → Option Role
role_asked held wanted id = elim (held_at id wanted) [ none ↦ held_at id held | some r ↦ r ]

same_role→eq : (a b : Option Role) → same_role a b ≡ true → a ≡ b
same_role→eq none none h = refl
same_role→eq none (some b) h = absurd (ground arith)
same_role→eq (some a) none h = absurd (ground arith)
same_role→eq (some a) (some b) h = ground arith

same_role_refl : (a : Option Role) → same_role a a ≡ true
same_role_refl none = refl
same_role_refl (some viewer) = refl
same_role_refl (some editor) = refl
same_role_refl (some admin) = refl

between-none : (a b : Option Role) → between a b ≡ none → a ≡ b
unfolding between
between-none a b h = elim (Bool-cases (same_role a b)) [
  | inl e ↦ same_role→eq a b e
  | inr e ↦ absurd (ground (arith, e, h))
]

-- A change says what it is from and to, which differ.
between-some :
    (a b : Option Role) (c : Change)
    → between a b ≡ some c
    → (c.before ≡ a) × (c.after ≡ b) × (a ≢ b)
unfolding between
between-some a b c h = elim (Bool-cases (same_role a b)) [
  | inl e ↦ absurd (ground (arith, e, h))
  | inr e ↦
      let same : record { before = a; after = b } ≡ c = ground arith in
      (
        ap (λ x. x.before) (sym same),
        ap (λ x. x.after) (sym same),
        λ q. absurd (ground (arith, e, subst (λ x. same_role a x ≡ true) q (same_role_refl a))),
      )
]

absent :
    (held : List (ℕ × Role)) (id : ℕ) (wanted : List (ℕ × Option Role))
    → All (λ y. id < y.0) wanted
    → held_at id (direct_changes held wanted) ≡ none
unfolding held_at direct_changes
absent held id [] h = refl
absent held id ((k, r) ∷ wanted) h =
    let apart : (k == id) ≡ false = ground (arith, h.0) in
    elim (Option-cases (between (held_at k held) r)) [
      | inl e ↦ rw (e, direct_changes) (absent held id wanted h.1)
      | inr (c, e) ↦ rw (e, direct_changes) (rw apart (absent held id wanted h.1))
    ]

-- Made one after the other, the changes turn the roles that an account holds into those that
-- the request asks for, and leave the workspaces that it does not name as they were.
pub direct_changes-role_after :
    (held : List (ℕ × Role)) (wanted : List (ℕ × Option Role)) (id : ℕ)
    → IsMap wanted
    → role_after held (direct_changes held wanted) id ≡ role_asked held wanted id
unfolding role_after role_asked held_at direct_changes
direct_changes-role_after held [] id is = refl
direct_changes-role_after held ((k, r) ∷ wanted) id is = elim (Bool-cases (k == id)) [
  | inr apart ↦
      let rest = direct_changes-role_after held wanted id is.1 in
      elim (Option-cases (between (held_at k held) r)) [
        | inl e ↦ rw (e, direct_changes) (rw (apart, role_asked, role_after) rest)
        | inr (c, e) ↦ rw (e, direct_changes) (rw (apart, role_asked, role_after) rest)
      ]
  | inl here ↦
      let at_id : held_at k held ≡ held_at id held =
        ap (λ x. held_at x held) ((==_iff k id).0 here) in
      elim (Option-cases (between (held_at k held) r)) [
        | inl e ↦
            let gone =
              absent held id wanted
                (subst (λ x. All (λ y. x < y.0) wanted) ((==_iff k id).0 here) is.0) in
            rw (e, direct_changes)
              (rw (here, role_asked, role_after)
                (rw (gone, role_after) (sym at_id ∙ between-none _ r e)))
        | inr (c, e) ↦
            rw (e, direct_changes) (rw (here, role_asked, role_after) (between-some _ r c e).1)
      ]
]

module _ (held : List (ℕ × Role)) (wanted : List (ℕ × Option Role)) where
  first :
      (id k : ℕ) (r : Option Role) (c d : Change)
      → id ≡ k
      → c ≡ d
      → (d.before ≡ held_at k held) × (d.after ≡ r) × (held_at k held ≢ r)
      → In (id, c.after) ((k, r) ∷ wanted) × (c.before ≡ held_at id held) × (c.before ≢ c.after)
  first id k r c d p q (before, after, differ) =
      rw p (rw q (inl (ap (λ x. (k, x)) after), before, λ e. differ (sym before ∙ (e ∙ after))))

-- Every change is one that the request asks for, from what the account holds to something else.
pub In-direct_changes :
    (held : List (ℕ × Role)) (wanted : List (ℕ × Option Role)) (id : ℕ) (c : Change)
    → In (id, c) (direct_changes held wanted)
    → In (id, c.after) wanted × (c.before ≡ held_at id held) × (c.before ≢ c.after)
unfolding direct_changes
In-direct_changes held [] id c i = absurd i
In-direct_changes held ((k, r) ∷ wanted) id c i = elim (Option-cases (between (held_at k held) r)) [
  | inl e ↦
      let (j, h, l) = In-direct_changes held wanted id c (rw (e, direct_changes) at i) in
      (inr j, h, l)
  | inr (d, e) ↦
      let i' : ◌≡◌ {A = ℕ × Change} (id, c) (k, d) ⊎ In (id, c) (direct_changes held wanted) =
        rw (e, direct_changes) at i in
      elim i' [
        | inl q ↦
            first held wanted id k r c d (ap (λ x. x.0) q) (ap (λ x. x.1) q)
              (between-some (held_at k held) r d e)
        | inr j ↦ let (l, h, m) = In-direct_changes held wanted id c j in (inr l, h, m)
      ]
]
