-- ===== src/Access/Effective.antt =====
-- Which role someone holds in a workspace, and why: `Rows::effective` of
-- crates/gapura-control/src/access.rs.
use gapura.Prelude.{
  subst, ℕ, ◌≡◌, ◌↔◌, ◌⊎◌, inl, inr, refl, ap, ◌∙◌, true, false, Option, none, some, arith, In,
  Bool-cases, Option-cases, if_true, if_false,
}
use gapura.Access.{Role, Source, User, Rows, Access, highest, sorted, dedup, collected, effective}
use gapura.Access.Sources.{In-sorted, In-dedup, IsHighest, highest-IsHighest, highest-none}
use gapura.Access.Gifts.{Gives, collected_iff}

module _ (rows : Rows) (u : User) (w : ℕ) where
  -- Access as it should be: every grant is listed and nothing else, and the role is the highest.
  pub record IsAccess (a : Access) : Type 0 where
    pub enabled : u.disabled ≡ false
    pub listed : (s : Source) → In s a.sources ↔ Gives rows u w s
    pub highest : IsHighest a.sources a.role

  -- What an answer has to say.
  abbrev pub IsAnswer : Option Access → Type 0
  IsAnswer none = (u.disabled ≡ true) ⊎ ((s : Source) → ¬ Gives rows u w s)
  IsAnswer (some a) = IsAccess a

  listed_iff : (s : Source) → In s (dedup (sorted (collected rows u w))) ↔ Gives rows u w s
  listed_iff s = (
    λ i. (collected_iff rows u w s).0 ((In-sorted s _).0 ((In-dedup s _).0 i)),
    λ g. (In-dedup s _).1 ((In-sorted s _).1 ((collected_iff rows u w s).1 g)),
  )

  highest_kept :
      (r : Role)
      → IsHighest (collected rows u w) r
      → IsHighest (dedup (sorted (collected rows u w))) r
  highest_kept r h = record {
    held = let (s, i, e) = h.held in (s, (In-dedup s _).1 ((In-sorted s _).1 i), e);
    above = λ s i. h.above s ((In-sorted s _).0 ((In-dedup s _).0 i));
  }

  effective-off : u.disabled ≡ true → effective rows u w ≡ none
  unfolding effective
  effective-off off = if_true none _ off

  abbrev answer_of : Option Role → Option Access
  answer_of none = none
  answer_of (some r) = some (record { role = r; sources = dedup (sorted (collected rows u w)) })

  effective-on :
      (o : Option Role)
      → u.disabled ≡ false
      → highest (collected rows u w) ≡ o
      → effective rows u w ≡ answer_of o
  unfolding effective
  effective-on o on e = if_false none _ on ∙ (same (highest (collected rows u w)) ∙ ap answer_of e)
    where
      same :
          (h : Option Role)
          → elim h [
            | none ↦ none
            | some r ↦ some (record { role = r; sources = dedup (sorted (collected rows u w)) })
          ]
            ≡ answer_of h
      same none = refl
      same (some r) = refl

  -- `effective` answers none just where the account is disabled or nothing gives it a role, and
  -- otherwise with every grant that gives one and the highest role among them.
  pub effective-IsAnswer : IsAnswer (effective rows u w)
  effective-IsAnswer = elim (Bool-cases u.disabled) [
    | inl off ↦ rw (effective-off off) (inl off)
    | inr on ↦ elim (Option-cases (highest (collected rows u w))) [
      | inl e ↦
          let empty = highest-none (collected rows u w) e in
          let nothing : (s : Source) → ¬ In s (collected rows u w) = rw empty (λ s i. i) in
          rw (effective-on none on e) (inr (λ s g. nothing s ((collected_iff rows u w s).1 g)))
      | inr (r, e) ↦ rw (effective-on (some r) on e) (record {
        enabled = on;
        listed = listed_iff;
        highest = highest_kept r (highest-IsHighest (collected rows u w) r e);
      })
    ]
  ]

  pub effective-IsAccess : (a : Access) → effective rows u w ≡ some a → IsAccess a
  effective-IsAccess a e = subst IsAnswer e effective-IsAnswer

  -- Whoever is enabled and given a role has access.
  pub effective_given :
      (s : Source)
      → u.disabled ≡ false
      → Gives rows u w s
      → (a : Access) × (effective rows u w ≡ some a) × IsAccess a
  effective_given s on g = elim (Option-cases (effective rows u w)) [
    | inr (a, e) ↦ (a, e, effective-IsAccess a e)
    | inl e ↦ elim (subst IsAnswer e effective-IsAnswer) [
      | inl off ↦ absurd (ground arith)
      | inr nothing ↦ absurd (nothing s g)
    ]
  ]
