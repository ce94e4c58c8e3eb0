-- ===== src/Access/Shown.antt =====
-- Who waits and what is seen: `waiting` and `access_in` of
-- crates/gapura-control/src/access.rs, and that more grants never take a role away.
use gapura.Prelude.{
  subst, ℕ, ◌≤◌, ◌≡◌, ◌↔◌, ◌⊎◌, inl, inr, refl, ap, sym, ◌∙◌, Bool, true, false, not, ◌&&◌, List,
  [], ◌∷◌, none, some, arith, In, any, In-filter_by, any→In, In→any, ==_iff, ==_refl, Option-cases,
  all→, all_intro, and-eq-true_iff, ◌==◌,
}
use gapura.Access.{
  rank, Source, role_of, User, Workspace, Grant, GroupGrant, Rows, Access, effective, waiting,
  with_access, access_in,
}
use gapura.Access.Gifts.{Gives}
use gapura.Access.Effective.{effective-IsAccess, effective_given}

module _ (rows : Rows) (u : User) where
  abbrev reaches_nothing : Workspace → Bool
  reaches_nothing w = elim (effective rows u w.id) [ none ↦ true | some a ↦ false ]

  reaches_nothing_iff :
      (w : Workspace) → (reaches_nothing w ≡ true) ↔ (effective rows u w.id ≡ none)
  reaches_nothing_iff w = elim (Option-cases (effective rows u w.id)) [
    | inl e ↦ (λ h. e, λ h. rw (h, reaches_nothing) refl)
    | inr (a, e) ↦ (
      λ h. absurd (ground (arith, rw (e, reaches_nothing) at h)),
      λ h. absurd (ground (arith, e, h)),
    )
  ]

  without : (w : Workspace) → ((s : Source) → ¬ Gives rows u w.id s) → effective rows u w.id ≡ none
  without w nothing = elim (Option-cases (effective rows u w.id)) [
    | inl e ↦ e
    | inr (a, e) ↦
        let is = effective-IsAccess rows u w.id a e in
        let (s, i, r) = is.highest.held in absurd (nothing s ((is.listed s).0 i))
  ]

  -- Someone waits for access just where the account is enabled, is no superuser's, and reaches
  -- none of the workspaces.
  pub waiting_iff : (waiting rows u ≡ true) ↔ (
      (u.disabled ≡ false)
      × (u.is_superuser ≡ false)
      × ((w : Workspace) → In w rows.workspaces → (s : Source) → ¬ Gives rows u w.id s))
  unfolding waiting
  waiting_iff = (
    λ h.
        let (ab, c) = (and-eq-true_iff (not u.disabled && not u.is_superuser) _).0 h in
        let enabled : u.disabled ≡ false = ground arith in
        let no_superuser : u.is_superuser ≡ false = ground arith in
        (
          enabled,
          no_superuser,
          λ w i s g.
              let nothing =
                (reaches_nothing_iff w).0 (all→ reaches_nothing rows.workspaces c w i) in
              let (a, e, is) = effective_given rows u w.id s enabled g in
              absurd (ground (arith, nothing, e)),
        ),
    λ h.
        let (enabled, no_superuser, nothing) = h in
        let c =
          all_intro reaches_nothing rows.workspaces
            (λ w i. (reaches_nothing_iff w).1 (without w (nothing w i))) in
        let ab : (not u.disabled && not u.is_superuser) ≡ true = ground arith in
        (and-eq-true_iff (not u.disabled && not u.is_superuser) _).1 (ab, c),
  )

  with_access_sound :
      (w : Workspace) (a : Access) (ws : List Workspace)
      → In (w, a) (with_access rows u ws)
      → In w ws × (effective rows u w.id ≡ some a)
  with_access_sound w a [] i = absurd i
  with_access_sound w a (x ∷ ws) i = elim (Option-cases (effective rows u x.id)) [
    | inl e ↦ let (j, q) = with_access_sound w a ws (rw (e, with_access) at i) in (inr j, q)
    | inr (b, e) ↦
        let i' : ◌≡◌ {A = Workspace × Access} (w, a) (x, b) ⊎ In (w, a) (with_access rows u ws) =
          rw (e, with_access) at i in
        elim i' [
          | inl q ↦
              let same : w ≡ x = ap (λ y. y.0) q in
              let snd : Workspace × Access → Access = λ y. y.1 in
              let access : some b ≡ some a = ap some (sym (ap snd q)) in
              (inl same, ap (λ y. effective rows u y.id) same ∙ (e ∙ access))
          | inr j ↦ let (k, q) = with_access_sound w a ws j in (inr k, q)
        ]
  ]

  with_access_complete :
      (w : Workspace) (a : Access) (ws : List Workspace)
      → In w ws
      → effective rows u w.id ≡ some a
      → In (w, a) (with_access rows u ws)
  with_access_complete w a [] i h = absurd i
  with_access_complete w a (x ∷ ws) (inl q) h =
      let e : effective rows u x.id ≡ some a = ap (λ y. effective rows u y.id) (sym q) ∙ h in
      rw (e, with_access) (inl (ap (λ y. (y, a)) q))
  with_access_complete w a (x ∷ ws) (inr j) h = elim (Option-cases (effective rows u x.id)) [
    | inl e ↦ rw (e, with_access) (with_access_complete w a ws j h)
    | inr (b, e) ↦ rw (e, with_access) (inr (with_access_complete w a ws j h))
  ]

  -- What is shown of someone's access is what they hold, in the workspaces asked for and in no
  -- other.
  pub access_in_iff :
      (within : List ℕ) (w : Workspace) (a : Access)
      → In (w, a) (access_in rows u within)
        ↔ (In w rows.workspaces × In w.id within × (effective rows u w.id ≡ some a))
  unfolding access_in
  access_in_iff within w a = (
    λ i.
        let (j, e) = with_access_sound w a _ i in
        let (k, t) = (In-filter_by (λ w. any (λ id. w.id == id) within) w rows.workspaces).0 j in
        let (id, l, q) = any→In (λ id. w.id == id) within t in (k, rw ((==_iff w.id id).0 q) l, e),
    λ h.
        let (k, l, e) = h in
        let t = In→any (λ id. w.id == id) w.id within l (==_refl w.id) in
        with_access_complete w a _
          ((In-filter_by (λ w. any (λ id. w.id == id) within) w rows.workspaces).1 (k, t)) e,
  )

-- More grants of both kinds, for the same account and workspaces.
pub record Extends (rows more : Rows) : Type 0 where
  pub grants : (g : Grant) → In g rows.grants → In g more.grants
  pub group_grants : (g : GroupGrant) → In g rows.group_grants → In g more.group_grants

Gives-Extends :
    (rows more : Rows) (u : User) (w : ℕ) (s : Source)
    → Extends rows more
    → Gives rows u w s
    → Gives more u w s
Gives-Extends rows more u w s x (inl h) = inl h
Gives-Extends rows more u w s x (inr (inl (g, i, a, b, e))) = inr (inl (g, x.grants g i, a, b, e))
Gives-Extends rows more u w s x (inr (inr (g, i, a, b, e))) =
    inr (inr (g, x.group_grants g i, a, b, e))

-- Nothing subtracts: with more grants someone who had access keeps it, with a role at least as
-- high and with every source that was listed before.
pub effective-Extends :
    (rows more : Rows) (u : User) (w : ℕ) (a : Access)
    → Extends rows more
    → effective rows u w ≡ some a
    → (b : Access) × (effective more u w ≡ some b)
      × (rank a.role ≤ rank b.role)
      × ((s : Source) → In s a.sources → In s b.sources)
effective-Extends rows more u w a x e =
    let old = effective-IsAccess rows u w a e in
    let keeps : (s : Source) → In s a.sources → Gives more u w s =
      λ s i. Gives-Extends rows more u w s x ((old.listed s).0 i) in
    let (s, i, r) = old.highest.held in
    let (b, f, new) = effective_given more u w s old.enabled (keeps s i) in
    let lists : (s : Source) → In s a.sources → In s b.sources =
      λ s i. (new.listed s).1 (keeps s i) in
    let above : rank (role_of s) ≤ rank b.role = new.highest.above s (lists s i) in
    (b, f, subst (λ q. rank q ≤ rank b.role) r above, lists)
