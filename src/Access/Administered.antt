-- ===== src/Access/Administered.antt =====
-- Where someone grants, waits and is seen: `grantable`, `waiting` and `access_in` of
-- crates/gapura-control/src/access.rs.
use gapura.Prelude.{
  ℕ, ◌≤◌, ◌≡◌, ◌↔◌, inl, inr, refl, ◌∙◌, true, false, arith, In, In-map, In-map_sound, In-filter_by,
  Option-cases,
}
use gapura.Access.{
  Role, viewer, editor, admin, rank, role_eq, Source, role_of, User, Workspace, Rows, effective,
  administers, grantable,
}
use gapura.Access.Gifts.{Gives}
use gapura.Access.Effective.{effective-IsAccess, effective_given}

role_eq→admin : (r : Role) → role_eq r admin ≡ true → r ≡ admin
role_eq→admin viewer h = absurd (ground arith)
role_eq→admin editor h = absurd (ground arith)
role_eq→admin admin h = refl

admin_is_top : (r : Role) → rank admin ≤ rank r → role_eq r admin ≡ true
admin_is_top r h = ground arith

module _ (rows : Rows) (u : User) where
  -- Someone enabled whom some grant makes an admin of the workspace.
  pub record Administers (w : ℕ) : Type 0 where
    pub enabled : u.disabled ≡ false
    pub source : Source
    pub gives : Gives rows u w source
    pub is_admin : role_of source ≡ admin

  administers_sound : (w : Workspace) → administers rows u w ≡ true → Administers w.id
  administers_sound w h = elim (Option-cases (effective rows u w.id)) [
    | inl e ↦ absurd (ground (arith, rw (e, administers) at h))
    | inr (a, e) ↦
        let is = effective-IsAccess rows u w.id a e in
        let (s, i, r) = is.highest.held in
        let top : a.role ≡ admin = role_eq→admin a.role (rw (e, administers) at h) in
        record { enabled = is.enabled; source = s; gives = (is.listed s).0 i; is_admin = r ∙ top }
  ]

  administers_complete : (w : Workspace) → Administers w.id → administers rows u w ≡ true
  administers_complete w h =
      let (a, e, is) = effective_given rows u w.id h.source h.enabled h.gives in
      let below = is.highest.above h.source ((is.listed h.source).1 h.gives) in
      let top : role_eq a.role admin ≡ true = admin_is_top a.role (rw h.is_admin at below) in
      rw (e, administers) top

  -- The workspaces where someone may change roles are those that exist and that some grant makes
  -- them an admin of.
  pub grantable_iff :
      (id : ℕ)
      → In id (grantable rows u)
        ↔ ((w : Workspace) × In w rows.workspaces × (id ≡ w.id) × Administers id)
  unfolding grantable
  grantable_iff id = (
    λ i.
        let (w, j, e) = In-map_sound (λ w. w.id) id _ i in
        let (k, h) = (In-filter_by (administers rows u) w rows.workspaces).0 j in
        (w, k, e, rw e (administers_sound w h)),
    λ h.
        let (w, k, e, is) = h in
        let j =
          (In-filter_by (administers rows u) w rows.workspaces).1
            (k, administers_complete w (rw e at is)) in
        rw e (In-map (λ w. w.id) w _ j),
  )
