-- ===== src/Grants/Authority.antt =====
-- Who may change grants: `authorise` of crates/gapura-control/src/grants.rs.
use gapura.Prelude.{
  ℕ, ◌≡◌, ◌↔◌, ◌⊎◌, inl, inr, refl, ◌∙◌, true, false, List, In, all→, all_intro, any→In, In→any,
  ==_iff, ==_refl, Result, err, ok, arith, Bool-cases, if_true, if_false, if◌then◌else◌, ◌==◌,
}
use gapura.Access.{User, Workspace, Rows, grantable}
use gapura.Access.Administered.{Administers, grantable_iff}
use gapura.Grants.{outside_your_workspaces, Refusal, is_subset, authorise}

is_subset_iff :
    (ids among : List ℕ) → (is_subset ids among ≡ true) ↔ ((id : ℕ) → In id ids → In id among)
unfolding is_subset
is_subset_iff ids among = (
  λ h id i.
      let (a, j, e) = any→In (λ a. id == a) among (all→ _ ids h id i) in rw ((==_iff id a).0 e) j,
  λ f. all_intro _ ids (λ id i. In→any (λ a. id == a) id among (f id i) (==_refl id)),
)

module _ (rows : Rows) (caller : User) (workspaces : List ℕ) where
  -- Every workspace that is named exists and is one that the caller administers.
  abbrev pub MayChange : Type 0
  MayChange =
      (id : ℕ)
      → In id workspaces
      → (w : Workspace) × In w rows.workspaces × (id ≡ w.id) × Administers rows caller id

  authorise_off :
      caller.disabled ≡ true → authorise rows caller workspaces ≡ err outside_your_workspaces
  unfolding authorise
  authorise_off off = if_true _ _ off

  authorise_on :
      caller.disabled ≡ false
      → authorise rows caller workspaces ≡ (
          if is_subset workspaces (grantable rows caller)
          then ok tt
          else err outside_your_workspaces)
  unfolding authorise
  authorise_on on = if_false _ _ on

  -- What an answer has to say. The refusal is the same whatever the reason.
  abbrev pub IsVerdict : Result Refusal Unit → Type 0
  IsVerdict (ok u) = (caller.disabled ≡ false) × MayChange
  IsVerdict (err r) = (r ≡ outside_your_workspaces) × ((caller.disabled ≡ true) ⊎ (¬ MayChange))

  -- A change is allowed just where the caller is enabled and administers every workspace that is
  -- named, and any other is refused in the same words, whether a workspace is not administered by
  -- the caller or does not exist.
  pub authorise-IsVerdict : IsVerdict (authorise rows caller workspaces)
  authorise-IsVerdict = elim (Bool-cases caller.disabled) [
    | inl off ↦ rw (authorise_off off) (refl, inl off)
    | inr on ↦ elim (Bool-cases (is_subset workspaces (grantable rows caller))) [
      | inl e ↦
          let among = (is_subset_iff workspaces _).0 e in
          rw (authorise_on on ∙ if_true _ _ e)
            (on, λ id i. (grantable_iff rows caller id).0 (among id i))
      | inr e ↦ rw (authorise_on on ∙ if_false _ _ e) (
        refl,
        inr (λ may.
            let among =
              (is_subset_iff workspaces _).1
                (λ id i. (grantable_iff rows caller id).1 (may id i)) in
            absurd (ground (arith, e, among))),
      )
    ]
  ]
