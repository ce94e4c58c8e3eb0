-- ===== src/Grants/Made.antt =====
-- A request for changes of roles, from its body to the grants: `parse_role_changes` and
-- `direct_changes` of crates/gapura-control/src/grants.rs.
use gapura.Prelude.{ℕ, ◌≡◌, inl, inr, refl, ◌∙◌, List, Option, some, Text, ok, Option-cases}
use gapura.Access.{Role}
use gapura.Grants.{held_at, direct_changes}
use gapura.Grants.Bodies.{Value, parse_role_changes}
use gapura.Grants.Changes.{role_after, role_asked, direct_changes-role_after}
use gapura.Grants.Requests.{Asks, parse_role_changes-IsRead}

module _ (parse_id : Text → Option ℕ) (show_id : ℕ → Text) (debug : Text → Text)
    (held : List (ℕ × Role)) (object : List (Text × Value)) (changes : List (ℕ × Option Role))
    (accepted : parse_role_changes parse_id show_id debug (some object) ≡ ok changes) (id : ℕ) where
  -- An accepted request gives an account, in every workspace that one of its entries names, the
  -- role of that entry or none, and leaves it every role in the workspaces that no entry names.
  pub direct_changes-Asks :
      ((r : Option Role)
        → Asks parse_id show_id debug object id r
        → role_after held (direct_changes held changes) id ≡ r)
      × (((r : Option Role) → ¬ Asks parse_id show_id debug object id r)
          → role_after held (direct_changes held changes) id ≡ held_at id held)
  unfolding role_asked
  direct_changes-Asks =
      let read = parse_role_changes-IsRead parse_id show_id debug object changes accepted in
      let done = direct_changes-role_after held changes id read.0 in
      (
        λ r asks. let e = (read.1 id r).1 asks in done ∙ rw (e, role_asked) refl,
        λ nothing. elim (Option-cases (held_at id changes)) [
          | inl e ↦ done ∙ rw (e, role_asked) refl
          | inr (r, e) ↦ absurd (nothing r ((read.1 id r).0 e))
        ],
      )
