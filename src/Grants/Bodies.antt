-- ===== src/Grants/Bodies.antt =====
-- The bodies of the requests that change grants, in crates/gapura-control/src/grants.rs, behind
-- the reader of JSON: none is a body that it refuses.
use gapura.Prelude.{
  ℕ, ◌==◌, List, [], ◌∷◌, ◌++◌, Option, none, some, Text, codes, Result, err, ok, ◌>>=◌,
  if◌then◌else◌, ltb,
}
use gapura.Access.{Role, parse}
use gapura.Grants.{Refusal, invalid, check_group_name, held_at}

-- What the code tells apart of a `serde_json::Value`.
pub data Value : Type 0 where
  null : Value
  string : Text → Value
  other : Value

pub record Body : Type 0 where
  pub workspace_id : Text
  pub group : Text
  pub role : Text

pub record GroupMapping : Type 0 where
  pub workspace : ℕ
  pub group : Text
  pub role : Role

-- `BTreeMap::insert`.
unfoldable pub insert_at {ℓ} : {A : Type ℓ} → ℕ → A → List (ℕ × A) → List (ℕ × A)
insert_at id v [] = (id, v) ∷ []
insert_at id v ((k, w) ∷ m) =
    let rest = insert_at id v m in
    if ltb id k then (id, v) ∷ (k, w) ∷ m else if id == k then (id, v) ∷ m else (k, w) ∷ rest

module _ (parse_id : Text → Option ℕ) (show_id : ℕ → Text) (debug : Text → Text) where
  unfoldable pub workspace_id : Text → Result Refusal ℕ
  workspace_id text = elim (parse_id text) [
    | none ↦ err (invalid (debug text ++ codes " is not a workspace id."))
    | some id ↦ ok id
  ]

  unfoldable pub role_named : Text → Result Refusal Role
  role_named name = elim (parse name) [
    | none ↦
        err (invalid (debug name ++ codes " is not a role: a role is viewer, editor or admin."))
    | some role ↦ ok role
  ]

  -- The role of an entry's value, for the workspace.
  unfoldable pub role_asked_by : ℕ → Value → Result Refusal (Option Role)
  role_asked_by workspace null = ok none
  role_asked_by workspace (string name) = role_named name >>= (λ role. ok (some role))
  role_asked_by workspace other = err (
      invalid (
        codes "The role for workspace "
        ++ show_id workspace
        ++ codes " must be a role name or null."))

  -- `changes.insert(..)`, and the refusal where something was there.
  unfoldable pub insert_new :
      List (ℕ × Option Role) → ℕ → Option Role → Result Refusal (List (ℕ × Option Role))
  insert_new changes workspace role = elim (held_at workspace changes) [
    | some old ↦
        err (invalid (codes "The request names workspace " ++ show_id workspace ++ codes " twice."))
    | none ↦ ok (insert_at workspace role changes)
  ]

  -- One pass of the loop over the object's entries.
  unfoldable pub entry_of :
      List (ℕ × Option Role) → Text × Value → Result Refusal (List (ℕ × Option Role))
  entry_of changes (key, value) = workspace_id key >>= (λ workspace.
      role_asked_by workspace value >>= (λ role. insert_new changes workspace role))

  unfoldable pub changes_from :
      List (ℕ × Option Role) → List (Text × Value) → Result Refusal (List (ℕ × Option Role))
  changes_from changes [] = ok changes
  changes_from changes (entry ∷ entries) =
      entry_of changes entry >>= (λ added. changes_from added entries)

  unfoldable pub parse_role_changes :
      Option (List (Text × Value)) → Result Refusal (List (ℕ × Option Role))
  parse_role_changes none =
      err (invalid (codes "Send a JSON object of workspace ids, each with a role or null."))
  parse_role_changes (some object) = changes_from [] object

  abbrev invalid_name : {A : Type 0} → Result Text A → Result Refusal A
  invalid_name (err reason) = err (invalid reason)
  invalid_name (ok a) = ok a

  unfoldable pub parse_mapping : (Text → List ℕ) → Option Body → Result Refusal GroupMapping
  parse_mapping chars none =
      err (invalid (codes "Send a JSON object with workspace_id, group and role."))
  parse_mapping chars (some body) = workspace_id body.workspace_id >>= (λ workspace.
      invalid_name (check_group_name (chars body.group)) >>= (λ named.
        role_named body.role
        >>= (λ role. ok (record { workspace = workspace; group = body.group; role = role }))))
