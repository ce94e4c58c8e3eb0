-- ===== src/Grants/Tests.antt =====
-- Runs of the code of crates/gapura-control/src/grants.rs.
use gapura.Prelude.{
  ℕ, ◌≡◌, ◌≢◌, inl, refl, List, [], ◌∷◌, Option, none, some, In, Text, codes, text_eq, digits_value,
  decimal_on, parse_unsigned, decimal, err, ok, ◌^◌,
}
use gapura.Access.{Role, viewer, editor, admin, parse}
use gapura.Access.Tests.{program as access, acme, ann}
use gapura.Grants.{
  invalid, outside_your_workspaces, is_subset, authorise, between, mapping_action, held_at,
  direct_changes, invisible, check_group_name, group_to_remove,
}
use gapura.Grants.Authority.{IsVerdict, authorise-IsVerdict}
use gapura.Grants.Changes.{role_after, role_asked, In-direct_changes}
use gapura.Grants.Bodies.{
  Value, null, string, insert_at, workspace_id, role_named, role_asked_by, insert_new, entry_of,
  changes_from, parse_role_changes, parse_mapping,
}
use gapura.Grants.Requests.{Asks}
use gapura.Grants.Made.{direct_changes-Asks}

program : Unit {0}
unfolding access is_subset authorise between mapping_action held_at direct_changes invisible
    check_group_name group_to_remove role_after role_asked insert_at workspace_id role_named
    role_asked_by insert_new entry_of changes_from parse_role_changes parse_mapping text_eq parse
    parse_unsigned digits_value decimal_on
program = tt

admin_elsewhere : authorise acme ann (1 ∷ 2 ∷ []) ≡ err outside_your_workspaces
unfolding program
admin_elsewhere = refl

inner_space : check_group_name (codes "on call") ≡ ok tt
unfolding program
inner_space = refl

zero_width :
    check_group_name (b'a' ∷ 0x200b ∷ [])
    ≡ err (
        codes
          "A group name cannot contain characters that show nothing or reverse the text around them.")
unfolding program
zero_width = refl

-- Ids in decimal, for the parser and printer of UUIDs.
abbrev numbers : Text → Option ℕ
numbers = parse_unsigned (2 ^ 128)

abbrev quoted : Text → Text
quoted s = s

abbrev request : List (Text × Value)
request =
    (codes "7", string (codes "editor"))
    ∷ (codes "2", null)
    ∷ (codes "1", string (codes "admin"))
    ∷ []

abbrev read_request : List (ℕ × Option Role)
read_request = (1, some admin) ∷ (2, none) ∷ (7, some editor) ∷ []

abbrev roles_held : List (ℕ × Role)
roles_held = (1, admin) ∷ (2, viewer) ∷ (3, viewer) ∷ []

read : parse_role_changes numbers decimal quoted (some request) ≡ ok read_request
unfolding program
read = refl

twice :
    parse_role_changes numbers decimal quoted (some ((codes "7", null) ∷ (codes "07", null) ∷ []))
    ≡ err (invalid (codes "The request names workspace 7 twice."))
unfolding program
twice = refl

made :
    direct_changes roles_held read_request
    ≡ (2, record { before = some viewer; after = none })
      ∷ (7, record { before = none; after = some editor })
      ∷ []
unfolding program
made = refl

authorise-IsVerdict_example : IsVerdict acme ann (1 ∷ []) (authorise acme ann (1 ∷ []))
authorise-IsVerdict_example = authorise-IsVerdict acme ann (1 ∷ [])

In-direct_changes_example :
    In (2, none) read_request × (some viewer ≡ held_at 2 roles_held) × (some viewer ≢ none)
unfolding program
In-direct_changes_example =
    In-direct_changes roles_held read_request 2 (record { before = some viewer; after = none })
      (inl refl)

direct_changes-Asks_example :
    ((r : Option Role)
      → Asks numbers decimal quoted request 2 r
      → role_after roles_held (direct_changes roles_held read_request) 2 ≡ r)
    × (((r : Option Role) → ¬ Asks numbers decimal quoted request 2 r)
        → role_after roles_held (direct_changes roles_held read_request) 2 ≡ held_at 2 roles_held)
direct_changes-Asks_example =
    direct_changes-Asks numbers decimal quoted roles_held request read_request read 2
