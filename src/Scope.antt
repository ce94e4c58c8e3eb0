-- ===== src/Scope.antt =====
-- What a signed-in identity may see: crates/gapura-control/src/scope.rs. Of a set of namespaces
-- only the membership is read, so it is a list.
pub mod Granted
pub mod Tests
use gapura.Prelude.{List, [], ◌∷◌, Option, none, some, Text, codes, text_eq, if◌then◌else◌}
use gapura.Config.{lookup}

pub data Scope : Type 0 where
  all_namespaces : Scope
  only : List Text → Scope

-- `Scope::default`.
abbrev pub default_scope : Scope
default_scope = only []

-- The inner loop over what one group grants: `none` is the early return.
unfoldable pub add_granted : List Text → List Text → Option (List Text)
add_granted namespaces [] = some namespaces
add_granted namespaces (granted ∷ rest) =
    let added = add_granted (granted ∷ namespaces) rest in
    if text_eq granted (codes "*") then none else added

-- `mapping.get(group).into_iter().flatten()`.
unfoldable pub granted_to : List (Text × List Text) → Text → List Text
granted_to mapping group = elim (lookup group mapping) [ none ↦ [] | some granted ↦ granted ]

unfoldable pub visible_from : List (Text × List Text) → List Text → List Text → Scope
visible_from mapping namespaces [] = only namespaces
visible_from mapping namespaces (group ∷ groups) =
    elim (add_granted namespaces (granted_to mapping group)) [
      | none ↦ all_namespaces
      | some added ↦ visible_from mapping added groups
    ]

abbrev pub visible : List Text → List (Text × List Text) → Scope
visible groups mapping = visible_from mapping [] groups
