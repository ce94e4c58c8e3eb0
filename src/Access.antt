-- ===== src/Access.antt =====
-- Who may see what in store mode: crates/gapura-control/src/access.rs. A UUID is the number that
-- its 128 bits stand for. Of a set of ids only the membership is read, so it is a list.
pub mod Sources
pub mod Gifts
pub mod Effective
pub mod Administered
pub mod Shown
pub mod Tests
use gapura.Prelude.{
  ℕ, ◌==◌, Bool, true, false, not, ◌&&◌, List, [], ◌∷◌, ◌++◌, map, Option, none, some, Text, codes,
  text_eq, any, all, filter_by, if◌then◌else◌, ltb,
}
use gapura.Prelude.Order.{Order, pair_order, nat_order, text_order, sort_keyed}

pub data Role : Type 0 where
  viewer editor admin : Role

-- `Role::parse`.
unfoldable pub parse : Text → Option Role
parse name =
    if text_eq name (codes "viewer")
    then some viewer
    else if text_eq name (codes "editor")
    then some editor
    else if text_eq name (codes "admin")
    then some admin
    else none

-- `Role::as_str`.
abbrev pub as_str : Role → Text
as_str viewer = codes "viewer"
as_str editor = codes "editor"
as_str admin = codes "admin"

-- The derived order of the roles.
abbrev pub rank : Role → ℕ
rank viewer = 0
rank editor = 1
rank admin = 2

abbrev pub role_eq : Role → Role → Bool
role_eq a b = rank a == rank b

pub data Source : Type 0 where
  superuser : Role → Source
  direct : Role → Source
  group : Text → Role → Source

-- `Source::role`.
abbrev pub role_of : Source → Role
role_of (superuser role) = role
role_of (direct role) = role
role_of (group name role) = role

-- The derived order of the sources: that of their declaration, then of their fields.
abbrev pub source_key : Source → ℕ × (Text × ℕ)
source_key (superuser role) = (0, ([], rank role))
source_key (direct role) = (1, ([], rank role))
source_key (group name role) = (2, (name, rank role))

abbrev pub source_order : Order (ℕ × (Text × ℕ))
source_order = pair_order nat_order (pair_order text_order nat_order)

unfoldable pub source_eq : Source → Source → Bool
source_eq (superuser a) (superuser b) = role_eq a b
source_eq (direct a) (direct b) = role_eq a b
source_eq (group n a) (group m b) = text_eq n m && role_eq a b
source_eq _ _ = false

-- Of an account and of a workspace, the fields that a decision reads or returns.
pub record User : Type 0 where
  pub id : ℕ
  pub is_superuser : Bool
  pub disabled : Bool
  pub groups : List Text

pub record Workspace : Type 0 where
  pub id : ℕ
  pub name : Text

pub record Grant : Type 0 where
  pub user : ℕ
  pub workspace : ℕ
  pub role : Role

pub record GroupGrant : Type 0 where
  pub name : Text
  pub workspace : ℕ
  pub role : Role

pub record Rows : Type 0 where
  pub workspaces : List Workspace
  pub grants : List Grant
  pub group_grants : List GroupGrant

pub record Access : Type 0 where
  pub role : Role
  pub sources : List Source

-- `iter().max()` of the roles: the last of the greatest.
unfoldable pub max_role : Role → List Source → Role
max_role best [] = best
max_role best (s ∷ ss) =
    let replaced = max_role (role_of s) ss in
    let kept = max_role best ss in if ltb (rank (role_of s)) (rank best) then kept else replaced

abbrev pub highest : List Source → Option Role
highest [] = none
highest (s ∷ ss) = some (max_role (role_of s) ss)

abbrev pub keyed : Source → (ℕ × (Text × ℕ)) × Source
keyed s = (source_key s, s)

-- `sources.sort()` and `sources.dedup()`.
unfoldable pub sorted : List Source → List Source
sorted ss = map (λ k. k.1) (sort_keyed source_order (map keyed ss))

unfoldable pub dedup_after : Source → List Source → List Source
dedup_after last [] = []
dedup_after last (s ∷ ss) =
    let skipped = dedup_after last ss in
    let kept = dedup_after s ss in if source_eq s last then skipped else s ∷ kept

abbrev pub dedup : List Source → List Source
dedup [] = []
dedup (s ∷ ss) = s ∷ dedup_after s ss

unfoldable pub applies_directly : User → ℕ → Grant → Bool
applies_directly u workspace g = g.user == u.id && g.workspace == workspace

unfoldable pub applies_to_group : User → ℕ → GroupGrant → Bool
applies_to_group u workspace g = g.workspace == workspace && any (text_eq g.name) u.groups

-- Every grant that gives `u` a role in the workspace, in the order that they are collected in.
unfoldable pub collected : Rows → User → ℕ → List Source
collected rows u workspace =
    (if u.is_superuser then superuser admin ∷ [] else [])
    ++ map (λ g. direct g.role) (filter_by (applies_directly u workspace) rows.grants)
    ++ map (λ g. group g.name g.role) (filter_by (applies_to_group u workspace) rows.group_grants)

-- `Rows::effective`.
unfoldable pub effective : Rows → User → ℕ → Option Access
effective rows u workspace =
    let sources = collected rows u workspace in
    if u.disabled then none else elim (highest sources) [
      | none ↦ none
      | some role ↦ some (record { role = role; sources = dedup (sorted sources) })
    ]

abbrev pub administers : Rows → User → Workspace → Bool
administers rows u w = elim (effective rows u w.id) [ none ↦ false | some a ↦ role_eq a.role admin ]

-- `Rows::grantable`.
unfoldable pub grantable : Rows → User → List ℕ
grantable rows caller = map (λ w. w.id) (filter_by (administers rows caller) rows.workspaces)

-- `Rows::waiting`.
unfoldable pub waiting : Rows → User → Bool
waiting rows u =
    not u.disabled
    && not u.is_superuser
    && all (λ w. elim (effective rows u w.id) [ none ↦ true | some a ↦ false ]) rows.workspaces

abbrev with_access : Rows → User → List Workspace → List (Workspace × Access)
with_access rows u [] = []
with_access rows u (w ∷ ws) = elim (effective rows u w.id) [
  | none ↦ with_access rows u ws
  | some a ↦ (w, a) ∷ with_access rows u ws
]

-- `Rows::access_in`.
unfoldable pub access_in : Rows → User → List ℕ → List (Workspace × Access)
access_in rows u within =
    with_access rows u (filter_by (λ w. any (λ id. w.id == id) within) rows.workspaces)
