-- ===== src/Grants.antt =====
-- The rules for changing who holds what: crates/gapura-control/src/grants.rs. The reader of JSON,
-- the parser of UUIDs and the standard library's printers are parameters; a name's characters are
-- their code points, as `chars` yields them.
pub mod Authority
pub mod Changes
pub mod Bodies
pub mod Requests
pub mod Made
pub mod Tests
use gapura.Prelude.{
  ℕ, ◌==◌, Bool, true, false, ◌&&◌, ◌||◌, List, [], ◌∷◌, ◌++◌, Option, none, some, Text, codes,
  decimal, any, all, length, and_then, Result, err, ok, ◌>>=◌, if◌then◌else◌, ltb, leb,
}
use gapura.Access.{Role, rank, role_eq, parse, User, Rows, grantable}

abbrev pub max_group_chars : ℕ
max_group_chars = 256

pub data Refusal : Type 0 where
  invalid forbidden not_found conflict : Text → Refusal

-- `Refusal::status`.
abbrev pub status : Refusal → ℕ
status (invalid s) = 400
status (forbidden s) = 403
status (not_found s) = 404
status (conflict s) = 409

-- `Refusal::sentence`.
abbrev pub sentence : Refusal → Text
sentence (invalid s) = s
sentence (forbidden s) = s
sentence (not_found s) = s
sentence (conflict s) = s

abbrev pub outside_your_workspaces : Refusal
outside_your_workspaces =
    forbidden
      (codes "You can only change roles in workspaces you administer, so nothing was changed.")

-- `is_subset` of the ids in the one set among those in the other.
unfoldable pub is_subset : List ℕ → List ℕ → Bool
is_subset ids among = all (λ id. any (λ a. id == a) among) ids

unfoldable pub authorise : Rows → User → List ℕ → Result Refusal Unit
authorise rows caller workspaces =
    if caller.disabled
    then err outside_your_workspaces
    else if is_subset workspaces (grantable rows caller)
    then ok tt
    else err outside_your_workspaces

pub record Change : Type 0 where
  pub before : Option Role
  pub after : Option Role

-- `==` of `Option<Role>`.
abbrev pub same_role : Option Role → Option Role → Bool
same_role none none = true
same_role none (some b) = false
same_role (some a) none = false
same_role (some a) (some b) = role_eq a b

-- `Change::between`.
unfoldable pub between : Option Role → Option Role → Option Change
between before after =
    if same_role before after then none else some (record { before = before; after = after })

-- `Change::mapping_action`.
unfoldable pub mapping_action : Change → Text
mapping_action c = action c.before c.after
  where
    action : Option Role → Option Role → Text
    action none after = codes "create"
    action (some b) none = codes "delete"
    action (some b) (some a) = codes "update"

-- `map.get(id)` of a `BTreeMap<Uuid, _>`.
unfoldable pub held_at {ℓ} : {A : Type ℓ} → ℕ → List (ℕ × A) → Option A
held_at id [] = none
held_at id ((k, v) ∷ m) = let rest = held_at id m in if k == id then some v else rest

unfoldable pub direct_changes : List (ℕ × Role) → List (ℕ × Option Role) → List (ℕ × Change)
direct_changes held [] = []
direct_changes held ((workspace, after) ∷ wanted) =
    let rest = direct_changes held wanted in
    elim (between (held_at workspace held) after) [
      | none ↦ rest
      | some change ↦ (workspace, change) ∷ rest
    ]

-- `char::is_control`: the category Cc.
abbrev is_control : ℕ → Bool
is_control c = leb c 0x1f || leb 0x7f c && leb c 0x9f

-- `char::is_whitespace`: the property White_Space.
abbrev is_whitespace : ℕ → Bool
is_whitespace c =
    leb 9 c && leb c 13
    || c == 0x20
    || c == 0x85
    || c == 0xa0
    || c == 0x1680
    || leb 0x2000 c && leb c 0x200a
    || c == 0x2028
    || c == 0x2029
    || c == 0x202f
    || c == 0x205f
    || c == 0x3000

unfoldable pub invisible : ℕ → Bool
invisible c =
    c == 0xad
    || c == 0x61c
    || c == 0x180e
    || leb 0x200b c && leb c 0x200f
    || leb 0x2028 c && leb c 0x202e
    || leb 0x2060 c && leb c 0x2064
    || leb 0x2066 c && leb c 0x206f
    || c == 0xfeff
    || leb 0xfff9 c && leb c 0xfffb

abbrev starts_with_space : List ℕ → Bool
starts_with_space [] = false
starts_with_space (c ∷ cs) = is_whitespace c

abbrev ends_with_space : List ℕ → Bool
ends_with_space [] = false
ends_with_space (c ∷ []) = is_whitespace c
ends_with_space (c ∷ d ∷ cs) = ends_with_space (d ∷ cs)

unfoldable pub check_group_name : List ℕ → Result Text Unit
check_group_name name =
    if length name == 0
    then err (codes "A group name cannot be empty.")
    else if ltb max_group_chars (length name)
    then err (
        codes "A group name is at most "
        ++ decimal max_group_chars
        ++ codes " characters; this one has "
        ++ decimal (length name)
        ++ codes ".")
    else if any is_control name
    then err (codes "A group name cannot contain control characters.")
    else if any invisible name
    then err (
        codes
          "A group name cannot contain characters that show nothing or reverse the text around them.")
    else if starts_with_space name || ends_with_space name
    then err (
        codes
          "A group name cannot start or end with a space: it has to equal the groups claim exactly.")
    else ok tt

-- The group of a mapping to remove.
unfoldable pub group_to_remove : List ℕ → Result Refusal Unit
group_to_remove name =
    if length name == 0 || any (λ c. c == 0) name
    then err (invalid (codes "Name the group of the mapping to remove."))
    else ok tt
