-- ===== src/Redirects.antt =====
-- The paths of URL rewrites and the locations of redirects: `rewrite_path` and
-- `redirect_location` of crates/gapura/src/proxy/select.rs.
pub mod Rewriting
pub mod Locations
pub mod Tests
use gapura.Prelude.{
  decimal, ℕ, zero, suc, ◌+◌, ◌/◌, ◌%◌, Bool, true, false, not, ◌&&◌, Option, none, some, List, [],
  ◌∷◌, ◌++◌, ltb, ◌==◌, if◌then◌else◌, length, drop, Text, codes, text_eq, and_then,
}
use gapura.Path.{is_char_boundary}
use gapura.Config.{
  PathMatch, exact, prefix, regex, PathRewrite, replace_full_path, replace_prefix_match, Redirect,
}

abbrev pub is_nil : Text → Bool
is_nil [] = true
is_nil (c ∷ s) = false

-- `trim_end_matches('/')`.
unfoldable pub trim_end_slashes : Text → Text
trim_end_slashes [] = []
trim_end_slashes (c ∷ s) =
    let rest = trim_end_slashes s in if c == b'/' && is_nil rest then [] else c ∷ rest

-- `path.get(n..).unwrap_or("")`: nothing past the end or off a character boundary.
unfoldable pub get_from : Text → ℕ → Text
get_from path n = let rest = drop n path in if is_char_boundary rest then rest else []

-- What the match leaves of the path; a regex winner is `unreachable!`, a panic.
unfoldable pub rest_after : PathMatch → Text → Option Text
rest_after (prefix p) path =
    if text_eq p (codes "/") then some path else some (get_from path (length p))
rest_after (exact p) path = some []
rest_after (regex p) path = none

abbrev pub or_root : Text → Text
or_root p = if is_nil p then codes "/" else p

-- In front of what is left, the replacement.
unfoldable pub replace_prefix : Text → Text → Text
replace_prefix replacement rest =
    if text_eq replacement (codes "/")
    then or_root rest
    else or_root (trim_end_slashes replacement ++ rest)

unfoldable pub rewrite_path : PathRewrite → Text → PathMatch → Option Text
rewrite_path (replace_full_path p) path_in matched = some p
rewrite_path (replace_prefix_match replacement) path_in matched =
    and_then (rest_after matched path_in) (λ rest. some (replace_prefix replacement rest))

abbrev pub or_text : Option Text → Text → Text
or_text none t = t
or_text (some s) t = s

-- The port that the location names, before the well-known one is left out.
unfoldable pub location_port : Redirect → ℕ → Option ℕ
location_port r port_in = elim r.port [
  | some p ↦ some p
  | none ↦ elim r.scheme [ some s ↦ none | none ↦ some port_in ]
]

abbrev pub well_known : Text → ℕ
well_known scheme = if text_eq scheme (codes "https") then 443 else 80

unfoldable pub port_part : Text → Option ℕ → Text
port_part scheme none = []
port_part scheme (some p) = if p == well_known scheme then [] else codes ":" ++ decimal p

abbrev pub query_part : Option Text → Text
query_part none = []
query_part (some q) = codes "?" ++ q

unfoldable pub location_path : Redirect → Text → PathMatch → Option Text
location_path r path_in matched = elim r.path [
  | some m ↦ rewrite_path m path_in matched
  | none ↦ some path_in
]

unfoldable pub redirect_location :
    Redirect → Text → Text → ℕ → Text → Option Text → PathMatch → Option Text
redirect_location r scheme_in host_in port_in path_in query matched =
    let scheme = or_text r.scheme scheme_in in
    let host = or_text r.hostname host_in in
    and_then (location_path r path_in matched) (λ path. some (
      scheme
      ++ codes "://"
      ++ host
      ++ port_part scheme (location_port r port_in)
      ++ path
      ++ query_part query))
