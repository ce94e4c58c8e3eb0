-- ===== src/Regexes.antt =====
-- The regular expressions of the port tables: `compile_regexes` of
-- crates/gapura-core/src/matcher.rs. The library's compiler is a parameter: a pattern that it
-- accepts is a test on paths.
pub mod Compiled
pub mod Tests
use gapura.Prelude.{
  ℕ, Bool, true, false, ◌||◌, Option, none, some, List, [], ◌∷◌, ◌++◌, if◌then◌else◌, any, Text,
  text_eq,
}
use gapura.Config.{lookup, Config, PortEntry, PathMatch, exact, prefix, regex}
use gapura.Matcher.{RegexMap}

abbrev pub is_found : Option (Text → Bool) → Bool
is_found none = false
is_found (some re) = true

-- `out.contains_key(pattern)`.
abbrev pub has_pattern : Text → RegexMap → Bool
has_pattern p out = is_found (lookup p out)

-- `skipped.iter().any(|s| s == pattern)`.
abbrev pub is_skipped : Text → List Text → Bool
is_skipped p skipped = any (λ s. text_eq s p) skipped

module _ (compile : Text → Option (Text → Bool)) where
  unfoldable pub add_pattern : Text → RegexMap × List Text → RegexMap × List Text
  add_pattern p (out, skipped) =
      if has_pattern p out || is_skipped p skipped
      then (out, skipped)
      else elim (compile p) [ some re ↦ ((p, re) ∷ out, skipped) | none ↦ (out, skipped ++ p ∷ []) ]

  unfoldable pub compile_path : PathMatch → RegexMap × List Text → RegexMap × List Text
  compile_path (exact p) s = s
  compile_path (prefix p) s = s
  compile_path (regex p) s = add_pattern p s

  unfoldable pub compile_entries : List PortEntry → RegexMap × List Text → RegexMap × List Text
  compile_entries [] s = s
  compile_entries (e ∷ es) s = compile_entries es (compile_path e.matcher.path s)

  unfoldable pub compile_ports :
      List (ℕ × List PortEntry) → RegexMap × List Text → RegexMap × List Text
  compile_ports [] s = s
  compile_ports ((port, entries) ∷ rest) s = compile_ports rest (compile_entries entries s)

  abbrev pub compile_regexes : Config → RegexMap × List Text
  compile_regexes c = compile_ports c.ports ([], [])
