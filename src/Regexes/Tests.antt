-- ===== src/Regexes/Tests.antt =====
-- A compiler that refuses one pattern, for `compile_regexes` of
-- crates/gapura-core/src/matcher.rs.
use gapura.Prelude.{
  ℕ, ◌≡◌, refl, inl, inr, true, Bool, some, none, Option, List, [], ◌∷◌, if◌then◌else◌, Text, codes,
  text_eq,
}
use gapura.Config.{lookup, Config, PortEntry, regex}
use gapura.Regexes.{
  is_skipped, add_pattern, compile_path, compile_entries, compile_ports, compile_regexes,
}
use gapura.Regexes.Compiled.{compile_regexes-lookup}

program : Unit {0}
unfolding text_eq lookup add_pattern compile_path compile_entries compile_ports
program = tt

abbrev anything : Text → Bool
anything path = true

abbrev compile : Text → Option (Text → Bool)
compile p = if text_eq p (codes "(") then none else some anything

abbrev entry : Text → PortEntry
entry p = record {
  listener = 0;
  hostname = none;
  matcher = record { path = regex p; headers = []; query = []; method = none };
  rule = 0;
}

abbrev table : ℕ × List PortEntry
table = (80, entry (codes "(") ∷ entry (codes "a.*") ∷ entry (codes "a.*") ∷ [])

abbrev config : Config
config = record {
  listeners = [];
  ports = table ∷ [];
  clusters = [];
  credentials = [];
  credential_workspaces = [];
  consumer_rate_limits = [];
  consumers = [];
}

once_each : compile_regexes compile config ≡ ((codes "a.*", anything) ∷ [], codes "(" ∷ [])
unfolding program
once_each = refl

compile_regexes-lookup_example :
    (lookup (codes "a.*") (compile_regexes compile config).0 ≡ compile (codes "a.*"))
    × ((p : Text) → is_skipped p (compile_regexes compile config).1 ≡ true → compile p ≡ none)
compile_regexes-lookup_example =
    compile_regexes-lookup compile config table (entry (codes "a.*")) (codes "a.*") (inl refl)
      (inr (inl refl)) refl
