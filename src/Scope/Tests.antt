-- ===== src/Scope/Tests.antt =====
-- Runs of the code of crates/gapura-control/src/scope.rs.
use gapura.Prelude.{◌≡◌, refl, List, [], ◌∷◌, Text, codes, text_eq}
use gapura.Config.{lookup}
use gapura.Scope.{all_namespaces, only, add_granted, granted_to, visible_from, visible}
use gapura.Scope.Granted.{IsScopeOf, visible-IsScope}

program : Unit {0}
unfolding add_granted granted_to visible_from lookup text_eq
program = tt

abbrev teams : List (Text × List Text)
teams = (codes "ops", codes "*" ∷ []) ∷ (codes "shop", codes "web" ∷ codes "db" ∷ []) ∷ []

star_wins : visible (codes "shop" ∷ codes "ops" ∷ []) teams ≡ all_namespaces
unfolding program
star_wins = refl

unmapped : visible (codes "guests" ∷ []) teams ≡ only []
unfolding program
unmapped = refl

visible-IsScope_example : IsScopeOf teams [] (codes "shop" ∷ []) (visible (codes "shop" ∷ []) teams)
visible-IsScope_example = visible-IsScope teams (codes "shop" ∷ [])
