-- ===== src/Access/Tests.antt =====
-- Runs of the code of crates/gapura-control/src/access.rs.
use gapura.Prelude.{
  ◌≤◌, ◌≡◌, ◌↔◌, inr, refl, true, false, [], ◌∷◌, none, some, In, codes, text_eq, text_le,
}
use gapura.Prelude.Order.{lex_le, insert_keyed, sort_keyed}
use gapura.Access.{
  viewer, editor, admin, rank, Source, direct, group, source_eq, User, Workspace, Rows, Access,
  parse, max_role, sorted, dedup_after, applies_directly, applies_to_group, collected, effective,
  grantable, waiting, access_in,
}
use gapura.Access.Gifts.{Gives}
use gapura.Access.Effective.{IsAnswer, effective-IsAnswer}
use gapura.Access.Administered.{Administers, grantable_iff}
use gapura.Access.Shown.{Extends, waiting_iff, effective-Extends}

unfoldable pub program : Unit {0}
unfolding parse source_eq max_role sorted dedup_after applies_directly applies_to_group collected
    effective grantable waiting access_in text_eq text_le lex_le insert_keyed sort_keyed
program = tt

abbrev pub ann : User
ann = record {
  id = 11;
  is_superuser = false;
  disabled = false;
  groups = codes "ops" ∷ codes "all" ∷ [];
}

abbrev pub bob : User
bob = record { id = 12; is_superuser = true; disabled = true; groups = [] }

abbrev pub acme : Rows
acme = record {
  workspaces = record { id = 1; name = codes "shop" } ∷ record { id = 2; name = codes "bank" } ∷ [];
  grants =
      record { user = 11; workspace = 1; role = viewer }
      ∷ record { user = 12; workspace = 2; role = admin }
      ∷ [];
  group_grants =
      record { name = codes "ops"; workspace = 1; role = admin }
      ∷ record { name = codes "all"; workspace = 1; role = viewer }
      ∷ record { name = codes "all"; workspace = 1; role = viewer }
      ∷ [];
}

abbrev ann_in_shop : Access
ann_in_shop = record {
  role = admin;
  sources = direct viewer ∷ group (codes "all") viewer ∷ group (codes "ops") admin ∷ [];
}

highest_wins : effective acme ann 1 ≡ some ann_in_shop
unfolding program
highest_wins = refl

disabled_superuser : effective acme bob 1 ≡ none
unfolding program
disabled_superuser = refl

where_ann_grants : grantable acme ann ≡ 1 ∷ []
unfolding program
where_ann_grants = refl

effective-IsAnswer_example : IsAnswer acme ann 1 (effective acme ann 1)
effective-IsAnswer_example = effective-IsAnswer acme ann 1

grantable_iff_example :
    In 2 (grantable acme ann)
    ↔ ((w : Workspace) × In w acme.workspaces × (2 ≡ w.id) × Administers acme ann 2)
grantable_iff_example = grantable_iff acme ann 2

waiting_iff_example : (waiting acme ann ≡ true) ↔ (
    (ann.disabled ≡ false)
    × (ann.is_superuser ≡ false)
    × ((w : Workspace) → In w acme.workspaces → (s : Source) → ¬ Gives acme ann w.id s))
waiting_iff_example = waiting_iff acme ann

abbrev shop : Workspace
shop = record { id = 1; name = codes "shop" }

-- Another grant for the same account.
abbrev acme_more : Rows
acme_more = record acme {
  grants = record { user = 11; workspace = 1; role = editor } ∷ acme.grants;
}

acme-Extends : Extends acme acme_more
acme-Extends = record { grants = λ g i. inr i; group_grants = λ g i. i }

effective-Extends_example :
    (b : Access) × (effective acme_more ann 1 ≡ some b)
    × (rank ann_in_shop.role ≤ rank b.role)
    × ((s : Source) → In s ann_in_shop.sources → In s b.sources)
effective-Extends_example =
    effective-Extends acme acme_more ann 1 ann_in_shop acme-Extends highest_wins
