-- ===== src/Precedence.antt =====
-- Gateway API match precedence: crates/gapura-core/src/translate/precedence.rs.
pub mod Sorted
pub mod Whole
pub mod Before
use gapura.Prelude.{
  and_then, ℕ, Bool, true, false, Option, none, some, List, [], ◌∷◌, map, length, get_elem?, Text,
}
use gapura.Prelude.Order.{
  Order, nat_order, text_order, reverse_order, pair_order, lex_le, sort_keyed,
}
use gapura.Hostname.{specificity}
use gapura.Config.{
  ListenerConfig, PortEntry, PathMatch, exact, prefix, regex, RouteMatch, RouteRule,
}

-- The tuple of the source, as pairs nested to the right; `Reverse` is in the order.
abbrev pub Key : Type 0
Key = (ℕ × ℕ) × (ℕ × (ℕ × (ℕ × (ℕ × (ℕ × (Text × (Text × (ℕ × Text))))))))

abbrev pub key_order : Order Key
key_order =
    let down = reverse_order nat_order in
    pair_order (reverse_order (pair_order nat_order nat_order)) (
      pair_order down (
        pair_order down (
          pair_order down (
            pair_order down (
              pair_order down (
                pair_order text_order
                  (pair_order text_order (pair_order nat_order text_order))))))))

-- The kind of the path match and the length of its text in bytes.
unfoldable pub path_rank : PathMatch → ℕ × ℕ
path_rank (exact p) = (2, length p)
path_rank (prefix p) = (1, length p)
path_rank (regex p) = (0, length p)

abbrev bit : Option Text → ℕ
bit none = 0
bit (some m) = 1

unfoldable pub key : Option Text → RouteMatch → RouteRule → Text → Key
key hostname m rule listener_id = (
  specificity hostname,
  (
    (path_rank m.path).0,
    (
      (path_rank m.path).1,
      (
        bit m.method,
        (
          length m.headers,
          (length m.query, (rule.creation_timestamp, (rule.route, (rule.rule_index, listener_id)))),
        ),
      ),
    ),
  ),
)

-- The key of an entry; `none` where an index of it is out of range, and the source panics.
unfoldable pub entry_key : List ListenerConfig → PortEntry → Option Key
entry_key listeners e =
    and_then (get_elem? listeners e.listener)
      (λ l. and_then (get_elem? l.rules e.rule) (λ rule. some (key e.hostname e.matcher rule l.id)))

-- Each entry behind its key.
unfoldable pub keyed : List ListenerConfig → List PortEntry → Option (List (Key × PortEntry))
keyed listeners [] = some []
keyed listeners (e ∷ es) =
    and_then (entry_key listeners e)
      (λ k. and_then (keyed listeners es) (λ rest. some ((k, e) ∷ rest)))

abbrev pub entries_of : List (Key × PortEntry) → List PortEntry
entries_of = map (λ x. x.1)

-- The library sorts a table of fewer than two entries without a key.
unfoldable pub sort_port_table : List PortEntry → List ListenerConfig → Option (List PortEntry)
sort_port_table [] listeners = some []
sort_port_table (e ∷ []) listeners = some (e ∷ [])
sort_port_table (e ∷ f ∷ es) listeners =
    and_then (keyed listeners (e ∷ f ∷ es)) (λ xs. some (entries_of (sort_keyed key_order xs)))
