-- ===== src/Precedence/Whole.antt =====
-- That `sort_port_table` of crates/gapura-core/src/translate/precedence.rs indexes nothing out of
-- range, and keeps to the entries of its table.
use gapura.Prelude.{
  ◌≡◌, ◌↔◌, inl, inr, refl, ap, sym, ◌∙◌, subst, some, and_then, get_elem?, List, [], ◌∷◌, In, All,
  In-map_sound, All-In, All-intro, arith, Option-cases,
}
use gapura.Prelude.Order.{sort_keyed, sort_keyed-All}
use gapura.Config.{ListenerConfig, PortEntry, RouteRule}
use gapura.Precedence.{Key, key_order, key, entry_key, keyed, entries_of, sort_port_table}
use gapura.Precedence.Sorted.{keyed-HasKey, In-entries_of, In-sort_port_table}

-- The indexes of an entry lead to a rule.
pub record IsIndexed (listeners : List ListenerConfig) (e : PortEntry) : Type 0 where
  pub listener : ListenerConfig
  pub found : get_elem? listeners e.listener ≡ some listener
  pub rule : RouteRule
  pub held : get_elem? listener.rules e.rule ≡ some rule

module _ (listeners : List ListenerConfig) where
  IsIndexed-key :
      (e : PortEntry) → IsIndexed listeners e → (k : Key) × (entry_key listeners e ≡ some k)
  unfolding entry_key
  IsIndexed-key e x =
      let k = key e.hostname e.matcher x.rule x.listener.id in
      (
        k,
        ap
              (λ o. and_then o (λ l.
                and_then (get_elem? l.rules e.rule) (λ r. some (key e.hostname e.matcher r l.id))))
              x.found
            ∙ ap (λ o. and_then o (λ r. some (key e.hostname e.matcher r x.listener.id))) x.held,
      )

  keyed_total :
      (es : List PortEntry)
      → All (IsIndexed listeners) es
      → (xs : List (Key × PortEntry)) × (keyed listeners es ≡ some xs)
  unfolding keyed
  keyed_total [] h = ([], refl)
  keyed_total (e ∷ es) h =
      let (k, p) = IsIndexed-key e h.0 in
      let (xs, q) = keyed_total es h.1 in
      (
        (k, e) ∷ xs,
        ap (λ o. and_then o (λ k. and_then (keyed listeners es) (λ rest. some ((k, e) ∷ rest)))) p
            ∙ ap (λ o. and_then o (λ rest. some ((k, e) ∷ rest))) q,
      )

  sorted_sound :
      (f : PortEntry) (es : List PortEntry) (xs : List (Key × PortEntry))
      → keyed listeners es ≡ some xs
      → In f (entries_of (sort_keyed key_order xs))
      → In f es
  sorted_sound f es xs h i =
      let (keys, back) = keyed-HasKey listeners es xs h in
      let all =
        All-intro (λ x. In x.1 es) xs (λ x j. subst (In x.1) back (In-entries_of x.0 x.1 xs j)) in
      let (x, j, same) = In-map_sound (λ x. x.1) f (sort_keyed key_order xs) i in
      subst (λ y. In y es) (sym same)
        (All-In (λ x. In x.1 es) x (sort_keyed key_order xs)
          (sort_keyed-All key_order (λ x. In x.1 es) xs all) j)

  sort_port_table_sound :
      (f : PortEntry) (es out : List PortEntry)
      → sort_port_table es listeners ≡ some out
      → In f out
      → In f es
  unfolding sort_port_table
  sort_port_table_sound f [] out h i = let e : out ≡ [] = ground (arith, h) in subst (In f) e i
  sort_port_table_sound f (e ∷ []) out h i =
      let q : out ≡ e ∷ [] = ground (arith, h) in subst (In f) q i
  sort_port_table_sound f (e ∷ g ∷ es) out h i =
      elim (Option-cases (keyed listeners (e ∷ g ∷ es))) [
        | inl n ↦ absurd (ground (arith, h, n))
        | inr (xs, p) ↦
            let q : out ≡ entries_of (sort_keyed key_order xs) = ground (arith, h, p) in
            sorted_sound f (e ∷ g ∷ es) xs p (subst (In f) q i)
      ]

  sort_port_table-some :
      (es : List PortEntry)
      → All (IsIndexed listeners) es
      → (out : List PortEntry) × (sort_port_table es listeners ≡ some out)
  unfolding sort_port_table
  sort_port_table-some [] h = ([], refl)
  sort_port_table-some (e ∷ []) h = (e ∷ [], refl)
  sort_port_table-some (e ∷ f ∷ es) h =
      let (xs, q) = keyed_total (e ∷ f ∷ es) h in
      (
        entries_of (sort_keyed key_order xs),
        ap (λ o. and_then o (λ xs. some (entries_of (sort_keyed key_order xs)))) q,
      )

  -- A table whose indexes are in range is sorted without a panic, and keeps its entries.
  pub sort_port_table_total :
      (es : List PortEntry)
      → All (IsIndexed listeners) es
      → (out : List PortEntry) × (sort_port_table es listeners ≡ some out)
        × ((f : PortEntry) → In f out ↔ In f es)
  sort_port_table_total es h =
      let (out, e) = sort_port_table-some es h in
      (out, e, λ f. (sort_port_table_sound f es out e, In-sort_port_table f es out listeners e))
