-- ===== src/Precedence/Before.antt =====
-- The order of matches that the Gateway API asks for, spelled out, and that
-- `sort_port_table` of crates/gapura-core/src/translate/precedence.rs puts a table into it.
use mathlib.Core.List.{Perm}
use mathlib.Core.List.Perm
use mathlib.Core.Option.{some-injective}
use gapura.Prelude.{
  ℕ, ◌<◌, ◌≡◌, ◌≢◌, ◌⊎◌, inl, inr, ap, sym, ◌∙◌, true, Option, none, some, List, [], ◌∷◌, get_elem?,
  length, arith, All, Text, text_le, text_le_total, text_le_antisymm, Bool-cases, Option-cases,
  and_then,
}
use gapura.Prelude.Order.{
  Order, nat_order, text_order, reverse_order, pair_order, lex_le, sort_keyed, IsSortedBy,
  sort_keyed-IsSortedBy, sort_keyed-perm, sort_keyed-All,
}
use gapura.Hostname.{specificity}
use gapura.Config.{
  ListenerConfig, PortEntry, PathMatch, exact, prefix, regex, RouteMatch, RouteRule,
}
use gapura.Precedence.{
  Key, key_order, path_rank, key, bit, entry_key, keyed, entries_of, sort_port_table,
}
use gapura.Precedence.Sorted.{HasKey, keyed-HasKey}

-- The greater number goes first, and of equal ones `rest` decides; and so on.
abbrev pub Greater : ℕ → ℕ → Type 0 → Type 0
Greater a b rest = (b < a) ⊎ ((a ≡ b) × rest)

abbrev pub Lower : ℕ → ℕ → Type 0 → Type 0
Lower a b rest = (a < b) ⊎ ((a ≡ b) × rest)

abbrev pub Earlier : Text → Text → Type 0 → Type 0
Earlier t u rest = ((text_le t u ≡ true) × (t ≢ u)) ⊎ ((t ≡ u) × rest)

-- An exact path goes before a prefix, and both before a regular expression.
abbrev pub Stronger : PathMatch → PathMatch → Type 0 → Type 0
Stronger (exact p) (exact q) rest = rest
Stronger (exact p) (prefix q) rest = Unit
Stronger (exact p) (regex q) rest = Unit
Stronger (prefix p) (exact q) rest = ⊥
Stronger (prefix p) (prefix q) rest = rest
Stronger (prefix p) (regex q) rest = Unit
Stronger (regex p) (exact q) rest = ⊥
Stronger (regex p) (prefix q) rest = ⊥
Stronger (regex p) (regex q) rest = rest

abbrev pub path_text : PathMatch → Text
path_text (exact p) = p
path_text (prefix p) = p
path_text (regex p) = p

-- A match of a method goes before one of any.
abbrev pub WithMethod : Option Text → Option Text → Type 0 → Type 0
WithMethod none none rest = rest
WithMethod none (some n) rest = ⊥
WithMethod (some m) none rest = Unit
WithMethod (some m) (some n) rest = rest

module _ (h j : Option Text) (m n : RouteMatch) (r s : RouteRule) (x y : Text) where
  -- What is asked of two matches, the first of which goes before the second or is level with it.
  abbrev pub Before : Type 0
  Before = Greater (specificity h).0 (specificity j).0 (
      Greater (specificity h).1 (specificity j).1 (
        Stronger m.path n.path (
          Greater (length (path_text m.path)) (length (path_text n.path)) (
            WithMethod m.method n.method (
              Greater (length m.headers) (length n.headers) (
                Greater (length m.query) (length n.query) (
                  Earlier r.creation_timestamp s.creation_timestamp (
                    Earlier r.route s.route
                      (Lower r.rule_index s.rule_index (text_le x y ≡ true))))))))))

greater_step :
    {B Q : Type 0} (p : Order B) (a c : ℕ) (b d : B)
    → (p.le b d ≡ true → Q)
    → lex_le (reverse_order nat_order) p (a, b) (c, d) ≡ true
    → Greater a c Q
unfolding lex_le
greater_step p a c b d f h =
    let step : (c < a) ⊎ ((a ≡ c) × (p.le b d ≡ true)) = ground arith in
    elim step [ inl lt ↦ inl lt | inr (e, le) ↦ inr (e, f le) ]

lower_step :
    {B Q : Type 0} (p : Order B) (a c : ℕ) (b d : B)
    → (p.le b d ≡ true → Q)
    → lex_le nat_order p (a, b) (c, d) ≡ true
    → Lower a c Q
unfolding lex_le
lower_step p a c b d f h =
    let step : (a < c) ⊎ ((a ≡ c) × (p.le b d ≡ true)) = ground arith in
    elim step [ inl lt ↦ inl lt | inr (e, le) ↦ inr (e, f le) ]

pair_step :
    {B Q : Type 0} (p : Order B) (a c : ℕ × ℕ) (b d : B)
    → (p.le b d ≡ true → Q)
    → lex_le (reverse_order (pair_order nat_order nat_order)) p (a, b) (c, d) ≡ true
    → Greater a.0 c.0 (Greater a.1 c.1 Q)
unfolding lex_le
pair_step p (a, a') (c, c') b d f h =
    let step : (c < a) ⊎ ((a ≡ c) × ((c' < a') ⊎ ((a' ≡ c') × (p.le b d ≡ true)))) = ground arith in
    elim step [
      | inl lt ↦ inl lt
      | inr (e, k) ↦ elim k [ inl lt ↦ inr (e, inl lt) | inr (e', le) ↦ inr (e, inr (e', f le)) ]
    ]

text_le_refl : (t : Text) → text_le t t ≡ true
text_le_refl t = elim (text_le_total t t) [ inl e ↦ e | inr e ↦ e ]

earlier_step :
    {B Q : Type 0} (p : Order B) (t u : Text) (b d : B)
    → (p.le b d ≡ true → Q)
    → lex_le text_order p (t, b) (u, d) ≡ true
    → Earlier t u Q
unfolding lex_le
earlier_step p t u b d f h =
    let le : text_le t u ≡ true = ground arith in
    elim (Bool-cases (text_le u t)) [
      | inl e ↦ inr (text_le_antisymm t u le e, f (ground arith))
      | inr e ↦ inl (
        le,
        λ same. let bad = ap (λ v. text_le u v) same ∙ text_le_refl u in ground (arith, e, bad),
      )
    ]

path_step :
    {Q : Type 0} (p q : PathMatch)
    → Greater (path_rank p).0 (path_rank q).0 (Greater (path_rank p).1 (path_rank q).1 Q)
    → Stronger p q (Greater (length (path_text p)) (length (path_text q)) Q)
unfolding path_rank
path_step (exact p) (exact q) (inl h) = absurd (omega arith)
path_step (exact p) (exact q) (inr h) = h.1
path_step (exact p) (prefix q) h = tt
path_step (exact p) (regex q) h = tt
path_step (prefix p) (exact q) (inl h) = absurd (omega arith)
path_step (prefix p) (exact q) (inr h) = absurd (ground (arith, h.0))
path_step (prefix p) (prefix q) (inl h) = absurd (omega arith)
path_step (prefix p) (prefix q) (inr h) = h.1
path_step (prefix p) (regex q) h = tt
path_step (regex p) (exact q) (inl h) = absurd (omega arith)
path_step (regex p) (exact q) (inr h) = absurd (ground (arith, h.0))
path_step (regex p) (prefix q) (inl h) = absurd (omega arith)
path_step (regex p) (prefix q) (inr h) = absurd (ground (arith, h.0))
path_step (regex p) (regex q) (inl h) = absurd (omega arith)
path_step (regex p) (regex q) (inr h) = h.1

method_step : {Q : Type 0} (m n : Option Text) → Greater (bit m) (bit n) Q → WithMethod m n Q
method_step none none (inl h) = absurd (omega arith)
method_step none none (inr h) = h.1
method_step none (some n) (inl h) = absurd (omega arith)
method_step none (some n) (inr h) = absurd (ground (arith, h.0))
method_step (some m) none h = tt
method_step (some m) (some n) (inl h) = absurd (omega arith)
method_step (some m) (some n) (inr h) = h.1

key-Before :
    (h j : Option Text) (m n : RouteMatch) (r s : RouteRule) (x y : Text)
    → key_order.le (key h m r x) (key j n s y) ≡ true
    → Before h j m n r s x y
unfolding key
key-Before h j m n r s x y e =
    pair_step _ (specificity h) (specificity j) _ _
      (λ e. path_step m.path n.path (
        greater_step _ _ _ _ _
          (λ e.
            greater_step _ _ _ _ _
              (λ e. method_step m.method n.method (
                greater_step _ _ _ _ _
                  (λ e.
                    greater_step _ _ _ _ _
                      (λ e.
                        greater_step _ _ _ _ _
                          (λ e.
                            earlier_step _ _ _ _ _
                              (λ e. earlier_step _ _ _ _ _ (λ e. lower_step _ _ _ _ _ (λ e. e) e) e)
                              e)
                          e)
                      e)
                  e))
              e)
          e))
      e

module _ (listeners : List ListenerConfig) where
  -- What an entry's indexes lead to.
  pub record IsFound (e : PortEntry) (l : ListenerConfig) (r : RouteRule) : Type 0 where
    pub listed : get_elem? listeners e.listener ≡ some l
    pub held : get_elem? l.rules e.rule ≡ some r

  abbrev pub Precedes : PortEntry → PortEntry → Type 0
  Precedes e f =
      (l k : ListenerConfig) × (r s : RouteRule) × IsFound e l r
      × IsFound f k s
      × Before e.hostname f.hostname e.matcher f.matcher r s l.id k.id

  abbrev pub AllPrecede : List PortEntry → Type 0
  AllPrecede [] = Unit
  AllPrecede (e ∷ es) = All (Precedes e) es × AllPrecede es

  entry_key-IsFound :
      (e : PortEntry) (k : Key)
      → entry_key listeners e ≡ some k
      → (l : ListenerConfig) × (r : RouteRule) × IsFound e l r
        × (key e.hostname e.matcher r l.id ≡ k)
  unfolding entry_key
  entry_key-IsFound e k h = elim (Option-cases (get_elem? listeners e.listener)) [
    | inl n ↦ absurd (ground arith)
    | inr (l, p) ↦ elim (Option-cases (get_elem? l.rules e.rule)) [
      | inl n ↦ absurd (ground arith)
      | inr (r, q) ↦
          let step =
            sym (
              ap
                (λ o. and_then o (λ l.
                  and_then (get_elem? l.rules e.rule)
                    (λ rule. some (key e.hostname e.matcher rule l.id))))
                p
              ∙ ap (λ o. and_then o (λ rule. some (key e.hostname e.matcher rule l.id))) q)
            ∙ h in
          (l, r, record { listed = p; held = q }, some-injective _ _ step)
    ]
  ]

  le-Precedes :
      (x y : Key × PortEntry)
      → HasKey listeners x
      → HasKey listeners y
      → key_order.le x.0 y.0 ≡ true
      → Precedes x.1 y.1
  le-Precedes (k, e) (j, f) p q le =
      let (l, r, there, same) = entry_key-IsFound e k p in
      let (l', s, there', same') = entry_key-IsFound f j q in
      (
        l,
        l',
        r,
        s,
        there,
        there',
        key-Before e.hostname f.hostname e.matcher f.matcher r s l.id l'.id (
            ap (λ a. key_order.le a (key f.hostname f.matcher s l'.id)) same
            ∙ ap (key_order.le k) same'
            ∙ le),
      )

  first-Precedes :
      (x : Key × PortEntry) (ys : List (Key × PortEntry))
      → HasKey listeners x
      → All (HasKey listeners) ys
      → All (λ y. key_order.le x.0 y.0 ≡ true) ys
      → All (Precedes x.1) (entries_of ys)
  first-Precedes x [] h hs s = tt
  first-Precedes x (y ∷ ys) h hs s = (le-Precedes x y h hs.0 s.0, first-Precedes x ys h hs.1 s.1)

  IsSortedBy-AllPrecede :
      (xs : List (Key × PortEntry))
      → All (HasKey listeners) xs
      → IsSortedBy key_order xs
      → AllPrecede (entries_of xs)
  IsSortedBy-AllPrecede [] h s = tt
  IsSortedBy-AllPrecede (x ∷ xs) h s =
      (first-Precedes x xs h.0 h.1 s.0, IsSortedBy-AllPrecede xs h.1 s.1)

-- Sorting a table keeps its entries, each as often as it was there, and puts each before those that
-- the Gateway API has it go before: the one with the more specific hostname, then with an exact
-- path before a prefix before a regular expression, then with the longer path, with a method, with
-- more headers, with more query parameters, of the older route, and of the route, rule and listener
-- that come first.
pub sort_port_table-AllPrecede :
    (entries out : List PortEntry) (listeners : List ListenerConfig)
    → sort_port_table entries listeners ≡ some out
    → Perm out entries × AllPrecede listeners out
unfolding sort_port_table
sort_port_table-AllPrecede [] out listeners h =
    let e : out ≡ [] = ground arith in rw e (Perm.refl [], tt)
sort_port_table-AllPrecede (e ∷ []) out listeners h =
    let p : out ≡ e ∷ [] = ground arith in rw p (Perm.refl (e ∷ []), (tt, tt))
sort_port_table-AllPrecede (e ∷ f ∷ es) out listeners h =
    elim (Option-cases (keyed listeners (e ∷ f ∷ es))) [
      | inl n ↦ absurd (ground arith)
      | inr (xs, p) ↦
          let q : out ≡ entries_of (sort_keyed key_order xs) = ground arith in
          let (keys, back) = keyed-HasKey listeners (e ∷ f ∷ es) xs p in
          let same : Perm (entries_of (sort_keyed key_order xs)) (e ∷ f ∷ es) =
            rw (← back) (Perm.map (λ x. x.1) (sort_keyed-perm key_order xs)) in
          rw q (
            same,
            IsSortedBy-AllPrecede listeners (sort_keyed key_order xs)
                (sort_keyed-All key_order (HasKey listeners) xs keys)
                (sort_keyed-IsSortedBy key_order xs),
          )
    ]
