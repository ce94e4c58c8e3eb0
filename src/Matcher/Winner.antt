-- ===== src/Matcher/Winner.antt =====
-- Which entry `match_port_with` of crates/gapura-core/src/matcher.rs serves a request by.
use gapura.Prelude.{
  ℕ, ◌≡◌, inl, inr, refl, sym, ap, ◌∙◌, Bool, true, false, Option, none, some, List, [], ◌∷◌, arith,
  In, All, All-In, find-none, find, get_elem?, Bool-cases, Option-cases, and_then-eq-some,
}
use gapura.Config.{Config, ListenerConfig, PortEntry, RouteRule}
use gapura.Precedence.{key_order, sort_port_table}
use gapura.Precedence.Sorted.{Beats, IsRanked, sort_port_table-IsRanked, In-sort_port_table}
use gapura.Matcher.{RegexMap, RequestAttrs, PortMatch, applies, table_of, match_port_with}

-- The first entry that passes is there, passes, and beats the others that pass.
record Best (test : PortEntry → Bool) (listeners : List ListenerConfig) (entries : List PortEntry)
    (e : PortEntry) : Type 0 where
  there : In e entries
  passes : test e ≡ true
  beats : (f : PortEntry) → In f entries → test f ≡ true → Beats listeners e f

Beats-refl : (listeners : List ListenerConfig) (e : PortEntry) → Beats listeners e e
Beats-refl listeners e k j p q =
    let same : k ≡ j = cc in
    elim (key_order.total k k) [ inl h ↦ rw (← same) h | inr h ↦ rw (← same) h ]

find-Best :
    (test : PortEntry → Bool) (listeners : List ListenerConfig) (entries : List PortEntry)
    (e : PortEntry)
    → IsRanked listeners entries
    → find test entries ≡ some e
    → Best test listeners entries e
find-Best test listeners [] e s h = absurd (ground arith)
find-Best test listeners (x ∷ xs) e s h = elim (Bool-cases (test x)) [
  | inl p ↦
      let same : x ≡ e = ground arith in
      rw (← same) (record {
        there = inl refl;
        passes = p;
        beats = λ f i t. elim i [
          | inl q ↦ rw q (Beats-refl listeners x)
          | inr j ↦ All-In (Beats listeners x) f xs s.0 j
        ];
      })
  | inr n ↦
      let b = find-Best test listeners xs e s.1 (rw n at h) in
      record {
        there = inr b.there;
        passes = b.passes;
        beats = λ f i t. elim i [ inl q ↦ absurd (later f q t n) | inr j ↦ b.beats f j t ];
      }
]
  where
    later : (f : PortEntry) → f ≡ x → test f ≡ true → test x ≡ false → ⊥
    later f q t n = cc (ap test q)

match_port_with-entry :
    (c : Config) (port : ℕ) (req : RequestAttrs) (regexes : RegexMap) (entries : List PortEntry)
    (m : PortMatch)
    → table_of port c.ports ≡ some entries
    → match_port_with c port req regexes ≡ some m
    → (find (applies req regexes) entries ≡ some m.entry)
      × (get_elem? c.listeners m.entry.listener ≡ some m.listener)
      × (get_elem? m.listener.rules m.entry.rule ≡ some m.rule)
unfolding match_port_with
match_port_with-entry c port req regexes entries m t h =
    let (es, p, h₁) = and_then-eq-some (table_of port c.ports) _ h in
    let same : entries ≡ es = injective (sym t ∙ p) in
    let (e, q, h₂) = and_then-eq-some (find (applies req regexes) es) _ h₁ in
    let (l, r, h₃) = and_then-eq-some (get_elem? c.listeners e.listener) _ h₂ in
    let (rule, u, h₄) = and_then-eq-some (get_elem? l.rules e.rule) _ h₃ in
    finish e l rule (rw same q) r u h₄
  where
    injective : {A : Type 0} {a b : A} → ◌≡◌ {A = Option A} (some a) (some b) → a ≡ b
    injective e = cc e

    finish :
        (e : PortEntry) (l : ListenerConfig) (rule : RouteRule)
        → find (applies req regexes) entries ≡ some e
        → get_elem? c.listeners e.listener ≡ some l
        → get_elem? l.rules e.rule ≡ some rule
        → ◌≡◌ {A = Option PortMatch}
            (some (record { listener_index = e.listener; listener = l; entry = e; rule = rule }))
            (some m)
        → (find (applies req regexes) entries ≡ some m.entry)
          × (get_elem? c.listeners m.entry.listener ≡ some m.listener)
          × (get_elem? m.listener.rules m.entry.rule ≡ some m.rule)
    finish e l rule q r u h₄ = rw (← injective h₄) (q, r, u)

-- A port whose table was sorted serves a request by an entry of the table that applies to it and
-- that no other applicable entry beats, whatever order the entries stood in before; the listener
-- and the rule are those that the entry points at.
pub match_port_with-Best :
    (c : Config) (port : ℕ) (req : RequestAttrs) (regexes : RegexMap)
    (entries table : List PortEntry) (m : PortMatch)
    → sort_port_table entries c.listeners ≡ some table
    → table_of port c.ports ≡ some table
    → match_port_with c port req regexes ≡ some m
    → (applies req regexes m.entry ≡ true)
      × In m.entry table
      × ((f : PortEntry)
          → In f entries
          → applies req regexes f ≡ true
          → Beats c.listeners m.entry f)
      × (get_elem? c.listeners m.entry.listener ≡ some m.listener)
      × (get_elem? m.listener.rules m.entry.rule ≡ some m.rule)
match_port_with-Best c port req regexes entries table m s t h =
    let (found, l, r) = match_port_with-entry c port req regexes table m t h in
    let (_, ranked) = sort_port_table-IsRanked entries table c.listeners s in
    let b = find-Best (applies req regexes) c.listeners table m.entry ranked found in
    (
      b.passes,
      b.there,
      (λ f i a. b.beats f (In-sort_port_table f entries table c.listeners s i) a),
      l,
      r,
    )

-- An entry whose indices are in range.
abbrev pub IsPointed : Config → PortEntry → Type 0
IsPointed c e =
    (l : ListenerConfig) × (rule : RouteRule) × (get_elem? c.listeners e.listener ≡ some l)
    × (get_elem? l.rules e.rule ≡ some rule)

find-All :
    (P : PortEntry → Type 0) (test : PortEntry → Bool) (es : List PortEntry) (e : PortEntry)
    → All P es
    → find test es ≡ some e
    → P e
find-All P test [] e h k = absurd (ground arith)
find-All P test (x ∷ xs) e h k = elim (Bool-cases (test x)) [
  | inl p ↦ let same : x ≡ e = ground arith in rw (← same) h.0
  | inr n ↦ find-All P test xs e h.1 (rw n at k)
]

-- A request that finds no rule on a port with a table is one that no entry of it applies to, if
-- the entries' indices are in range.
pub match_port_with-none :
    (c : Config) (port : ℕ) (req : RequestAttrs) (regexes : RegexMap) (table : List PortEntry)
    (f : PortEntry)
    → table_of port c.ports ≡ some table
    → All (IsPointed c) table
    → match_port_with c port req regexes ≡ none
    → In f table
    → applies req regexes f ≡ false
match_port_with-none c port req regexes table f t good h i =
    elim (Option-cases (find (applies req regexes) table)) [
      | inl n ↦ find-none (applies req regexes) f table n i
      | inr (e, p) ↦
          let (l, rule, q, r) = find-All (IsPointed c) (applies req regexes) table e good p in
          absurd (served e l rule p q r)
    ]
  where
    served :
        (e : PortEntry) (l : ListenerConfig) (rule : RouteRule)
        → find (applies req regexes) table ≡ some e
        → get_elem? c.listeners e.listener ≡ some l
        → get_elem? l.rules e.rule ≡ some rule
        → ⊥
    served e l rule p q r =
        let found : match_port_with c port req regexes
            ≡ some (record { listener_index = e.listener; listener = l; entry = e; rule = rule }) =
          unfold match_port_with in rw t (rw p (rw q (rw r))) in
        cc found
