-- ===== src/Precedence/Sorted.antt =====
-- What `sort_port_table` of crates/gapura-core/src/translate/precedence.rs makes of a table.
use mathlib.Core.List.{Perm}
use mathlib.Core.List.Perm
use gapura.Prelude.{
  ◌≡◌, inl, inr, refl, sym, ap, ◌∙◌, true, Option, some, List, [], ◌∷◌, arith, In, All,
  Option-cases,
}
use gapura.Prelude.Order.{
  sort_keyed, IsSortedBy, sort_keyed-IsSortedBy, sort_keyed-perm, sort_keyed-All, In-sort_keyed,
}
use gapura.Config.{ListenerConfig, PortEntry}
use gapura.Precedence.{Key, key_order, entry_key, keyed, entries_of, sort_port_table}

-- `e` comes before `f`, or is level with it, in the order of their keys.
abbrev pub Beats : List ListenerConfig → PortEntry → PortEntry → Type 0
Beats listeners e f =
    (k j : Key)
    → entry_key listeners e ≡ some k
    → entry_key listeners f ≡ some j
    → key_order.le k j ≡ true

-- No entry is beaten by one behind it.
abbrev pub IsRanked : List ListenerConfig → List PortEntry → Type 0
IsRanked listeners [] = Unit
IsRanked listeners (e ∷ es) = All (Beats listeners e) es × IsRanked listeners es

module _ (listeners : List ListenerConfig) where
  abbrev pub HasKey : Key × PortEntry → Type 0
  HasKey x = entry_key listeners x.1 ≡ some x.0

  keyed-cons :
      (e : PortEntry) (es : List PortEntry) (xs : List (Key × PortEntry))
      → keyed listeners (e ∷ es) ≡ some xs
      → (k : Key) × (rest : List (Key × PortEntry)) × (entry_key listeners e ≡ some k)
        × (keyed listeners es ≡ some rest)
        × (xs ≡ (k, e) ∷ rest)
  unfolding keyed
  keyed-cons e es xs h = elim (Option-cases (entry_key listeners e)) [
    | inl n ↦ absurd (ground arith)
    | inr (k, p) ↦ elim (Option-cases (keyed listeners es)) [
      | inl n ↦ absurd (ground arith)
      | inr (rest, q) ↦ (k, rest, p, q, ground arith)
    ]
  ]

  pub keyed-HasKey :
      (es : List PortEntry) (xs : List (Key × PortEntry))
      → keyed listeners es ≡ some xs
      → All HasKey xs × (entries_of xs ≡ es)
  keyed-HasKey [] xs h = let e : xs ≡ [] = unfold keyed in ground arith in rw e (tt, refl)
  keyed-HasKey (e ∷ es) xs h =
      let (k, rest, p, q, j) = keyed-cons e es xs h in
      let (a, b) = keyed-HasKey es rest q in rw j ((p, a), ap (◌∷◌ e) b)

  HasKey-Beats :
      (x : Key × PortEntry) (ys : List (Key × PortEntry))
      → HasKey x
      → All HasKey ys
      → All (λ y. key_order.le x.0 y.0 ≡ true) ys
      → All (Beats listeners x.1) (entries_of ys)
  HasKey-Beats x [] h hs s = tt
  HasKey-Beats x (y ∷ ys) h hs s = (
    (λ k j p q. rw (some_injective _ _ (sym p ∙ h), some_injective _ _ (sym q ∙ hs.0)) s.0),
    HasKey-Beats x ys h hs.1 s.1,
  )
    where
      some_injective : (a b : Key) → ◌≡◌ {A = Option Key} (some a) (some b) → a ≡ b
      some_injective a b e = cc e

  IsSortedBy-IsRanked :
      (xs : List (Key × PortEntry))
      → All HasKey xs
      → IsSortedBy key_order xs
      → IsRanked listeners (entries_of xs)
  IsSortedBy-IsRanked [] h s = tt
  IsSortedBy-IsRanked (x ∷ xs) h s = (HasKey-Beats x xs h.0 h.1 s.0, IsSortedBy-IsRanked xs h.1 s.1)

sorted-Ranked :
    (listeners : List ListenerConfig) (entries : List PortEntry) (xs : List (Key × PortEntry))
    → keyed listeners entries ≡ some xs
    → Perm (entries_of (sort_keyed key_order xs)) entries
      × IsRanked listeners (entries_of (sort_keyed key_order xs))
sorted-Ranked listeners entries xs h =
    let (keys, back) = keyed-HasKey listeners entries xs h in
    (
      rw (← back) (Perm.map (λ x. x.1) (sort_keyed-perm key_order xs)),
      IsSortedBy-IsRanked listeners (sort_keyed key_order xs)
          (sort_keyed-All key_order (HasKey listeners) xs keys)
          (sort_keyed-IsSortedBy key_order xs),
    )

-- Sorting a table keeps its entries, each as often as it was there, and puts them in an order in
-- which no entry is beaten by one behind it.
pub sort_port_table-IsRanked :
    (entries out : List PortEntry) (listeners : List ListenerConfig)
    → sort_port_table entries listeners ≡ some out
    → Perm out entries × IsRanked listeners out
unfolding sort_port_table
sort_port_table-IsRanked [] out listeners h =
    let e : out ≡ [] = ground arith in rw e (Perm.refl [], tt)
sort_port_table-IsRanked (e ∷ []) out listeners h =
    let p : out ≡ e ∷ [] = ground arith in rw p (Perm.refl (e ∷ []), (tt, tt))
sort_port_table-IsRanked (e ∷ f ∷ es) out listeners h =
    elim (Option-cases (keyed listeners (e ∷ f ∷ es))) [
      | inl n ↦ absurd (ground arith)
      | inr (xs, p) ↦
          let q : out ≡ entries_of (sort_keyed key_order xs) = ground arith in
          rw q (sorted-Ranked listeners (e ∷ f ∷ es) xs p)
    ]

keyed-In :
    (listeners : List ListenerConfig) (f : PortEntry) (es : List PortEntry)
    (xs : List (Key × PortEntry))
    → keyed listeners es ≡ some xs
    → In f es
    → (k : Key) × In (k, f) xs
keyed-In listeners f [] xs h i = absurd i
keyed-In listeners f (e ∷ es) xs h i =
    let (k, rest, p, q, j) = keyed-cons listeners e es xs h in
    rw j (elim i [
      | inl same ↦ (k, inl (ap (λ a. (k, a)) same))
      | inr later ↦ there k rest (keyed-In listeners f es rest q later)
    ])
  where
    there :
        (k : Key) (rest : List (Key × PortEntry))
        → (j : Key) × In (j, f) rest
        → (j : Key) × In (j, f) ((k, e) ∷ rest)
    there k rest (j, i) = (j, inr i)

pub In-entries_of :
    (k : Key) (f : PortEntry) (xs : List (Key × PortEntry)) → In (k, f) xs → In f (entries_of xs)
In-entries_of k f [] i = absurd i
In-entries_of k f (x ∷ xs) (inl e) = inl (ap (λ a. a.1) e)
In-entries_of k f (x ∷ xs) (inr i) = inr (In-entries_of k f xs i)

-- Every entry of a table is in the sorted one.
pub In-sort_port_table :
    (f : PortEntry) (entries out : List PortEntry) (listeners : List ListenerConfig)
    → sort_port_table entries listeners ≡ some out
    → In f entries
    → In f out
unfolding sort_port_table
In-sort_port_table f [] out listeners h i = absurd i
In-sort_port_table f (e ∷ []) out listeners h i = let p : out ≡ e ∷ [] = ground arith in rw p i
In-sort_port_table f (e ∷ g ∷ es) out listeners h i =
    elim (Option-cases (keyed listeners (e ∷ g ∷ es))) [
      | inl n ↦ absurd (ground arith)
      | inr (xs, p) ↦
          let q : out ≡ entries_of (sort_keyed key_order xs) = ground arith in
          let (k, j) = keyed-In listeners f (e ∷ g ∷ es) xs p i in
          rw q (In-entries_of k f (sort_keyed key_order xs) (In-sort_keyed key_order (k, f) xs j))
    ]
