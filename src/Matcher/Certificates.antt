-- ===== src/Matcher/Certificates.antt =====
-- Which certificate `tls_for` of crates/gapura-core/src/matcher.rs answers a handshake with.
use gapura.Prelude.{
  ℕ, ◌≡◌, ◌⊎◌, inl, inr, refl, sym, ◌∙◌, true, false, ◌&&◌, Option, none, some, List, [], ◌∷◌,
  arith, In, ◌==◌, if◌then◌else◌, Bool-cases, Option-cases, filter_by, find, Text, In-filter_by,
  find→In,
}
use gapura.Config.{Config, ListenerConfig}
use gapura.Matcher.{
  has_tls, on_port, has_hostname_for, specificity_le, most_specific, default_listener, listener_for,
  lacks_hostname, first,
}

specificity_le_total :
    (a b : Option Text) → (specificity_le a b ≡ true) ⊎ (specificity_le b a ≡ true)
specificity_le_total a b = ground arith

specificity_le_trans :
    (a b c : Option Text)
    → specificity_le a b ≡ true
    → specificity_le b c ≡ true
    → specificity_le a c ≡ true
specificity_le_trans a b c h k = ground arith

-- The chosen listener is one of the list, and none of the list is more specific.
record Greatest (ls : List ListenerConfig) (m : ListenerConfig) : Type 0 where
  there : In m ls
  greatest : (l : ListenerConfig) → In l ls → specificity_le l.hostname m.hostname ≡ true

le_refl : (l : ListenerConfig) → specificity_le l.hostname l.hostname ≡ true
le_refl l = elim (specificity_le_total l.hostname l.hostname) [ inl h ↦ h | inr h ↦ h ]

most_specific-none :
    (l : ListenerConfig) (ls : List ListenerConfig) → most_specific ls ≡ none → ¬ In l ls
unfolding most_specific
most_specific-none l [] h i = i
most_specific-none l (x ∷ xs) h i = absurd (ground arith)

most_specific-cons :
    (x : ListenerConfig) (xs : List ListenerConfig) (k : ListenerConfig)
    → most_specific xs ≡ some k
    → most_specific (x ∷ xs) ≡ (if specificity_le x.hostname k.hostname then some k else some x)
unfolding most_specific
most_specific-cons x xs k e = rw (e, most_specific)

better :
    (x k m : ListenerConfig)
    → specificity_le x.hostname k.hostname ≡ true
    → (if specificity_le x.hostname k.hostname then some k else some x) ≡ some m
    → k ≡ m
better x k m le h = ground arith

worse :
    (x k m : ListenerConfig)
    → specificity_le x.hostname k.hostname ≡ false
    → (if specificity_le x.hostname k.hostname then some k else some x) ≡ some m
    → x ≡ m
worse x k m gt h = ground arith

most_specific-Greatest :
    (ls : List ListenerConfig) (m : ListenerConfig) → most_specific ls ≡ some m → Greatest ls m
most_specific-Greatest [] m h = absurd (unfold most_specific in ground arith)
most_specific-Greatest (x ∷ xs) m h = elim (Option-cases (most_specific xs)) [
  | inl n ↦
      let same : x ≡ m = unfold most_specific in ground arith in
      rw (← same) (record {
        there = inl refl;
        greatest = λ l i. elim i [
          | inl e ↦ rw e (le_refl x)
          | inr j ↦ absurd (most_specific-none l xs n j)
        ];
      })
  | inr (k, e) ↦
      let g = most_specific-Greatest xs k e in
      elim (Bool-cases (specificity_le x.hostname k.hostname)) [
        | inl le ↦
            let same : k ≡ m = better x k m le (sym (most_specific-cons x xs k e) ∙ h) in
            rw (← same) (record {
              there = inr g.there;
              greatest = λ l i. elim i [ inl e ↦ rw e le | inr j ↦ g.greatest l j ];
            })
        | inr gt ↦
            let same : x ≡ m = worse x k m gt (sym (most_specific-cons x xs k e) ∙ h) in
            rw (← same) (record {
              there = inl refl;
              greatest = λ l i. elim i [
                | inl e ↦ rw e (le_refl x)
                | inr j ↦
                    specificity_le_trans l.hostname k.hostname x.hostname (g.greatest l j)
                      (above x k gt)
              ];
            })
      ]
]
  where
    above :
        (x k : ListenerConfig)
        → specificity_le x.hostname k.hostname ≡ false
        → specificity_le k.hostname x.hostname ≡ true
    above x k h = elim (specificity_le_total k.hostname x.hostname) [
      | inl y ↦ y
      | inr y ↦ absurd (ground arith)
    ]

-- The listeners that a certificate is chosen from.
abbrev pub Offers : Config → ℕ → ListenerConfig → Type 0
Offers c port l = In l c.listeners × ((l.port == port && has_tls l) ≡ true)

default_listener_sound :
    (ls : List ListenerConfig) (l : ListenerConfig) → default_listener ls ≡ some l → In l ls
unfolding default_listener
default_listener_sound ls l h = elim (Option-cases (find lacks_hostname ls)) [
  | inr (m, e) ↦ let same : m ≡ l = ground arith in rw (← same) (find→In lacks_hostname ls m e).0
  | inl n ↦ head ls (ground arith)
]
  where
    head : (ls : List ListenerConfig) → first ls ≡ some l → In l ls
    head [] h = absurd (ground arith)
    head (x ∷ xs) h = inl (ground arith)

listener_for-name :
    (c : Config) (port : ℕ) (name : Text)
    → let named = filter_by (has_hostname_for name) (on_port port c.listeners) in
      (most_specific named ≡ none)
        × (listener_for c port (some name) ≡ default_listener (on_port port c.listeners))
      ⊎ ((m : ListenerConfig) × (most_specific named ≡ some m)
          × (listener_for c port (some name) ≡ some m))
unfolding listener_for
listener_for-name c port name =
    elim (Option-cases
      (most_specific (filter_by (has_hostname_for name) (on_port port c.listeners)))) [
        | inl n ↦ inl (n, rw (n, listener_for))
        | inr (m, e) ↦ inr (m, e, rw (e, listener_for))
      ]

-- The listener that a handshake's certificate is taken from terminates TLS on the port, and if
-- any such listener has a hostname for the name asked for, so has the chosen one, and none of
-- them has a more specific one.
pub listener_for-Greatest :
    (c : Config) (port : ℕ) (name : Text) (l : ListenerConfig)
    → listener_for c port (some name) ≡ some l
    → Offers c port l
      × ((m : ListenerConfig)
          → Offers c port m
          → has_hostname_for name m ≡ true
          → (has_hostname_for name l ≡ true) × (specificity_le m.hostname l.hostname ≡ true))
listener_for-Greatest c port name l h = elim (listener_for-name c port name) [
  | inl (n, e) ↦ (
    offers l (default_listener_sound (on_port port c.listeners) l (sym e ∙ h)),
    λ m o k. absurd (
        most_specific-none m _ n
          ((In-filter_by (has_hostname_for name) m _).1 ((In-filter_by _ m c.listeners).1 o, k))),
  )
  | inr (m, e, f) ↦
      let g = most_specific-Greatest _ m e in
      let same : m ≡ l = injective (sym f ∙ h) in
      let (i, k) = (In-filter_by (has_hostname_for name) m _).0 g.there in
      rw (← same) (
        offers m i,
        λ m' o k'. (
          k,
          g.greatest m' (
              (In-filter_by (has_hostname_for name) m' _).1
                ((In-filter_by _ m' c.listeners).1 o, k')),
        ),
      )
]
  where
    injective : {a b : ListenerConfig} → ◌≡◌ {A = Option ListenerConfig} (some a) (some b) → a ≡ b
    injective e = cc e

    offers : (l : ListenerConfig) → In l (on_port port c.listeners) → Offers c port l
    offers l i = (In-filter_by _ l c.listeners).0 i
