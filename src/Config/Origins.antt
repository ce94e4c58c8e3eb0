-- ===== src/Config/Origins.antt =====
-- Which origins a cors policy of crates/gapura-core/src/config.rs allows.
use mathlib.Core.List.{reverse, reverse-append, reverse-reverse}
use gapura.Prelude.{
  ℕ, ◌≡◌, ◌≢◌, ◌↔◌, ◌⊎◌, inl, inr, refl, sym, ap, ◌∙◌, true, false, ◌&&◌, Option, none, some, [],
  ◌∷◌, ◌++◌, arith, ◌==◌, any, Text, codes, text_eq, text_eq_iff, strip_prefix,
  strip_prefix-eq-some_iff, Option-cases, Bool-cases, In, any→In,
}
use gapura.Config.Policy.{
  CorsPolicy, split_wildcard, strip_suffix, is_label, wildcard_label, origin_matches, cors_allowed,
}

strip_suffix→eq : (t s r : Text) → strip_suffix t s ≡ some r → s ≡ r ++ t
unfolding strip_suffix
strip_suffix→eq t s r h = elim (Option-cases (strip_prefix (reverse t) (reverse s))) [
  | inl n ↦ absurd (ground arith)
  | inr (q, e) ↦
      let j : reverse s ≡ reverse t ++ q =
        (strip_prefix-eq-some_iff (reverse t) (reverse s) q).0 e in
      let k : r ≡ reverse q = ground arith in
      sym (reverse-reverse s)
      ∙ (ap reverse j ∙ (reverse-append (reverse t) q ∙ rw (k, reverse-reverse t)))
]

strip_suffix-append : (t r : Text) → strip_suffix t (r ++ t) ≡ some r
unfolding strip_suffix
strip_suffix-append t r =
    let e =
      (strip_prefix-eq-some_iff (reverse t) (reverse (r ++ t)) (reverse r)).1
        (reverse-append r t) in
    rw (e, strip_suffix) (ap some (reverse-reverse r))

-- An origin under `scheme*.tail`: one label stands for the star.
pub record Under (scheme tail origin : Text) : Type 0 where
  pub label : Text
  pub one_label : is_label label ≡ true
  pub joined : origin ≡ scheme ++ (label ++ codes "." ++ tail)

wildcard_label_sound :
    (scheme tail origin label : Text)
    → wildcard_label scheme tail origin ≡ some label
    → origin ≡ scheme ++ (label ++ codes "." ++ tail)
unfolding wildcard_label
wildcard_label_sound scheme tail origin label h = elim (Option-cases (strip_prefix scheme origin)) [
  | inl n ↦ absurd (ground arith)
  | inr (rest, e) ↦ elim (Option-cases (strip_suffix tail rest)) [
    | inl n ↦ absurd (ground arith)
    | inr (front, f) ↦
        let k : strip_suffix (codes ".") front ≡ some label = ground arith in
        (strip_prefix-eq-some_iff scheme origin rest).0 e
        ∙ ap (◌++◌ scheme) (
            strip_suffix→eq tail rest front f
            ∙ ap (λ a. a ++ tail) (strip_suffix→eq (codes ".") front label k))
  ]
]

wildcard_label_complete :
    (scheme tail label : Text)
    → wildcard_label scheme tail (scheme ++ (label ++ codes "." ++ tail)) ≡ some label
unfolding wildcard_label
wildcard_label_complete scheme tail label =
    let rest = label ++ codes "." ++ tail in
    let e = (strip_prefix-eq-some_iff scheme (scheme ++ rest) rest).1 refl in
    rw (e, wildcard_label)
      (rw (strip_suffix-append tail (label ++ codes ".")) (strip_suffix-append (codes ".") label))

-- An entry with a wildcard matches the origins that put one label in the place of the star: not
-- empty, of lower-case letters, digits and hyphens, so with no dot and no port of its own.
origin_matches-Under :
    (entry scheme tail origin : Text)
    → split_wildcard entry ≡ some (scheme, tail)
    → (origin_matches origin entry ≡ true) ↔ Under scheme tail origin
origin_matches-Under entry scheme tail origin h = (sound, complete)
  where
    step :
        origin_matches origin entry
        ≡ elim (wildcard_label scheme tail origin) [ none ↦ false | some label ↦ is_label label ]
    step = unfold origin_matches in rw (h, origin_matches)

    sound : origin_matches origin entry ≡ true → Under scheme tail origin
    sound m = elim (Option-cases (wildcard_label scheme tail origin)) [
      | inl n ↦ absurd (ground (arith, step))
      | inr (label, e) ↦ record {
        label = label;
        one_label = ground (arith, step);
        joined = wildcard_label_sound scheme tail origin label e;
      }
    ]

    complete : Under scheme tail origin → origin_matches origin entry ≡ true
    complete u =
        let e : wildcard_label scheme tail origin ≡ some u.label =
          rw u.joined (wildcard_label_complete scheme tail u.label) in
        step ∙ ground (arith, e, u.one_label)

split_wildcard→eq :
    (entry scheme tail : Text)
    → split_wildcard entry ≡ some (scheme, tail)
    → entry ≡ scheme ++ (codes "*." ++ tail)
unfolding split_wildcard
split_wildcard→eq [] scheme tail h = absurd (ground arith)
split_wildcard→eq (c ∷ []) scheme tail h = absurd (ground arith)
split_wildcard→eq (c ∷ d ∷ s) scheme tail h = elim (Bool-cases (c == b'*' && d == b'.')) [
  | inl e ↦ star c d s e (rw e at h)
  | inr e ↦ elim (Option-cases (split_wildcard (d ∷ s))) [
    | inl n ↦ absurd (ground arith)
    | inr ((front, back), k) ↦
        let (i, j) : (scheme ≡ c ∷ front) × (tail ≡ back) = ground arith in
        rw (i, j) (ap (◌∷◌ c) (split_wildcard→eq (d ∷ s) front back k))
  ]
]
  where
    star :
        (c d : ℕ) (s : Text)
        → (c == b'*' && d == b'.') ≡ true
        → ◌≡◌ {A = Option (Text × Text)} (some ([], s)) (some (scheme, tail))
        → c ∷ d ∷ s ≡ scheme ++ (codes "*." ++ tail)
    star c d s e h =
        let (i, j) : (scheme ≡ []) × (tail ≡ s) = ground arith in rw (i, j) (ground arith)

-- An origin that an entry of the policy stands for: by its own text, or with a label for the star.
pub data Named (entry origin : Text) : Type 0 where
  whole : entry ≡ origin → Named entry origin
  under :
      (scheme tail : Text)
      → entry ≡ scheme ++ (codes "*." ++ tail)
      → Under scheme tail origin
      → Named entry origin

origin_matches-Named :
    (entry origin : Text) → origin_matches origin entry ≡ true → Named entry origin
origin_matches-Named entry origin h = elim (Option-cases (split_wildcard entry)) [
  | inl n ↦
      whole ((text_eq_iff entry origin).0 (unfold origin_matches in rw (n, origin_matches) at h))
  | inr ((scheme, tail), e) ↦
      under scheme tail (split_wildcard→eq entry scheme tail e)
        ((origin_matches-Under entry scheme tail origin e).0 h)
]

-- What a cors policy answers to an origin that it allows: never to `null`; a star if the policy
-- lists one, and otherwise the origin itself, which an entry of the policy stands for.
pub cors_allowed-Named :
    (p : CorsPolicy) (origin answer : Text)
    → cors_allowed p origin ≡ some answer
    → (origin ≢ codes "null")
      × ((answer ≡ codes "*") × In (codes "*") p.origins
          ⊎ (answer ≡ origin) × ((entry : Text) × In entry p.origins × Named entry origin))
unfolding cors_allowed
cors_allowed-Named p origin answer h = elim (Bool-cases (text_eq origin (codes "null"))) [
  | inl e ↦ absurd (ground arith)
  | inr e ↦ (
    (λ k. absurd (ground (arith, (text_eq_iff origin (codes "null")).1 k))),
    elim (Bool-cases (any (λ entry. text_eq entry (codes "*")) p.origins)) [
      | inl star ↦
          let (x, i, k) = any→In (λ entry. text_eq entry (codes "*")) p.origins star in
          inl (ground arith, rw (← (text_eq_iff x (codes "*")).0 k) i)
      | inr plain ↦ elim (Bool-cases (any (origin_matches origin) p.origins)) [
        | inl m ↦
            let (x, i, k) = any→In (origin_matches origin) p.origins m in
            inr (ground arith, (x, i, origin_matches-Named x origin k))
        | inr m ↦ absurd (ground arith)
      ]
    ],
  )
]
