-- ===== src/Durations/Passes.antt =====
-- What a pass of the loop of crates/gapura-core/src/duration.rs takes from the text.
use gapura.Prelude.{
  ℕ, ◌+◌, ◌*◌, ◌^◌, ◌<◌, ◌≤◌, true, [], ◌∷◌, ◌++◌, some, ◌≡◌, refl, ap, ap₂, sym, ◌∙◌, inl, inr,
  Text, codes, is_ascii_digit, starts_with, drop, length, all, arith, digits_value, Bool-cases,
  and_then, and_then-eq-some, ltb, ◌==◌, ◌||◌,
}
use gapura.Durations.{checked_add, checked_mul, digits_of, unit_of, part}
use gapura.Durations.Grammar.{
  TimeUnit, hours, minutes, seconds, milliseconds, unit_text, unit_millis, Component, IsComponent,
  millis_of, parse_few,
}

pub digits_of-all : (s : Text) → all is_ascii_digit (digits_of s) ≡ true
unfolding digits_of
digits_of-all [] = refl
digits_of-all (c ∷ s) = elim (Bool-cases (is_ascii_digit c)) [
  | inl e ↦ rw e (rw e (digits_of-all s))
  | inr e ↦ rw e refl
]

digits_of-split : (s : Text) → s ≡ digits_of s ++ drop (length (digits_of s)) s
unfolding digits_of
digits_of-split [] = refl
digits_of-split (c ∷ s) = elim (Bool-cases (is_ascii_digit c)) [
  | inl e ↦ rw e (ap (λ r. c ∷ r) (digits_of-split s))
  | inr e ↦ rw e refl
]

-- A prefix and the rest of the text.
starts_with-split : (s p : Text) → starts_with s p ≡ true → s ≡ p ++ drop (length p) s
unfolding starts_with
starts_with-split s [] h = refl
starts_with-split [] (d ∷ p) h = absurd (ground arith)
starts_with-split (c ∷ s) (d ∷ p) h =
    let same : c ≡ d = ground arith in
    let rest : starts_with s p ≡ true = ground arith in
    ap₂ (λ x t. x ∷ t) same (starts_with-split s p rest)

module _ (s : Text) (x : ℕ × ℕ) where
  abbrev pub HasUnit : Type 0
  HasUnit = (u : TimeUnit) × (unit_millis u ≡ x.0) × (s ≡ unit_text u ++ drop x.1 s)

  unit_found :
      (u : TimeUnit)
      → starts_with s (unit_text u) ≡ true
      → some (unit_millis u, length (unit_text u)) ≡ some x
      → HasUnit
  unit_found u e h =
      let same : (unit_millis u, length (unit_text u)) ≡ x = ground arith in
      (
        u,
        ap (λ y. y.0) same,
        starts_with-split s (unit_text u) e ∙ ap (λ y. unit_text u ++ drop y.1 s) same,
      )

  pub unit_of-sound : unit_of s ≡ some x → HasUnit
  unfolding unit_of
  unit_of-sound h = elim (Bool-cases (starts_with s (codes "ms"))) [
    | inl e ↦ unit_found milliseconds e (rw (e, unit_of) at h)
    | inr a ↦ elim (Bool-cases (starts_with s (codes "h"))) [
      | inl e ↦ unit_found hours e (rw (a, e, unit_of) at h)
      | inr b ↦ elim (Bool-cases (starts_with s (codes "m"))) [
        | inl e ↦ unit_found minutes e (rw (a, b, e, unit_of) at h)
        | inr c ↦ elim (Bool-cases (starts_with s (codes "s"))) [
          | inl e ↦ unit_found seconds e (rw (a, b, c, e, unit_of) at h)
          | inr d ↦ absurd (ground (arith, rw (a, b, c, d, unit_of) at h))
        ]
      ]
    ]
  ]

-- Sums and products that do not overflow are what they are.
checked_exact :
    (a b total : ℕ) (rest : Text) (p : ℕ × Text)
    → and_then (checked_mul a b) (λ ms. and_then (checked_add total ms) (λ t. some (t, rest)))
      ≡ some p
    → (total + a * b, rest) ≡ p
unfolding checked_mul checked_add
checked_exact a b total rest p h = elim (Bool-cases (ltb (a * b) (2 ^ 64))) [
  | inr e ↦ absurd (ground (arith, rw e at h))
  | inl e ↦ elim (Bool-cases (ltb (total + a * b) (2 ^ 64))) [
    | inr f ↦ absurd (ground (arith, rw (e, f) at h))
    | inl f ↦ let h' = rw (e, f) at h in ground (arith, h')
  ]
]

-- What a pass does with the component that it takes.
pub record Taken (total : ℕ) (s : Text) (p : ℕ × Text) (c : Component) : Type 0 where
  pub valid : IsComponent c
  pub text : s ≡ c.digits ++ (unit_text c.unit ++ p.1)
  pub sum : p.0 ≡ total + millis_of c

pub part-Taken :
    (total : ℕ) (s : Text) (p : ℕ × Text)
    → part total s ≡ some p
    → (c : Component) × Taken total s p c
unfolding part
part-Taken total s p h =
    elim (Bool-cases (length (digits_of s) == 0 || ltb 5 (length (digits_of s)))) [
      | inl bad ↦ absurd (ground (arith, rw (bad, part) at h))
      | inr good ↦
          let ascii = digits_of-all s in
          let nonempty : 0 < length (digits_of s) = ground arith in
          let few : length (digits_of s) ≤ 5 = ground arith in
          let after = drop (length (digits_of s)) s in
          let h' = rw (good, part, parse_few (digits_of s) ascii nonempty few) at h in
          let (u, e, k) = and_then-eq-some (unit_of after) _ h' in
          let (v, same, split) = unit_of-sound after u e in
          let exact = checked_exact _ u.0 total (drop u.1 after) p k in
          (
            record { digits = digits_of s; unit = v },
            record {
              valid = record { ascii = ascii; nonempty = nonempty; few = few };
              text =
                  digits_of-split s
                  ∙ ap (λ r. digits_of s ++ r) (split ∙ ap (λ y. unit_text v ++ y.1) exact);
              sum =
                  sym (ap (λ y. y.0) exact)
                  ∙ ap (λ m. total + digits_value 0 (digits_of s) * m) (sym same);
            },
          )
    ]
