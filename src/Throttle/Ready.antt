-- ===== src/Throttle/Ready.antt =====
-- What a counter holds where no attempt has to wait for it: `wait` and the first check of
-- `reserve_at` in crates/gapura-control/src/throttle.rs.
use mathlib.Core.Option.{some-injective}
use gapura.Prelude.{
  ℕ, ◌+◌, ◌^◌, ◌<◌, ◌≡◌, ◌⊎◌, inl, inr, refl, ap, sym, ◌∙◌, subst, Option, none, some, List, [],
  ◌∷◌, In, arith, Bool-cases, Option-cases, and_then, and_then-eq-some,
}
use gapura.Throttle.{
  Rule, Policy, Key, rule_of, Counter, fresh, lapsed, wait, restarted, reserved_in, Counters,
  find_counter,
}
use gapura.Throttle.Attempts.{waits, longest}
use gapura.Throttle.Held.{IsHeld, fresh-IsHeld}

-- A counter that an attempt may be reserved in: it is in order, and short of the limit with its
-- attempts in flight once it is started again.
pub record IsReady (rule : Rule) (n now : ℕ) (c : Counter) : Type 0 where
  pub held : IsHeld rule n c
  pub short : (restarted rule now c).failures + (restarted rule now c).pending < rule.limit

pub fresh-IsReady : (rule : Rule) (n now : ℕ) → 0 < rule.limit → IsReady rule n now (fresh now)
unfolding restarted
fresh-IsReady rule n now pos = record {
  held = fresh-IsHeld rule n now pos;
  short = elim (Bool-cases (lapsed rule now (fresh now))) [
    | inl e ↦ rw e (omega arith)
    | inr e ↦ rw e (omega arith)
  ];
}

pub wait-IsReady :
    (rule : Rule) (n now : ℕ) (c : Counter)
    → rule.limit + n < 2 ^ 32
    → IsHeld rule n c
    → wait rule now c ≡ none
    → IsReady rule n now c
unfolding wait restarted
wait-IsReady rule n now c fits h w = record { held = h; short = ground (arith, h.bounded) }

pub reserved_in-IsHeld :
    (rule : Rule) (n now : ℕ) (c : Counter)
    → 0 < rule.limit
    → rule.limit + n < 2 ^ 32
    → IsReady rule n now c
    → IsHeld rule n (reserved_in (restarted rule now c))
unfolding reserved_in
reserved_in-IsHeld rule n now c pos fits r = record {
  bounded = omega (arith, r.short, fits);
  spent = restarted-spent;
}
  where
    restarted-spent :
        ((restarted rule now c).failures < rule.limit)
        ⊎ ((until : ℕ) × ((restarted rule now c).locked_until ≡ some until))
    restarted-spent = inl (omega (arith, r.short))

pub longest-none : (ws : List ℕ) → longest ws ≡ none → ws ≡ []
unfolding longest
longest-none [] h = refl
longest-none (w ∷ ws) h = elim (Option-cases (longest ws)) [
  | inl e ↦ absurd (ground (arith, e, h))
  | inr (v, e) ↦ absurd (ground (arith, e, h))
]

module _ (policy : Policy) (k : Key) (rule : Rule) (known : rule_of policy k ≡ some rule) where
  -- Where no key has to wait, none of them does.
  none_added :
      (w : Option ℕ) (ws : List ℕ)
      → elim w [ none ↦ ws | some v ↦ v ∷ ws ] ≡ []
      → (w ≡ none) × (ws ≡ [])
  none_added none ws h = (refl, h)
  none_added (some v) ws h = absurd (ground (arith, h))

  waits-cons :
      (now : ℕ) (cs : Counters) (j : Key) (js : List Key)
      → waits policy now cs (j ∷ js) ≡ some []
      → (waits policy now cs js ≡ some [])
        × ((find_counter j cs ≡ none)
            ⊎ ((own : Rule) × (d : Counter) × (rule_of policy j ≡ some own)
                × (find_counter j cs ≡ some d)
                × (wait own now d ≡ none)))
  unfolding waits
  waits-cons now cs j js h = elim (Option-cases (find_counter j cs)) [
    | inl e ↦ (sym (ap with_own e) ∙ h, inl e)
    | inr (d, e) ↦
        let (own, f, g) = and_then-eq-some (rule_of policy j) _ (sym (ap with_own e) ∙ h) in
        let (ws, f', g') = and_then-eq-some (waits policy now cs js) _ g in
        let (waiting, empty) = none_added (wait own now d) ws (some-injective _ _ g') in
        (f' ∙ ap some empty, inr (own, d, f, e, waiting))
  ]
    where
      with_own : Option Counter → Option (List ℕ)
      with_own o = elim o [
        | none ↦ waits policy now cs js
        | some c ↦ and_then (rule_of policy j) (λ rule.
            and_then (waits policy now cs js)
              (λ ws. some (elim (wait rule now c) [ none ↦ ws | some w ↦ w ∷ ws ])))
      ]

  pub waits-none :
      (now : ℕ) (cs : Counters) (js : List Key) (c : Counter)
      → waits policy now cs js ≡ some []
      → In k js
      → find_counter k cs ≡ some c
      → wait rule now c ≡ none
  waits-none now cs [] c h i f = absurd i
  waits-none now cs (j ∷ js) c h (inr i) f = waits-none now cs js c (waits-cons now cs j js h).0 i f
  waits-none now cs (j ∷ js) c h (inl e) f = elim (waits-cons now cs j js h).1 [
    | inl missing ↦
        let bad = sym f ∙ ap (λ x. find_counter x cs) e ∙ missing in absurd (ground (arith, bad))
    | inr (own, d, r, there, waiting) ↦
        let same : c ≡ d = some-injective _ _ (sym f ∙ ap (λ x. find_counter x cs) e ∙ there) in
        let rules : rule ≡ own =
          some-injective _ _ (sym known ∙ ap (λ x. rule_of policy x) e ∙ r) in
        subst (λ x. wait rule now x ≡ none) (sym same)
          (subst (λ x. wait x now d ≡ none) (sym rules) waiting)
  ]
