-- ===== src/Durations/Loop.antt =====
-- What the loop of crates/gapura-core/src/duration.rs returns, and that it returns.
use gapura.Prelude.{
  ℕ, suc, zero, ◌+◌, ◌≤◌, [], ◌∷◌, Option, some, none, ◌≡◌, refl, inl, inr, Text, arith, Bool-cases,
  Option-cases, ltb,
}
use gapura.Durations.{part, parse_on, parse_millis}

-- Where the passes that are left are as many as the loop may make, it returns.
pub parse_on-returns :
    (fuel : ℕ) (s : Text) (total parts : ℕ)
    → parts ≤ 4
    → 5 ≤ fuel + parts
    → (r : Option ℕ) × (parse_on fuel s total parts ≡ some r)
unfolding parse_on
parse_on-returns fuel [] total parts few enough = (some total, refl)
parse_on-returns zero (c ∷ s) total parts few enough = absurd (omega arith)
parse_on-returns (suc fuel) (c ∷ s) total parts few enough =
    elim (Option-cases (part total (c ∷ s))) [
      | inl e ↦ (none, rw (e, parse_on) refl)
      | inr (p, e) ↦ elim (Bool-cases (ltb 4 (parts + 1))) [
        | inl last ↦ (none, rw (e, parse_on) (rw last refl))
        | inr more ↦
            let (r, q) = parse_on-returns fuel p.1 p.0 (parts + 1) (ground arith) (omega arith) in
            (r, rw (e, parse_on) (rw more q))
      ]
    ]

-- More passes allowed than made change nothing.
parse_on-more :
    (fuel more : ℕ) (s : Text) (total parts : ℕ) (r : Option ℕ)
    → fuel ≤ more
    → parse_on fuel s total parts ≡ some r
    → parse_on more s total parts ≡ some r
unfolding parse_on
parse_on-more fuel more [] total parts r le h = h
parse_on-more zero more (c ∷ s) total parts r le h = absurd (ground arith)
parse_on-more (suc fuel) zero (c ∷ s) total parts r le h = absurd (omega arith)
parse_on-more (suc fuel) (suc more) (c ∷ s) total parts r le h =
    elim (Option-cases (part total (c ∷ s))) [
      | inl e ↦ rw (e, parse_on) (rw (e, parse_on) at h)
      | inr (p, e) ↦ elim (Bool-cases (ltb 4 (parts + 1))) [
        | inl last ↦ rw (e, parse_on) (rw last (rw (e, last, parse_on) at h))
        | inr further ↦
            let before = rw (e, further, parse_on) at h in
            rw (e, parse_on)
              (rw further (parse_on-more fuel more p.1 p.0 (parts + 1) r (omega arith) before))
      ]
    ]

-- The loop ends: with five passes or more it returns, and what `parse_millis` says.
pub parse_on-enough :
    (fuel c : ℕ) (s : Text) → 5 ≤ fuel → parse_on fuel (c ∷ s) 0 0 ≡ some (parse_millis (c ∷ s))
unfolding parse_millis
parse_on-enough fuel c s enough =
    let (r, q) = parse_on-returns 5 (c ∷ s) 0 0 (omega arith) (omega arith) in
    rw q (parse_on-more 5 fuel (c ∷ s) 0 0 r enough q)
