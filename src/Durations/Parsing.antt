-- ===== src/Durations/Parsing.antt =====
-- What crates/gapura-core/src/duration.rs parses, and how large it can be.
use gapura.Prelude.{
  digits_value, digits_value-small, length-append, and_then-eq-some, ℕ, zero, suc, ◌+◌, ◌*◌, ◌^◌,
  ◌<◌, ◌≤◌, List, [], ◌∷◌, ◌++◌, some, ◌≡◌, ◌↔◌, refl, ap, sym, ◌∙◌, inl, inr, Text, length, All,
  arith, false, Bool-cases, Option-cases, ltb,
}
use gapura.Durations.{digits_of, part, parse_on, parse_millis}
use gapura.Durations.Grammar.{
  TimeUnit, hours, minutes, seconds, milliseconds, Component, IsComponent, unit_text, unit_millis,
  millis_of, spelling, millis, part-spelling,
}
use gapura.Durations.Passes.{part-Taken}

-- At most 99999 hours each.
abbrev pub most_millis : ℕ
most_millis = 99_999 * 3_600_000

-- A text and its value, as components: as many as are allowed after `parts` others.
pub record IsDuration (parts : ℕ) (s : Text) (n : ℕ) (cs : List Component) : Type 0 where
  pub valid : All IsComponent cs
  pub few : parts + length cs ≤ 4
  pub text : s ≡ spelling cs
  pub value : n ≡ millis cs

parse_on_sound :
    (fuel : ℕ) (s : Text) (total parts n : ℕ)
    → parts ≤ 4
    → parse_on fuel s total parts ≡ some (some n)
    → (cs : List Component) × (m : ℕ) × IsDuration parts s m cs × (n ≡ total + m)
unfolding parse_on spelling millis
parse_on_sound fuel [] total parts n few h = (
  [],
  0,
  record { valid = tt; few = omega (arith, few); text = refl; value = refl },
  ground arith,
)
parse_on_sound zero (c ∷ s) total parts n few h = absurd (ground arith)
parse_on_sound (suc fuel) (c ∷ s) total parts n few h = elim (Option-cases (part total (c ∷ s))) [
  | inl e ↦ absurd (ground (arith, rw (e, parse_on) at h))
  | inr (p, e) ↦ elim (Bool-cases (ltb 4 (parts + 1))) [
    | inl last ↦ absurd (ground (arith, rw (e, last, parse_on) at h))
    | inr further ↦
        let h' = rw (e, further, parse_on) at h in
        let (cs, m, d, q) = parse_on_sound fuel p.1 p.0 (parts + 1) n (ground arith) h' in
        let (x, t) = part-Taken total (c ∷ s) p e in
        (
          x ∷ cs,
          millis_of x + m,
          record {
            valid = (t.valid, d.valid);
            few = omega (arith, d.few);
            text = t.text ∙ ap (λ r. x.digits ++ (unit_text x.unit ++ r)) d.text;
            value = ap (λ k. millis_of x + k) d.value;
          },
          omega (arith, q, t.sum),
        )
  ]
]

parse_on-step :
    (fuel : ℕ) (s : Text) (total parts : ℕ) (p : ℕ × Text)
    → part total s ≡ some p
    → parts + 1 ≤ 4
    → parse_on (suc fuel) s total parts ≡ parse_on fuel p.1 p.0 (parts + 1)
unfolding parse_on part digits_of
parse_on-step fuel [] total parts p e few = absurd (ground arith)
parse_on-step fuel (c ∷ s) total parts p e few =
    let further : ltb 4 (parts + 1) ≡ false = ground arith in rw (e, parse_on) (rw further refl)

parse_on_complete :
    (fuel : ℕ) (cs : List Component) (total parts : ℕ)
    → All IsComponent cs
    → parts + length cs ≤ 4
    → length cs ≤ fuel
    → total + millis cs < 2 ^ 64
    → parse_on fuel (spelling cs) total parts ≡ some (some (total + millis cs))
unfolding parse_on spelling millis
parse_on_complete fuel [] total parts is few enough fits = ap (λ n. some (some n)) (omega arith)
parse_on_complete zero (c ∷ cs) total parts is few enough fits = absurd (omega arith)
parse_on_complete (suc fuel) (c ∷ cs) total parts is few enough fits =
    let taken = part-spelling c cs total is.0 is.1 (omega arith) in
    let rest =
      parse_on_complete fuel cs (total + millis_of c) (parts + 1) is.1 (omega arith) (omega arith)
        (omega arith) in
    let sum : total + millis_of c + millis cs ≡ total + (millis_of c + millis cs) = omega arith in
    parse_on-step fuel (spelling (c ∷ cs)) total parts _ taken (omega arith)
    ∙ (rest ∙ ap (λ n. some (some n)) sum)

pub millis_of-bound : (c : Component) → IsComponent c → millis_of c ≤ most_millis
millis_of-bound c i =
    let small = digits_value-small c.digits 5 i.ascii i.few in
    bound (digits_value 0 c.digits) c.unit small
  where
    bound : (n : ℕ) (u : TimeUnit) → n < 10 ^ 5 → n * unit_millis u ≤ most_millis
    bound n hours h = omega arith
    bound n minutes h = omega arith
    bound n seconds h = omega arith
    bound n milliseconds h = omega arith

millis-bound : (cs : List Component) → All IsComponent cs → millis cs ≤ length cs * most_millis
unfolding millis
millis-bound [] is = omega arith
millis-bound (c ∷ cs) is = omega (arith, millis_of-bound c is.0, millis-bound cs is.1)

-- Components are some text.
length-spelling :
    (c : Component) (cs : List Component) → IsComponent c → 0 < length (spelling (c ∷ cs))
unfolding spelling
length-spelling c cs i =
    omega (arith, length-append c.digits (unit_text c.unit ++ spelling cs), i.nonempty)

nonempty : (c : ℕ) (s : Text) (cs : List Component) → c ∷ s ≡ spelling cs → 0 < length cs
unfolding spelling
nonempty c s [] e = absurd (ground arith)
nonempty c s (x ∷ cs) e = omega arith

parse_millis_sound :
    (s : Text) (n : ℕ)
    → parse_millis s ≡ some n
    → (cs : List Component) × (0 < length cs) × IsDuration 0 s n cs
unfolding parse_millis
parse_millis_sound [] n h = absurd (ground arith)
parse_millis_sound (c ∷ s) n h =
    let (r, e, q) = and_then-eq-some (parse_on 5 (c ∷ s) 0 0) (λ r. r) h in
    let (cs, m, d, sum) = parse_on_sound 5 (c ∷ s) 0 0 n (omega arith) (rw q at e) in
    (
      cs,
      nonempty c s cs d.text,
      record { valid = d.valid; few = d.few; text = d.text; value = omega (arith, sum, d.value) },
    )

parse_millis_complete :
    (s : Text) (cs : List Component)
    → All IsComponent cs
    → 0 < length cs
    → length cs ≤ 4
    → s ≡ spelling cs
    → parse_millis s ≡ some (millis cs)
unfolding parse_millis
parse_millis_complete s [] is more few e = absurd (omega arith)
parse_millis_complete [] (x ∷ cs) is more few e =
    let same : length {A = ℕ} [] ≡ length (spelling (x ∷ cs)) = ap length e in
    absurd (omega (arith, length-spelling x cs is.0))
parse_millis_complete (c ∷ s) (x ∷ cs) is more few e =
    let small = millis-bound (x ∷ cs) is in
    let run =
      parse_on_complete 5 (x ∷ cs) 0 0 is (omega (arith, few)) (omega arith) (omega arith) in
    rw e (rw run (ap some (omega arith)))

-- A text is parsed as `n` milliseconds just where it is one to four components, each of one to five
-- digits and a unit, whose sum is `n`.
pub parse_millis-eq-some_iff :
    (s : Text) (n : ℕ)
    → (parse_millis s ≡ some n) ↔ ((cs : List Component) × (0 < length cs) × IsDuration 0 s n cs)
parse_millis-eq-some_iff s n = (
  parse_millis_sound s n,
  λ h.
      parse_millis_complete s h.0 h.2.valid h.1 (omega (arith, h.2.few)) h.2.text
      ∙ ap some (sym h.2.value),
)
