-- ===== src/Throttle/Reserving.antt =====
-- What letting an attempt through does to the counter of one key: `reserve_at` of
-- crates/gapura-control/src/throttle.rs.
use mathlib.Core.Option.{some-injective}
use gapura.Prelude.{
  ℕ, ◌+◌, ◌^◌, ◌<◌, ◌≡◌, ◌≢◌, ◌⊎◌, inl, inr, refl, ap, sym, ◌∙◌, subst, Bool, true, false, Option,
  none, some, List, [], ◌∷◌, ◌++◌, All, In, arith, Bool-cases, Option-cases, ap₂, if_true, if_false,
  and_then, and_then-eq-some, Result, err, if◌then◌else◌,
}
use gapura.ClientIp.{IpAddr}
use gapura.RateLimit.{grouped}
use gapura.Throttle.{
  Rule, refunded, Policy, Key, rule_of, Counter, restarted, reserved_in, Counters, find_counter,
  set_counter,
}
use gapura.Throttle.Attempts.{
  counter, tidied, settle_outcome, settle_in, Refused, wait_for, full, waits, longest, keys_of,
  reserve_keys, reserve_at,
}
use gapura.Throttle.Entries.{
  key-cases, Only, Only-find, Only-found, Only-none, Only-weaken, Without-Only, set_counter-Only,
  set_other-Only,
}
use gapura.Throttle.Settling.{
  returned, settle_in-cons, counter_other-Only, settle_in_other-Only, counter_own-Only,
  settle_refunded-Only,
}
use gapura.Throttle.Entries.{tidied-Only}
use gapura.Throttle.Held.{IsHeld}
use gapura.Throttle.Keys.{OnceIn, keys_of-OnceIn, OnceIn-cases}
use gapura.Throttle.Ready.{
  IsReady, fresh-IsReady, wait-IsReady, reserved_in-IsHeld, longest-none, waits-none,
}

module _ (policy : Policy) (capacity : ℕ) (k : Key) (rule : Rule)
    (known : rule_of policy k ≡ some rule) (positive : 0 < rule.limit) where
  -- What was reserved is given back where the counters are full.
  pub refunded-Only :
      (n now : ℕ) (keys : List (Key × Bool)) (cs out : Counters)
      → settle_in policy capacity refunded now keys cs ≡ some out
      → Only k (IsHeld rule n) cs
      → Only k (IsHeld rule n) out
  refunded-Only n now [] cs out h o =
      let same : cs ≡ out = unfold settle_in in some-injective _ _ h in
      subst (Only k (IsHeld rule n)) same o
  refunded-Only n now ((j, given) ∷ keys) cs out h o =
      let (own, mid, r, one, _, more) =
        settle_in-cons policy capacity refunded now j given keys cs out h in
      refunded-Only n now keys (tidied j mid) out more (elim (key-cases j k) [
        | inr other ↦
            settle_in_other-Only policy capacity k (IsHeld rule n) refunded now own j given cs mid
              other one o
        | inl e ↦
            let rules : rule ≡ own =
              some-injective _ _ (sym known ∙ ap (λ x. rule_of policy x) (sym e) ∙ r) in
            tidied-Only k (IsHeld rule n) j mid (
              settle_refunded-Only policy capacity k rule known positive n now given cs mid
                (subst {A = Key × Rule}
                  (λ x.
                    settle_outcome policy capacity refunded x.1 x.0 now (returned x.0 given cs)
                    ≡ some mid)
                  (ap₂ (λ a b. (a, b)) e (sym rules)) one)
                o)
      ])

  -- One pass of the loop that reserves: it goes on, or what was reserved is given back.
  abbrev Reserves :
      ℕ
      → Key
      → List Key
      → List (Key × Bool)
      → Result Refused (List (Key × Bool)) × Counters
      → Option Counter
      → Counters
      → Type 0
  Reserves now j js acc r o ds =
      ((c : Counter) × (o ≡ some c)
        × (reserve_keys policy capacity now js (acc ++ (j, true) ∷ [])
              (set_counter j (reserved_in c) ds)
            ≡ some r))
      ⊎ ((o ≡ none) × (settle_in policy capacity refunded now acc ds ≡ some r.1))
      ⊎ ((o ≡ none) × (reserve_keys policy capacity now js (acc ++ (j, false) ∷ []) ds ≡ some r))

  reserve_keys-Reserves :
      (now : ℕ) (j : Key) (js : List Key) (acc : List (Key × Bool)) (cs : Counters)
      (r : Result Refused (List (Key × Bool)) × Counters)
      → reserve_keys policy capacity now (j ∷ js) acc cs ≡ some r
      → (x : Option Counter × Counters) × (counter policy capacity j now cs ≡ some x)
        × Reserves now j js acc r x.0 x.1
  unfolding reserve_keys
  reserve_keys-Reserves now j js acc cs r h =
      let (x, e, f) = and_then-eq-some (counter policy capacity j now cs) _ h in
      (x, e, by_counter x.0 x.1 f)
    where
      Answer : Type 0
      Answer = Option (Result Refused (List (Key × Bool)) × Counters)

      refusing : Counters → Answer
      refusing ds =
          and_then (settle_in policy capacity refunded now acc ds) (λ cs'. some (err full, cs'))

      by_counter :
          (o : Option Counter) (ds : Counters)
          → elim o [
            | some c ↦
                reserve_keys policy capacity now js
                  (acc ++ (j, true) ∷ [])
                  (set_counter j (reserved_in c) ds)
            | none ↦
                if policy.fail_closed
                then refusing ds
                else reserve_keys policy capacity now js (acc ++ (j, false) ∷ []) ds
          ]
            ≡ some r
          → Reserves now j js acc r o ds
      by_counter (some c) ds f = inl (c, refl, f)
      by_counter none ds f = elim (Bool-cases policy.fail_closed) [
        | inl g ↦
            let (out, e, q) =
              and_then-eq-some (settle_in policy capacity refunded now acc ds)
                (λ cs'. some (err full, cs')) (sym (if_true _ _ g) ∙ f) in
            inr (inl (refl, e ∙ ap some (ap (λ x. x.1) (some-injective _ _ q))))
        | inr g ↦ inr (inr (refl, sym (if_false _ _ g) ∙ f))
      ]

  reserve_keys-end :
      (now : ℕ) (acc : List (Key × Bool)) (cs : Counters)
      (r : Result Refused (List (Key × Bool)) × Counters)
      → reserve_keys policy capacity now [] acc cs ≡ some r
      → cs ≡ r.1
  unfolding reserve_keys
  reserve_keys-end now acc cs r h = ap (λ x. x.1) (some-injective _ _ h)

  -- The key is not among those that are left, or not any more.
  reserve_keys-absent :
      (n now : ℕ) (js : List Key) (acc : List (Key × Bool)) (cs : Counters)
      (r : Result Refused (List (Key × Bool)) × Counters)
      → All (λ i. i ≢ k) js
      → reserve_keys policy capacity now js acc cs ≡ some r
      → Only k (IsHeld rule n) cs
      → Only k (IsHeld rule n) r.1
  reserve_keys-absent n now [] acc cs r a h o =
      subst (Only k (IsHeld rule n)) (reserve_keys-end now acc cs r h) o
  reserve_keys-absent n now (j ∷ js) acc cs r a h o =
      let (x, e, f) = reserve_keys-Reserves now j js acc cs r h in
      let kept = counter_other-Only policy capacity k (IsHeld rule n) now j cs x a.0 e o in
      elim f [
        | inl (c, _, q) ↦
            reserve_keys-absent n now js _ _ r a.1 q
              (set_other-Only k (IsHeld rule n) j (reserved_in c) x.1 a.0 kept)
        | inr g ↦ elim g [
          | inl (_, q) ↦ refunded-Only n now acc x.1 r.1 q kept
          | inr (_, q) ↦ reserve_keys-absent n now js _ _ r a.1 q kept
        ]
      ]

  held : (n now : ℕ) (cs : Counters) → Only k (IsReady rule n now) cs → Only k (IsHeld rule n) cs
  held n now cs o = Only-weaken k (IsReady rule n now) (IsHeld rule n) cs (λ c r. r.held) o

  -- The key's counter is ready, and it is reserved in once at most.
  reserve_keys-ready :
      (n now : ℕ) (js : List Key) (acc : List (Key × Bool)) (cs : Counters)
      (r : Result Refused (List (Key × Bool)) × Counters)
      → rule.limit + n < 2 ^ 32
      → OnceIn k js
      → reserve_keys policy capacity now js acc cs ≡ some r
      → Only k (IsReady rule n now) cs
      → Only k (IsHeld rule n) r.1
  reserve_keys-ready n now [] acc cs r fits once h o =
      subst (Only k (IsHeld rule n)) (reserve_keys-end now acc cs r h) (held n now cs o)
  reserve_keys-ready n now (j ∷ js) acc cs r fits (inl (other, once)) h o =
      let (x, e, f) = reserve_keys-Reserves now j js acc cs r h in
      let kept = counter_other-Only policy capacity k (IsReady rule n now) now j cs x other e o in
      elim f [
        | inl (c, _, q) ↦
            reserve_keys-ready n now js _ _ r fits once q
              (set_other-Only k (IsReady rule n now) j (reserved_in c) x.1 other kept)
        | inr g ↦ elim g [
          | inl (_, q) ↦ refunded-Only n now acc x.1 r.1 q (held n now x.1 kept)
          | inr (_, q) ↦ reserve_keys-ready n now js _ _ r fits once q kept
        ]
      ]
  reserve_keys-ready n now (j ∷ js) acc cs r fits (inr (same, a)) h o =
      let (x, e, f) = reserve_keys-Reserves now j js acc cs r h in
      let own =
        counter_own-Only policy capacity k rule known (IsReady rule n now) now cs x
          (fresh-IsReady rule n now positive)
          (subst (λ i. counter policy capacity i now cs ≡ some x) same e) o in
      elim own [
        | inl (missing, kept) ↦ elim f [
          | inl (c, there, q) ↦ let bad = sym missing ∙ there in absurd (ground (arith, bad))
          | inr g ↦ elim g [
            | inl (_, q) ↦ refunded-Only n now acc x.1 r.1 q (held n now x.1 kept)
            | inr (_, q) ↦ reserve_keys-absent n now js _ _ r a q (held n now x.1 kept)
          ]
        ]
        | inr (d, ready, found, kept) ↦
            let more = reserved_in-IsHeld rule n now d positive fits ready in
            let put : Only k (IsHeld rule n)
                (set_counter k (reserved_in (restarted rule now d)) x.1) =
              set_counter-Only k (λ d. Unit {0}) (IsHeld rule n) x.1 _ kept more in
            elim f [
              | inl (c, there, q) ↦
                  let reserved : c ≡ restarted rule now d =
                    some-injective _ _ (sym there ∙ found) in
                  let put' : Only k (IsHeld rule n) (set_counter j (reserved_in c) x.1) =
                    subst {A = Key × Counter}
                      (λ y. Only k (IsHeld rule n) (set_counter y.0 (reserved_in y.1) x.1))
                      (ap₂ (λ a b. (a, b)) (sym same) (sym reserved)) put in
                  reserve_keys-absent n now js _ _ r a q put'
              | inr g ↦
                  let missing : x.0 ≡ none = elim g [ inl (m, _) ↦ m | inr (m, _) ↦ m ] in
                  let bad = sym found ∙ missing in absurd (ground (arith, bad))
            ]
      ]

  -- Letting an attempt through, or refusing it, keeps the key's counter in order.
  pub reserve_at-Only :
      (n now : ℕ) (digest : Option ℕ) (addr : IpAddr) (cs : Counters)
      (r : Result Refused (List (Key × Bool)) × Counters)
      → rule.limit + n < 2 ^ 32
      → reserve_at policy capacity digest addr now cs ≡ some r
      → Only k (IsHeld rule n) cs
      → Only k (IsHeld rule n) r.1
  unfolding reserve_at
  reserve_at-Only n now digest addr cs r fits h o =
      let keys = keys_of policy digest (grouped addr) in
      let (ws, e, f) = and_then-eq-some (waits policy now cs keys) _ h in
      elim (Option-cases (longest ws)) [
        | inr (w, g) ↦
            subst (Only k (IsHeld rule n))
              (ap (λ x. x.1) (some-injective _ _ (sym (ap answer g) ∙ f))) o
        | inl g ↦
            let q = sym (ap answer g) ∙ f in
            let free : waits policy now cs keys ≡ some [] = e ∙ ap some (longest-none ws g) in
            let once = keys_of-OnceIn k policy digest (grouped addr) in
            elim (OnceIn-cases k keys once) [
              | inl a ↦ reserve_keys-absent n now keys [] cs r a q o
              | inr i ↦ reserve_keys-ready n now keys [] cs r fits once q (ready keys free i)
            ]
      ]
    where
      answer : Option ℕ → Option (Result Refused (List (Key × Bool)) × Counters)
      answer w = elim w [
        | some w ↦ some (err (wait_for w), cs)
        | none ↦ reserve_keys policy capacity now (keys_of policy digest (grouped addr)) [] cs
      ]

      ready :
          (keys : List Key)
          → waits policy now cs keys ≡ some []
          → In k keys
          → Only k (IsReady rule n now) cs
      ready keys free i = elim (Option-cases (find_counter k cs)) [
        | inl e ↦ Without-Only k (IsReady rule n now) cs (Only-none k (IsHeld rule n) cs o e)
        | inr (c, e) ↦ Only-found k (IsHeld rule n) (IsReady rule n now) cs c o e (
            wait-IsReady rule n now c fits (Only-find k (IsHeld rule n) cs c o e)
              (waits-none policy k rule known now cs keys c free i e))
      ]
