-- ===== src/Throttle/Keys.antt =====
-- The keys of an attempt: `keys` of `reserve_at` in crates/gapura-control/src/throttle.rs.
use gapura.Prelude.{
  ℕ, suc, ◌<◌, ◌≡◌, ◌≢◌, ◌⊎◌, inl, inr, sym, subst, Option, none, some, List, [], ◌∷◌, All, In,
  arith, Option-cases,
}
use gapura.ClientIp.{IpAddr}
use gapura.Throttle.{Rule, Policy, Key, by_pair, by_address}
use gapura.Throttle.Attempts.{address_keys, keys_of}
use gapura.Throttle.Entries.{key-cases}

-- The keys hold a key once at most.
abbrev pub OnceIn : Key → List Key → Type 0
OnceIn k [] = Unit
OnceIn k (j ∷ js) = ((j ≢ k) × OnceIn k js) ⊎ ((j ≡ k) × All (λ i. i ≢ k) js)

All-OnceIn : (k : Key) (js : List Key) → All (λ i. i ≢ k) js → OnceIn k js
All-OnceIn k [] a = tt
All-OnceIn k (j ∷ js) a = inl (a.0, All-OnceIn k js a.1)

later_addresses :
    (a b : IpAddr) (m i : ℕ) (rules : List Rule)
    → m < i
    → All (λ j. j ≢ by_address a m) (address_keys b i rules)
unfolding address_keys
later_addresses a b m i [] lt = tt
later_addresses a b m i (rule ∷ rules) lt =
    (λ e. ground (arith, e, lt), later_addresses a b m (suc i) rules (omega arith))

no_pairs :
    (d : ℕ) (a b : IpAddr) (i : ℕ) (rules : List Rule)
    → All (λ j. j ≢ by_pair d a) (address_keys b i rules)
unfolding address_keys
no_pairs d a b i [] = tt
no_pairs d a b i (rule ∷ rules) = (λ e. ground (arith, e), no_pairs d a b (suc i) rules)

address_keys-OnceIn :
    (k : Key) (b : IpAddr) (i : ℕ) (rules : List Rule) → OnceIn k (address_keys b i rules)
unfolding address_keys
address_keys-OnceIn k b i [] = tt
address_keys-OnceIn k b i (rule ∷ rules) = elim (key-cases (by_address b i) k) [
  | inr n ↦ inl (n, address_keys-OnceIn k b (suc i) rules)
  | inl e ↦ inr (
    e,
    subst (λ j. All (λ x. x ≢ j) (address_keys b (suc i) rules)) e
        (later_addresses b b i (suc i) rules (omega arith)),
  )
]

pub keys_of-OnceIn :
    (k : Key) (policy : Policy) (digest : Option ℕ) (b : IpAddr)
    → OnceIn k (keys_of policy digest b)
unfolding keys_of
keys_of-OnceIn k policy none b = address_keys-OnceIn k b 0 policy.address
keys_of-OnceIn k policy (some d) b = elim (Option-cases policy.pair) [
  | inl e ↦ subst (λ o. OnceIn k (with_pair o)) (sym e) (address_keys-OnceIn k b 0 policy.address)
  | inr (own, e) ↦
      subst (λ o. OnceIn k (with_pair o)) (sym e)
        (elim (key-cases (by_pair d b) k) [
          | inr n ↦ inl (n, address_keys-OnceIn k b 0 policy.address)
          | inl f ↦ inr (
            f,
            subst (λ j. All (λ x. x ≢ j) (address_keys b 0 policy.address)) f
                (no_pairs d b b 0 policy.address),
          )
        ])
]
  where
    with_pair : Option Rule → List Key
    with_pair o = elim o [
      | none ↦ address_keys b 0 policy.address
      | some rule ↦ by_pair d b ∷ address_keys b 0 policy.address
    ]

pub OnceIn-cases : (k : Key) (js : List Key) → OnceIn k js → All (λ i. i ≢ k) js ⊎ In k js
OnceIn-cases k [] o = inl tt
OnceIn-cases k (j ∷ js) (inl (n, o)) = elim (OnceIn-cases k js o) [
  | inl a ↦ inl (n, a)
  | inr i ↦ inr (inr i)
]
OnceIn-cases k (j ∷ js) (inr (e, a)) = inr (inl (sym e))
