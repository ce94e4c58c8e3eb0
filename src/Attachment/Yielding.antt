-- ===== src/Attachment/Yielding.antt =====
-- Which hostnames a listener leaves to another: `yield_to_siblings` of
-- crates/gapura-core/src/translate/routes.rs.
use gapura.Prelude.{
  ℕ, ◌<◌, ◌==◌, ◌≡◌, ◌↔◌, ◌≢◌, ◌⊎◌, inl, inr, refl, ap, ap₂, sym, ◌∙◌, true, not, List, [], ◌∷◌,
  Option, none, some, Text, In, In-filter_by, filter_by, arith, any→In, In→any, Bool-cases,
  Option-cases, find, find→In, find-none, and-eq-true_iff, ==_iff,
}
use gapura.Config.{Protocol, http, https}
use gapura.Hostname.{matches, specificity}
use gapura.Listeners.{ListenerBuild}
use gapura.Listeners.Building.{protocol_eq}
use gapura.Listeners.Conflicts.{protocol_eq→eq}
use gapura.Attachment.{
  Sibling, same_place, above, covers, claims_from, own_port, claimed_by_any, none_if_empty,
  yield_to_siblings,
}

-- The hostname pattern that is more specific: of the better kind, or of the same kind and longer.
abbrev pub IsAbove : ℕ × ℕ → ℕ × ℕ → Type 0
IsAbove a b = (b.0 < a.0) ⊎ ((a.0 ≡ b.0) × (b.1 < a.1))

-- A sibling takes the hostname from the listener at `at`, which is served on `port`: it is another
-- listener, on the port and of the protocol, whose hostname is more specific and covers it.
pub record Claims (at : ℕ × ℕ) (port : ℕ) (own : ListenerBuild) (h : Text) (s : Sibling)
    : Type 0 where
  pub elsewhere : s.at ≢ at
  pub same_port : s.port ≡ port
  pub same_protocol : own.protocol ≡ some s.protocol
  pub better : IsAbove (specificity s.hostname) (specificity own.hostname)
  pub covered : (pattern : Text) × (s.hostname ≡ some pattern) × (matches pattern h ≡ true)

same_place_iff : (a b : ℕ × ℕ) → (same_place a b ≡ true) ↔ (a ≡ b)
same_place_iff a b = (
  λ h.
      let (x, y) = (and-eq-true_iff _ _).0 h in
      ap₂ (λ u v. (u, v)) ((==_iff _ _).0 x) ((==_iff _ _).0 y),
  λ e. (and-eq-true_iff _ _).1 ((==_iff _ _).1 (ap (λ x. x.0) e), (==_iff _ _).1 (ap (λ x. x.1) e)),
)

above_iff : (a b : ℕ × ℕ) → (above a b ≡ true) ↔ IsAbove a b
above_iff a b = (λ h. ground (arith, h), λ h. ground (arith, h))

covers→ :
    (o : Option Text) (h : Text)
    → covers o h ≡ true
    → (pattern : Text) × (o ≡ some pattern) × (matches pattern h ≡ true)
covers→ none h e = absurd (ground (arith, e))
covers→ (some p) h e = (p, refl, e)

protocol_eq-some : (p : Protocol) → protocol_eq (some p) (some p) ≡ true
protocol_eq-some http = refl
protocol_eq-some https = refl

module _ (at : ℕ × ℕ) (port : ℕ) (own : ListenerBuild) (h : Text) (s : Sibling) where
  claims_from-Claims : claims_from at port own h s ≡ true → Claims at port own h s
  unfolding claims_from
  claims_from-Claims e =
      let (a, e₁) = (and-eq-true_iff (not (same_place s.at at)) _).0 e in
      let (b, e₂) = (and-eq-true_iff (s.port == port) _).0 e₁ in
      let (c, e₃) = (and-eq-true_iff (protocol_eq (some s.protocol) own.protocol) _).0 e₂ in
      let (d, f) = (and-eq-true_iff _ _).0 e₃ in
      record {
        elsewhere = λ q. let there = (same_place_iff s.at at).1 q in ground (arith, a, there);
        same_port = (==_iff _ _).0 b;
        same_protocol = sym (protocol_eq→eq (some s.protocol) own.protocol c);
        better = (above_iff _ _).0 d;
        covered = covers→ s.hostname h f;
      }

  Claims-claims_from : Claims at port own h s → claims_from at port own h s ≡ true
  unfolding claims_from
  Claims-claims_from x =
      let a : not (same_place s.at at) ≡ true = elim (Bool-cases (same_place s.at at)) [
        | inl e ↦ absurd (x.elsewhere ((same_place_iff s.at at).0 e))
        | inr e ↦ ap not e
      ] in
      let (pattern, q, m) = x.covered in
      let c = ap (protocol_eq (some s.protocol)) x.same_protocol ∙ protocol_eq-some s.protocol in
      (and-eq-true_iff _ _).1 (
        a,
        (and-eq-true_iff _ _).1 (
          (==_iff _ _).1 x.same_port,
          (and-eq-true_iff _ _).1
              (c, (and-eq-true_iff _ _).1 ((above_iff _ _).1 x.better, ap (λ o. covers o h) q ∙ m)),
        ),
      )

module _ (at : ℕ × ℕ) (own : ListenerBuild) (siblings : List Sibling) where
  -- The port that the listener itself is served on: that of its own place among the siblings, or
  -- else the one that it declares.
  abbrev pub IsOwnPort : ℕ → Type 0
  IsOwnPort port =
      ((s : Sibling) × In s siblings × (s.at ≡ at) × (port ≡ s.port))
      ⊎ (((s : Sibling) → In s siblings → s.at ≢ at) × (port ≡ own.port))

  own_port-IsOwnPort : IsOwnPort (own_port at own siblings)
  own_port-IsOwnPort = elim (Option-cases (find (λ s. same_place s.at at) siblings)) [
    | inl e ↦ inr (
      λ s i q.
          let no = find-none (λ s. same_place s.at at) s siblings e i in
          let yes = (same_place_iff s.at at).1 q in ground (arith, no, yes),
      ap (λ o. elim o [ none ↦ own.port | some s ↦ s.port ]) e,
    )
    | inr (s, e) ↦
        let (i, q) = find→In (λ s. same_place s.at at) siblings s e in
        inl (
          s,
          i,
          (same_place_iff s.at at).0 q,
          ap (λ o. elim o [ none ↦ own.port | some s ↦ s.port ]) e,
        )
  ]

  -- The hostname belongs to another listener.
  abbrev pub IsClaimed : Text → Type 0
  IsClaimed h = (s : Sibling) × In s siblings × Claims at (own_port at own siblings) own h s

  claimed_by_any_iff : (h : Text) → (claimed_by_any at own siblings h ≡ true) ↔ IsClaimed h
  claimed_by_any_iff h = (
    λ e.
        let (s, i, c) = any→In (claims_from at (own_port at own siblings) own h) siblings e in
        (s, i, claims_from-Claims at _ own h s c),
    λ x.
        In→any (claims_from at (own_port at own siblings) own h) x.0 siblings x.1
          (Claims-claims_from at _ own h x.0 x.2),
  )

  abbrev kept : List Text → List Text
  kept hosts = filter_by (λ x. not (claimed_by_any at own siblings x)) hosts

  In-kept : (h : Text) (hosts : List Text) → In h (kept hosts) ↔ (In h hosts × ¬ IsClaimed h)
  In-kept h hosts = (
    λ i.
        let (j, e) = (In-filter_by (λ x. not (claimed_by_any at own siblings x)) h hosts).0 i in
        (j, λ x. absurd (ground (arith, e, (claimed_by_any_iff h).1 x))),
    λ p.
        let free : not (claimed_by_any at own siblings h) ≡ true =
          elim (Bool-cases (claimed_by_any at own siblings h)) [
            | inl e ↦ absurd (p.1 ((claimed_by_any_iff h).0 e))
            | inr e ↦ ground (arith, e)
          ] in
        (In-filter_by (λ x. not (claimed_by_any at own siblings x)) h hosts).1 (p.0, free),
  )

  -- What an answer has to say. No hostname at all stands for any host, which no one claims.
  abbrev pub IsYielded : List Text → Option (List Text) → Type 0
  IsYielded hosts none = (hosts ≢ []) × ((h : Text) → In h hosts → IsClaimed h)
  IsYielded hosts (some rest) =
      ((h : Text) → In h rest ↔ (In h hosts × ¬ IsClaimed h)) × (rest ≡ [] → hosts ≡ [])

  none_if_empty-IsYielded :
      (host : Text) (hosts rest : List Text)
      → ((h : Text) → In h rest ↔ (In h (host ∷ hosts) × ¬ IsClaimed h))
      → IsYielded (host ∷ hosts) (none_if_empty rest)
  none_if_empty-IsYielded host hosts [] f = (
    λ e. absurd (ground arith),
    λ h i. elim (Bool-cases (claimed_by_any at own siblings h)) [
      | inl e ↦ (claimed_by_any_iff h).0 e
      | inr e ↦ absurd ((f h).1 (i, λ x. absurd (ground (arith, e, (claimed_by_any_iff h).1 x))))
    ],
  )
  none_if_empty-IsYielded host hosts (r ∷ rest) f = (f, λ e. absurd (ground arith))

  IsYielded-yield_to_siblings :
      (hosts : List Text) → IsYielded hosts (yield_to_siblings hosts at own siblings)
  unfolding yield_to_siblings
  IsYielded-yield_to_siblings [] = (λ h. (λ i. absurd i, λ p. p.0), λ e. refl)
  IsYielded-yield_to_siblings (host ∷ hosts) =
      none_if_empty-IsYielded host hosts (kept (host ∷ hosts)) (λ h. In-kept h (host ∷ hosts))

  -- A route keeps at a listener just the hostnames that no other listener claims, one that is served
  -- on the same port and of the same protocol and has a more specific hostname that covers the
  -- route's; it does not attach where it had hostnames and none is left.
  pub yield_to_siblings-IsYielded :
      (hosts : List Text)
      → IsOwnPort (own_port at own siblings)
        × IsYielded hosts (yield_to_siblings hosts at own siblings)
  yield_to_siblings-IsYielded hosts = (own_port-IsOwnPort, IsYielded-yield_to_siblings hosts)
