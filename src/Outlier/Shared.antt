-- ===== src/Outlier/Shared.antt =====
-- The records that a configuration shares: `Registry::sync` of
-- crates/gapura/src/proxy/outlier.rs.
use gapura.Prelude.{
  ℕ, ◌≡◌, ◌↔◌, inl, inr, refl, ap, ap₂, sym, ◌∙◌, subst, Bool, true, List, [], ◌∷◌, ◌++◌, map,
  Option, none, some, Text, In, In-append, get_elem?, Bool-cases, Option-cases, and_then,
  if◌then◌else◌,
}
use gapura.Config.{Endpoint, Cluster}
use gapura.Select.{SocketAddr, same_address, endpoint_addr}
use gapura.ClientIp.{IpAddr}
use gapura.Outlier.{Health, fresh}
use gapura.Outlier.Registry.{
  Registry, known_at, handle_of, addresses, record_of, records_of, out_of, named,
}
use gapura.Outlier.Registry.{retained, sync}
use gapura.Outlier.Syncing.{same_address_iff, Grows, Grows-refl, Grows-trans, handle_of-Grows}
use gapura.Prelude.{if_true, if_false, any, filter_by, any→In, In→any}

module _ (parse : Text → Option IpAddr) where
  -- The record of an endpoint, as a registry has it: none where the address does not parse.
  abbrev pub found_in : Registry → Endpoint → Option ℕ
  found_in r e = and_then (endpoint_addr parse e) (λ a. known_at a r.known)

  -- Looked up, and found in every later registry.
  record Finds {A : Type 0} (looked_up : List SocketAddr) (of : Registry → A) (x : A)
      (r r' : Registry) : Type 0 where
    pub grows : Grows looked_up r r'
    pub known : (a : SocketAddr) → In a looked_up → (h : ℕ) × (known_at a r'.known ≡ some h)
    pub found : (qs : List SocketAddr) (later : Registry) → Grows qs r' later → x ≡ of later

  record_of-Finds :
      (e : Endpoint) (r : Registry)
      → Finds
          (addresses parse (e ∷ []))
          (λ later. found_in later e)
          (record_of parse e r).0
          r
          (record_of parse e r).1
  unfolding record_of addresses
  record_of-Finds e r = elim (Option-cases (endpoint_addr parse e)) [
    | inl q ↦
        rw (q, record_of, addresses)
          (record { grows = Grows-refl r; known = λ a i. absurd i; found = λ qs later g. refl })
    | inr (a, q) ↦
        let g = handle_of-Grows a r in
        rw (q, record_of, addresses)
          (record {
            grows = g.0;
            known = λ b i. elim i [
              | inl same ↦ (
                _,
                subst (λ c. known_at c (handle_of a r).1.known ≡ some (handle_of a r).0) (sym same)
                    g.1,
              )
              | inr j ↦ absurd j
            ];
            found = λ qs later g'. (sym (g'.known a _ g.1));
          })
  ]

  addresses-cons :
      (e : Endpoint) (es : List Endpoint)
      → addresses parse (e ∷ []) ++ addresses parse es ≡ addresses parse (e ∷ es)
  unfolding addresses
  addresses-cons e es = elim (Option-cases (endpoint_addr parse e)) [
    | inl q ↦ rw (q, addresses) refl
    | inr (a, q) ↦ rw (q, addresses) refl
  ]

  Finds-both :
      {A B C : Type 0} {ps qs : List SocketAddr} {of : Registry → A} {of' : Registry → B} {x : A}
      {y : B} {r r' r'' : Registry} (join : A → B → C)
      → Finds ps of x r r'
      → Finds qs of' y r' r''
      → Finds (ps ++ qs) (λ later. join (of later) (of' later)) (join x y) r r''
  Finds-both {ps = ps} {qs = qs} {r = r} {r' = r'} {r'' = r''} join f g = record {
    grows = Grows-trans ps qs r r' r'' f.grows g.grows;
    known = λ a i. elim ((In-append a ps qs).0 i) [
      | inl j ↦ let (h, e) = f.known a j in (h, g.grows.known a h e)
      | inr j ↦ g.known a j
    ];
    found = λ ws later h.
        ap₂ join (f.found _ later (Grows-trans qs ws r' r'' later g.grows h)) (g.found ws later h);
  }

  records_of-Finds :
      (es : List Endpoint) (r : Registry)
      → Finds
          (addresses parse es)
          (λ later. map (found_in later) es)
          (records_of parse es r).0
          r
          (records_of parse es r).1
  unfolding records_of addresses
  records_of-Finds [] r = record {
    grows = Grows-refl r;
    known = λ a i. absurd i;
    found = λ qs later g. refl;
  }
  records_of-Finds (e ∷ es) r =
      let first = record_of-Finds e r in
      let rest = records_of-Finds es (record_of parse e r).1 in
      subst
        (λ ps.
          Finds ps (λ later. map (found_in later) (e ∷ es)) (records_of parse (e ∷ es) r).0 r
            (records_of parse (e ∷ es) r).1)
        (addresses-cons e es) (Finds-both (λ o os. o ∷ os) first rest)

  -- What every cluster's records are.
  abbrev pub all_found_in : List (Text × Cluster) → Registry → List (Text × List (Option ℕ))
  all_found_in clusters r = map (λ c. (c.0, map (found_in r) c.1.endpoints)) clusters

  out_of-Finds :
      (clusters : List (Text × Cluster)) (r : Registry)
      → Finds
          (named parse clusters)
          (all_found_in clusters)
          (out_of parse clusters r).0
          r
          (out_of parse clusters r).1
  unfolding out_of named
  out_of-Finds [] r = record {
    grows = Grows-refl r;
    known = λ a i. absurd i;
    found = λ qs later g. refl;
  }
  out_of-Finds ((key, cluster) ∷ clusters) r =
      Finds-both (λ os out. (key, os) ∷ out) (records_of-Finds cluster.endpoints r)
        (out_of-Finds clusters (records_of parse cluster.endpoints r).1)

  known_at-filter_by :
      (p : SocketAddr → Bool) (a : SocketAddr) (m : List (SocketAddr × ℕ))
      → known_at a (filter_by (λ k. p k.0) m) ≡ (if p a then known_at a m else none)
  unfolding known_at
  known_at-filter_by p a [] = elim (Bool-cases (p a)) [ inl e ↦ rw e refl | inr e ↦ rw e refl ]
  known_at-filter_by p a ((b, h) ∷ m) =
      let rest = known_at-filter_by p a m in
      elim (Bool-cases (same_address b a)) [
        | inl q ↦
            let same : p b ≡ p a = ap p ((same_address_iff b a).0 q) in
            elim (Bool-cases (p a)) [
              | inl e ↦ let e' = same ∙ e in rw e' (rw (q, known_at) (rw e refl))
              | inr e ↦ let e' = same ∙ e in rw e' (rest ∙ rw e refl)
            ]
        | inr q ↦ elim (Bool-cases (p b)) [
          | inl e ↦ rw e (rw (q, known_at) rest)
          | inr e ↦ rw e (rw (q, known_at) rest)
        ]
      ]

  -- A registry in step with a configuration.
  pub record IsSynced (clusters : List (Text × Cluster)) (r : Registry)
      (out : List (Text × List (Option ℕ))) (r' : Registry) : Type 0 where
    pub shared : out ≡ all_found_in clusters r'
    pub known :
        (a : SocketAddr) → In a (named parse clusters) → (h : ℕ) × (known_at a r'.known ≡ some h)
    pub kept :
        (a : SocketAddr) (h : ℕ)
        → In a (named parse clusters)
        → known_at a r.known ≡ some h
        → known_at a r'.known ≡ some h
    pub contents : (i : ℕ) (x : Health) → get_elem? r.heap i ≡ some x → get_elem? r'.heap i ≡ some x
    pub forgotten :
        (a : SocketAddr) (h : ℕ) → known_at a r'.known ≡ some h → In a (named parse clusters)
    pub new :
        (a : SocketAddr) (h : ℕ)
        → known_at a r.known ≡ none
        → known_at a r'.known ≡ some h
        → get_elem? r'.heap h ≡ some fresh

  module _ (clusters : List (Text × Cluster)) (r : Registry) where
    abbrev is_named : SocketAddr → Bool
    is_named a = any (λ b. same_address b a) (named parse clusters)

    is_named_iff : (a : SocketAddr) → (is_named a ≡ true) ↔ In a (named parse clusters)
    is_named_iff a = (
      λ h.
          let (b, i, e) = any→In (λ b. same_address b a) _ h in
          subst (λ x. In x (named parse clusters)) ((same_address_iff b a).0 e) i,
      λ i. In→any (λ b. same_address b a) a _ i ((same_address_iff a a).1 refl),
    )

    known_at-retained :
        (a : SocketAddr)
        → known_at a (retained parse clusters r).known
          ≡ (if is_named a then known_at a r.known else none)
    unfolding retained
    known_at-retained a = known_at-filter_by is_named a r.known

    unknown :
        (a : SocketAddr)
        → known_at a r.known ≡ none
        → known_at a (retained parse clusters r).known ≡ none
    unknown a e = elim (Bool-cases (is_named a)) [
      | inl named_it ↦ known_at-retained a ∙ (if_true _ _ named_it ∙ e)
      | inr other ↦ known_at-retained a ∙ if_false _ _ other
    ]

    -- After a sync every cluster has the record of each of its endpoints, clusters that name one
    -- address share it, an address that was known and is named keeps its record and what is in
    -- it, one that was not known has a fresh record, and none that is not named is known.
    pub sync-IsSynced : IsSynced clusters r (sync parse clusters r).0 (sync parse clusters r).1
    unfolding sync retained
    sync-IsSynced =
        let f = out_of-Finds clusters (retained parse clusters r) in
        let end = (out_of parse clusters (retained parse clusters r)).1 in
        record {
          shared = f.found [] end (Grows-refl end);
          known = f.known;
          kept = λ a h i e.
              f.grows.known a h (known_at-retained a ∙ (if_true _ _ ((is_named_iff a).1 i) ∙ e));
          contents = f.grows.heap;
          forgotten = λ a h e. elim (Bool-cases (is_named a)) [
            | inl named_it ↦ (is_named_iff a).0 named_it
            | inr other ↦ (f.grows.new a h (known_at-retained a ∙ if_false _ _ other) e).1
          ];
          new = λ a h e e'. (f.grows.new a h (unknown a e) e').0;
        }
