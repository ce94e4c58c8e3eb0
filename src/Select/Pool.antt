-- ===== src/Select/Pool.antt =====
-- The endpoints that are left to a request, and the pool that the cursor chooses from, in
-- `pick_endpoint` of crates/gapura/src/proxy/select.rs.
use native.Mathlib.Nat.{mod-lt}
use gapura.Prelude.{
  ℕ, zero, suc, ◌+◌, ◌%◌, ◌<◌, ◌≡◌, ◌⊎◌, inl, inr, refl, sym, ◌∙◌, ap, Bool, true, false, not, ◌||◌,
  Option, none, some, List, [], ◌∷◌, arith, Bool-cases, Option-cases, Text, In, length, get_elem?,
  filter_by, In-filter_by,
}
use gapura.ClientIp.{IpAddr}
use gapura.Config.{Endpoint}
use gapura.Select.{ok, SocketAddr, untried, left_from, pool_of, pick_from}

-- The endpoint with this index has this address, and the request has not tried it.
pub record IsUntried (parse : Text → Option IpAddr) (tried : List SocketAddr) (es : List Endpoint)
    (x : ℕ × SocketAddr) : Type 0 where
  pub endpoint : Endpoint
  pub placed : get_elem? es x.0 ≡ some endpoint
  pub addressed : untried parse tried endpoint ≡ some x.1

get_elem?-some :
    {A : Type 0} (xs : List A) (i : ℕ)
    → i < length xs
    → (x : A) × (get_elem? xs i ≡ some x) × In x xs
get_elem?-some [] i h = absurd (omega arith)
get_elem?-some (x ∷ xs) zero h = (x, refl, inl refl)
get_elem?-some (x ∷ xs) (suc i) h =
    let (y, e, j) = get_elem?-some xs i (omega arith) in (y, e, inr j)

-- A pool that is not empty is picked from.
pub pick_from-In :
    (x : ℕ × SocketAddr) (xs : List (ℕ × SocketAddr)) (cursor : ℕ)
    → (y : ℕ × SocketAddr) × In y (x ∷ xs) × (pick_from (x ∷ xs) cursor ≡ ok y)
pick_from-In x xs cursor =
    let (y, e, i) =
      get_elem?-some (x ∷ xs) (cursor % length (x ∷ xs)) (mod-lt cursor (omega arith)) in
    (y, i, rw (e, pick_from) refl)

module _ (parse : Text → Option IpAddr) (tried : List SocketAddr) where
  left_from_nil : (k : ℕ) → left_from parse tried k [] ≡ []
  unfolding left_from
  left_from_nil k = refl

  left_from_skips :
      (k : ℕ) (e : Endpoint) (es : List Endpoint)
      → untried parse tried e ≡ none
      → left_from parse tried k (e ∷ es) ≡ left_from parse tried (suc k) es
  unfolding left_from
  left_from_skips k e es n = rw (n, left_from)

  left_from_takes :
      (k : ℕ) (e : Endpoint) (es : List Endpoint) (a : SocketAddr)
      → untried parse tried e ≡ some a
      → left_from parse tried k (e ∷ es) ≡ (k, a) ∷ left_from parse tried (suc k) es
  unfolding left_from
  left_from_takes k e es a p = rw (p, left_from)

  behind :
      (k : ℕ) (e : Endpoint) (es : List Endpoint) (x : ℕ × SocketAddr)
      → (j : ℕ) × (x.0 ≡ suc k + j) × IsUntried parse tried es (j, x.1)
      → (j : ℕ) × (x.0 ≡ k + j) × IsUntried parse tried (e ∷ es) (j, x.1)
  behind k e es x (j, q, u) = (
    suc j,
    omega (arith, q),
    record { endpoint = u.endpoint; placed = u.placed; addressed = u.addressed },
  )

  pub left_from_sound :
      (k : ℕ) (es : List Endpoint) (x : ℕ × SocketAddr)
      → In x (left_from parse tried k es)
      → (j : ℕ) × (x.0 ≡ k + j) × IsUntried parse tried es (j, x.1)
  left_from_sound k [] x i = absurd (rw (left_from_nil k) at i)
  left_from_sound k (e ∷ es) x i = elim (Option-cases (untried parse tried e)) [
    | inl n ↦ behind k e es x (left_from_sound (suc k) es x (rw (left_from_skips k e es n) at i))
    | inr (a, p) ↦
        let found : (x ≡ (k, a)) ⊎ In x (left_from parse tried (suc k) es) =
          rw (left_from_takes k e es a p) at i in
        elim found [
          | inl q ↦
              let here : x.0 ≡ k = ap (λ (y : ℕ × SocketAddr). y.0) q in
              let there : x.1 ≡ a = ap (λ (y : ℕ × SocketAddr). y.1) q in
              (
                0,
                omega (arith, here),
                record { endpoint = e; placed = refl; addressed = rw there p },
              )
          | inr r ↦ behind k e es x (left_from_sound (suc k) es x r)
        ]
  ]

  left_from_ahead :
      (k : ℕ) (e : Endpoint) (es : List Endpoint) (x : ℕ × SocketAddr)
      → In x (left_from parse tried (suc k) es)
      → In x (left_from parse tried k (e ∷ es))
  left_from_ahead k e es x i = elim (Option-cases (untried parse tried e)) [
    | inl n ↦ rw (left_from_skips k e es n) i
    | inr (a, p) ↦ rw (left_from_takes k e es a p) (inr i)
  ]

  pub left_from_complete :
      (k j : ℕ) (es : List Endpoint) (a : SocketAddr)
      → IsUntried parse tried es (j, a)
      → In (k + j, a) (left_from parse tried k es)
  left_from_complete k j [] a u = absurd (ground (arith, u.placed))
  left_from_complete k zero (e ∷ es) a u =
      let same : e ≡ u.endpoint = ground (arith, u.placed) in
      let p : untried parse tried e ≡ some a = rw same u.addressed in
      rw (left_from_takes k e es a p) (inl (ap (λ i. (i, a)) (omega arith)))
  left_from_complete k (suc j) (e ∷ es) a u =
      let rest =
        left_from_complete (suc k) j es a
          (record { endpoint = u.endpoint; placed = u.placed; addressed = u.addressed }) in
      let same : suc k + j ≡ k + suc j = omega arith in
      left_from_ahead k e es (k + suc j, a) (rw same at rest)

-- A chosen endpoint is ejected only if ejection is ignored or nothing else is left.
abbrev pub IsLastResort : (ℕ → Bool) → Bool → List (ℕ × SocketAddr) → Type 0
IsLastResort ejected panic left =
    (panic ≡ true) ⊎ ((y : ℕ × SocketAddr) → In y left → ejected y.0 ≡ true)

pub List-cases : {A : Type 0} (xs : List A) → (xs ≡ []) ⊎ ((x : A) × (ys : List A) × (xs ≡ x ∷ ys))
List-cases [] = inl refl
List-cases (x ∷ xs) = inr (x, xs, refl)

module _ (ejected : ℕ → Bool) (panic : Bool) where
  abbrev is_healthy : ℕ × SocketAddr → Bool
  is_healthy x = panic || not (ejected x.0)

  pool_of-cases :
      (left : List (ℕ × SocketAddr))
      → (pool_of ejected panic left ≡ left)
          × ((y : ℕ × SocketAddr) → In y left → is_healthy y ≡ false)
        ⊎ (pool_of ejected panic left ≡ filter_by is_healthy left)
          × ((x : ℕ × SocketAddr) × In x (pool_of ejected panic left))
  pool_of-cases left = elim (List-cases (filter_by is_healthy left)) [
    | inl e ↦ inl (rw e refl, λ y i. unhealthy e y i)
    | inr (x, ys, e) ↦ inr (rw e refl, (x, rw e (inl refl)))
  ]
    where
      unhealthy :
          filter_by is_healthy left ≡ [] → (y : ℕ × SocketAddr) → In y left → is_healthy y ≡ false
      unhealthy e y i = elim (Bool-cases (is_healthy y)) [
        | inl h ↦ absurd (rw e at ((In-filter_by is_healthy y left).1 (i, h)))
        | inr h ↦ h
      ]

  pub pool_of-eq-nil : (left : List (ℕ × SocketAddr)) → pool_of ejected panic left ≡ [] → left ≡ []
  pool_of-eq-nil left h = elim (pool_of-cases left) [
    | inl (e, all_out) ↦ sym e ∙ h
    | inr (e, (x, i)) ↦ absurd (rw h at i)
  ]

  pub pool_of-In :
      (left : List (ℕ × SocketAddr)) (x : ℕ × SocketAddr)
      → In x (pool_of ejected panic left)
      → In x left × (ejected x.0 ≡ true → IsLastResort ejected panic left)
  pool_of-In left x i = elim (pool_of-cases left) [
    | inl (e, all_out) ↦ (rw e at i, λ q. inr (λ y j. let h = all_out y j in ground arith))
    | inr (e, some_in) ↦
        let (j, h) = (In-filter_by is_healthy x left).0 (rw e at i) in (j, λ q. inl (ground arith))
  ]
