-- ===== src/Select/Endpoints.antt =====
-- Which endpoint `pick_endpoint` of crates/gapura/src/proxy/select.rs picks.
use gapura.Prelude.{
  ℕ, ◌%◌, ◌≡◌, ◌↔◌, ◌⊎◌, inl, inr, refl, ◌∙◌, ap, subst, Bool, true, false, Option, none, some,
  List, [], ◌∷◌, arith, if◌then◌else◌, Bool-cases, Option-cases, Text, In, length, get_elem?,
  and_then-eq-some,
}
use gapura.ClientIp.{IpAddr}
use gapura.Config.{Endpoint, Cluster}
use gapura.Select.{
  Result, Local, ok, err, no_endpoints, SocketAddr, untried, left_from, is_empty, panics, pool_of,
  pick_from, at_cursor, pick_endpoint,
}
use gapura.Select.Pool.{
  IsUntried, pick_from-In, left_from_complete, left_from_sound, List-cases, pool_of-eq-nil,
  pool_of-In,
}

module _ (parse : Text → Option IpAddr) (cluster : Cluster) (cursor : ℕ) (tried : List SocketAddr)
    (ejected : ℕ → Bool) (max_ejected_percent : ℕ) where
  abbrev left : List (ℕ × SocketAddr)
  left = left_from parse tried 0 cluster.endpoints

  abbrev pool : List (ℕ × SocketAddr)
  pool = pool_of ejected (panics cluster ejected max_ejected_percent) left

  abbrev pick : Result Local (ℕ × SocketAddr)
  pick = pick_endpoint parse cluster cursor tried ejected max_ejected_percent

  at_cursor_sound :
      (x : ℕ × SocketAddr)
      → at_cursor parse cluster cursor tried ejected ≡ some x
      → IsUntried parse tried cluster.endpoints x × (ejected x.0 ≡ false)
  unfolding at_cursor
  at_cursor_sound x h =
      let (e, p, h') = and_then-eq-some (get_elem? cluster.endpoints _) _ h in
      let (a, u, h'') = and_then-eq-some (untried parse tried e) _ h' in
      elim (Bool-cases (ejected (cursor % length cluster.endpoints))) [
        | inl out ↦ absurd (ground (arith, h'', out))
        | inr still ↦
            let same : (cursor % length cluster.endpoints, a) ≡ x = ground (arith, h'', still) in
            rw (← same) (record { endpoint = e; placed = p; addressed = u }, still)
      ]

  pick_none : cluster.endpoints ≡ [] → (pick ≡ err no_endpoints) × (left ≡ [])
  unfolding pick_endpoint left_from
  pick_none e = (rw e refl, rw e refl)

  pick-at_cursor :
      (e : Endpoint) (es : List Endpoint) (x : ℕ × SocketAddr)
      → cluster.endpoints ≡ e ∷ es
      → at_cursor parse cluster cursor tried ejected ≡ some x
      → pick ≡ ok x
  unfolding pick_endpoint
  pick-at_cursor e es x h k = rw k (rw h refl)

  pick-pool :
      (e : Endpoint) (es : List Endpoint)
      → cluster.endpoints ≡ e ∷ es
      → at_cursor parse cluster cursor tried ejected ≡ none
      → pick ≡ pick_from pool cursor
  unfolding pick_endpoint
  pick-pool e es h k =
      rw k (ap (λ b. if b then err no_endpoints else pick_from pool cursor) (ap is_empty h))

  pick_from_nothing :
      (xs : List (ℕ × SocketAddr)) → xs ≡ [] → pick_from xs cursor ≡ err no_endpoints
  pick_from_nothing xs e = rw e refl

  pick_endpoint-cases :
      (pick ≡ err no_endpoints) × (left ≡ [])
      ⊎ ((x : ℕ × SocketAddr) × (pick ≡ ok x)
          × ((at_cursor parse cluster cursor tried ejected ≡ some x) ⊎ In x pool))
  pick_endpoint-cases = elim (List-cases cluster.endpoints) [
    | inl e ↦ inl (pick_none e)
    | inr (e, es, h) ↦ elim (Option-cases (at_cursor parse cluster cursor tried ejected)) [
      | inr (x, k) ↦ inr (x, pick-at_cursor e es x h k, inl k)
      | inl k ↦ elim (List-cases pool) [
        | inl n ↦
            inl (pick-pool e es h k ∙ pick_from_nothing pool n, pool_of-eq-nil ejected _ left n)
        | inr (y, ys, n) ↦
            let (x, i, q) = pick_from-In y ys cursor in
            inr (x, pick-pool e es h k ∙ rw n q, inr (rw n i))
      ]
    ]
  ]

  left_complete : (z : ℕ × SocketAddr) → IsUntried parse tried cluster.endpoints z → In z left
  left_complete z u =
      subst (λ i. In (i, z.1) left) (omega arith)
        (left_from_complete parse tried 0 z.0 cluster.endpoints z.1 u)

  chosen_from_pool :
      (y : ℕ × SocketAddr)
      → In y pool
      → IsUntried parse tried cluster.endpoints y
        × ((ejected y.0 ≡ false)
            ⊎ (panics cluster ejected max_ejected_percent ≡ true)
            ⊎ ((z : ℕ × SocketAddr)
                → IsUntried parse tried cluster.endpoints z
                → ejected z.0 ≡ true))
  chosen_from_pool y i =
      let (j, why) = pool_of-In ejected (panics cluster ejected max_ejected_percent) left y i in
      let (k, q, u) = left_from_sound parse tried 0 cluster.endpoints y j in
      let here : k ≡ y.0 = omega (arith, q) in
      (
        rw here at u,
        elim (Bool-cases (ejected y.0)) [
          | inr still ↦ inl still
          | inl out ↦ elim (why out) [
            | inl p ↦ inr (inl p)
            | inr none_in ↦ inr (inr (λ z v. none_in z (left_complete z v)))
          ]
        ],
      )

  -- The endpoint that is picked is one of the cluster's, at its own address, which the request has
  -- not tried; and it is an ejected one only if ejection is ignored or every endpoint that is left
  -- is ejected.
  pub pick_endpoint-IsUntried :
      (x : ℕ × SocketAddr)
      → pick ≡ ok x
      → IsUntried parse tried cluster.endpoints x
        × ((ejected x.0 ≡ false)
            ⊎ (panics cluster ejected max_ejected_percent ≡ true)
            ⊎ ((y : ℕ × SocketAddr)
                → IsUntried parse tried cluster.endpoints y
                → ejected y.0 ≡ true))
  pick_endpoint-IsUntried x h = elim pick_endpoint-cases [
    | inl (e, n) ↦ absurd (ground (arith, h, e))
    | inr (y, e, found) ↦
        let same : y ≡ x = ground (arith, h, e) in
        elim found [
          | inl k ↦ let (u, q) = at_cursor_sound y k in rw (← same) (u, inl q)
          | inr i ↦ rw (← same) (chosen_from_pool y i)
        ]
  ]

  -- An endpoint is picked exactly if some endpoint of the cluster has an address that the request
  -- has not tried, whatever is ejected: ejection alone never fails a request.
  pub pick_endpoint-available :
      ((x : ℕ × SocketAddr) × (pick ≡ ok x))
      ↔ ((x : ℕ × SocketAddr) × IsUntried parse tried cluster.endpoints x)
  pick_endpoint-available = (
    λ (x, h). (x, (pick_endpoint-IsUntried x h).0),
    λ (x, u). elim pick_endpoint-cases [
      | inl (e, n) ↦ absurd (rw n at (left_complete x u))
      | inr (y, e, found) ↦ (y, e)
    ],
  )
