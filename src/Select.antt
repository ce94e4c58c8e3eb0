-- ===== src/Select.antt =====
-- The decisions after a rule matched: crates/gapura/src/proxy/select.rs. The standard library's
-- parser of addresses is a parameter, a resolved address is compared by `same_address`, and the
-- random roll is an argument.
pub mod Weights
pub mod Pool
pub mod Endpoints
pub mod Tests
pub use gapura.Prelude.{Result, ok, err}
use gapura.Prelude.{
  ℕ, zero, suc, ◌+◌, ◌-◌, ◌*◌, ◌/◌, ◌%◌, Bool, true, false, not, ◌&&◌, ◌||◌, Option, none, some,
  List, [], ◌∷◌, ◌++◌, ltb, leb, ◌==◌, if◌then◌else◌, min, any, filter_by, length, get_elem?, drop,
  Text, codes, text_eq, and_then,
}
use gapura.ClientIp.{IpAddr, same_ip}
use gapura.Config.{
  WeightedBackend, Endpoint, Cluster, PathRewrite, replace_full_path, replace_prefix_match,
  PathMatch, exact, prefix, regex, Redirect,
}

pub data Local : Type 0 where
  no_backend no_endpoints : Local

-- `sum()` of `u64`s: what it adds up is below `2 ^ 32` each, so no list in memory overflows it.
unfoldable pub total_weight : List WeightedBackend → ℕ
total_weight [] = 0
total_weight (b ∷ bs) = b.weight + total_weight bs

abbrev pub cluster_of : WeightedBackend → Result Local Text
cluster_of b = elim b.cluster [ some c ↦ ok c | none ↦ err no_backend ]

-- The loop, with what is left of the roll.
unfoldable pub pick_at : List WeightedBackend → ℕ → Result Local Text
pick_at [] r = err no_backend
pick_at (b ∷ bs) r =
    let rest = pick_at bs (r - b.weight) in if ltb r b.weight then cluster_of b else rest

unfoldable pub pick_backend : List WeightedBackend → (ℕ → ℕ) → Result Local Text
pick_backend backends roll =
    let total = total_weight backends in
    if total == 0 then err no_backend else pick_at backends (min (roll total) (total - 1))

-- `SocketAddr`.
pub record SocketAddr : Type 0 where
  pub ip : IpAddr
  pub port : ℕ

unfoldable pub same_address : SocketAddr → SocketAddr → Bool
same_address a b = same_ip a.ip b.ip && a.port == b.port

module _ (parse : Text → Option IpAddr) where
  unfoldable pub endpoint_addr : Endpoint → Option SocketAddr
  endpoint_addr e = and_then (parse e.address) (λ ip. some (record { ip = ip; port = e.port }))

  -- `untried`, of an endpoint in range.
  unfoldable pub untried : List SocketAddr → Endpoint → Option SocketAddr
  untried tried e =
      and_then (endpoint_addr e) (λ a. if any (λ t. same_address t a) tried then none else some a)

  -- `(i..n).filter_map(..)`, of the endpoints from the `i`-th on.
  unfoldable pub left_from : List SocketAddr → ℕ → List Endpoint → List (ℕ × SocketAddr)
  left_from tried i [] = []
  left_from tried i (e ∷ es) =
      let rest = left_from tried (suc i) es in
      elim (untried tried e) [ none ↦ rest | some a ↦ (i, a) ∷ rest ]

-- `(i..i + n).filter(ejected).count()`.
unfoldable pub ejected_count : (ℕ → Bool) → ℕ → ℕ → ℕ
ejected_count ejected i zero = 0
ejected_count ejected i (suc n) =
    let rest = ejected_count ejected (suc i) n in if ejected i then suc rest else rest

abbrev pub is_empty {ℓ} : {A : Type ℓ} → List A → Bool
is_empty [] = true
is_empty (x ∷ xs) = false

unfoldable pub panics : Cluster → (ℕ → Bool) → ℕ → Bool
panics cluster ejected max_ejected_percent =
    let n = length cluster.endpoints in
    ltb (n * max_ejected_percent) (ejected_count ejected 0 n * 100)

-- What the cursor chooses from once the endpoint it points at is not taken.
abbrev pub pool_of : (ℕ → Bool) → Bool → List (ℕ × SocketAddr) → List (ℕ × SocketAddr)
pool_of ejected panic left =
    let healthy = filter_by (λ (x : ℕ × SocketAddr). panic || not (ejected x.0)) left in
    if is_empty healthy then left else healthy

-- `pool[cursor % pool.len()]`, and the error of an empty pool.
abbrev pub pick_from : List (ℕ × SocketAddr) → ℕ → Result Local (ℕ × SocketAddr)
pick_from pool cursor = elim (get_elem? pool (cursor % length pool)) [
  | some x ↦ ok x
  | none ↦ err no_endpoints
]

-- The endpoint at the cursor, if it is untried and in.
unfoldable pub at_cursor :
    (Text → Option IpAddr) → Cluster → ℕ → List SocketAddr → (ℕ → Bool) → Option (ℕ × SocketAddr)
at_cursor parse cluster cursor tried ejected =
    let start = cursor % length cluster.endpoints in
    and_then (get_elem? cluster.endpoints start)
      (λ e. and_then (untried parse tried e) (λ a. if ejected start then none else some (start, a)))

unfoldable pub pick_endpoint :
    (Text → Option IpAddr)
    → Cluster
    → ℕ
    → List SocketAddr
    → (ℕ → Bool)
    → ℕ
    → Result Local (ℕ × SocketAddr)
pick_endpoint parse cluster cursor tried ejected max_ejected_percent =
    if is_empty cluster.endpoints
    then err no_endpoints
    else elim (at_cursor parse cluster cursor tried ejected) [
      | some x ↦ ok x
      | none ↦
          pick_from
            (pool_of ejected (panics cluster ejected max_ejected_percent)
              (left_from parse tried 0 cluster.endpoints))
            cursor
    ]
