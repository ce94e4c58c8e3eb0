-- ===== src/Outlier/Registry.antt =====
-- The records of every endpoint's address: `Registry::sync` and `ejected_at` of
-- crates/gapura/src/proxy/outlier.rs. A shared record (an `Arc`) is its place in `heap`, so that
-- two clusters with one endpoint share its record. A map's entries stand in a list, in any order.
use gapura.Prelude.{
  ℕ, Bool, false, List, [], ◌∷◌, ◌++◌, Option, none, some, Text, any, filter_by, length, get_elem?,
  and_then, if◌then◌else◌,
}
use gapura.Config.{Endpoint, Cluster}
use gapura.Select.{SocketAddr, same_address, endpoint_addr}
use gapura.ClientIp.{IpAddr}
use gapura.Outlier.{Health, fresh, is_ejected}

pub record Registry : Type 0 where
  pub known : List (SocketAddr × ℕ)
  pub heap : List Health

-- `known.get(addr)`.
unfoldable pub known_at : SocketAddr → List (SocketAddr × ℕ) → Option ℕ
known_at a [] = none
known_at a ((b, h) ∷ known) =
    let rest = known_at a known in if same_address b a then some h else rest

-- `known.entry(a).or_default()`.
unfoldable pub handle_of : SocketAddr → Registry → ℕ × Registry
handle_of a r = elim (known_at a r.known) [
  | some h ↦ (h, r)
  | none ↦ (
    length r.heap,
    record { known = r.known ++ (a, length r.heap) ∷ []; heap = r.heap ++ fresh ∷ [] },
  )
]

module _ (parse : Text → Option IpAddr) where
  -- The addresses that an endpoint's `filter_map` yields.
  unfoldable pub addresses : List Endpoint → List SocketAddr
  addresses [] = []
  addresses (e ∷ es) = elim (endpoint_addr parse e) [
    | none ↦ addresses es
    | some a ↦ a ∷ addresses es
  ]

  unfoldable pub named : List (Text × Cluster) → List SocketAddr
  named [] = []
  named ((key, cluster) ∷ clusters) = addresses cluster.endpoints ++ named clusters

  unfoldable pub record_of : Endpoint → Registry → Option ℕ × Registry
  record_of e r = elim (endpoint_addr parse e) [
    | none ↦ (none, r)
    | some a ↦ let (h, r') = handle_of a r in (some h, r')
  ]

  unfoldable pub records_of : List Endpoint → Registry → List (Option ℕ) × Registry
  records_of [] r = ([], r)
  records_of (e ∷ es) r =
      let (o, r') = record_of e r in let (os, r'') = records_of es r' in (o ∷ os, r'')

  unfoldable pub out_of :
      List (Text × Cluster) → Registry → List (Text × List (Option ℕ)) × Registry
  out_of [] r = ([], r)
  out_of ((key, cluster) ∷ clusters) r =
      let (records, r') = records_of cluster.endpoints r in
      let (out, r'') = out_of clusters r' in ((key, records) ∷ out, r'')

  -- `known.retain(..)`.
  unfoldable pub retained : List (Text × Cluster) → Registry → Registry
  retained clusters r = record r {
    known = filter_by (λ k. any (λ a. same_address a k.0) (named clusters)) r.known;
  }

  unfoldable pub sync : List (Text × Cluster) → Registry → List (Text × List (Option ℕ)) × Registry
  sync clusters r = out_of clusters (retained clusters r)

unfoldable pub ejected_at : List Health → List (Option ℕ) → ℕ → ℕ → Bool
ejected_at heap records now_ms i =
    elim (and_then (get_elem? records i) (λ o. and_then o (λ h. get_elem? heap h))) [
      | none ↦ false
      | some h ↦ is_ejected h now_ms
    ]
