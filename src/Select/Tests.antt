-- ===== src/Select/Tests.antt =====
-- A cluster of three endpoints, and backends by weight, for crates/gapura/src/proxy/select.rs.
use gapura.Prelude.{
  ℕ, ◌≡◌, ◌⊎◌, ◌↔◌, refl, true, false, Bool, if◌then◌else◌, ◌==◌, some, none, Option, List, [], ◌∷◌,
  Text, codes, text_eq,
}
use gapura.ClientIp.{IpAddr, v4}
use gapura.Config.{WeightedBackend, Cluster}
use gapura.Select.{
  ok, err, no_backend, no_endpoints, SocketAddr, total_weight, pick_at, pick_backend, same_address,
  endpoint_addr, untried, left_from, ejected_count, panics, at_cursor, pick_endpoint,
}
use gapura.Select.Pool.{IsUntried}
use gapura.Select.Endpoints.{pick_endpoint-IsUntried, pick_endpoint-available}

program : Unit {0}
unfolding total_weight pick_at pick_backend same_address endpoint_addr untried left_from
    ejected_count panics at_cursor pick_endpoint text_eq
program = tt

abbrev backend : Option Text → ℕ → WeightedBackend
backend cluster weight = record { cluster = cluster; weight = weight }

abbrev a_backend : WeightedBackend
a_backend = backend (some (codes "a")) 3

abbrev b_backend : WeightedBackend
b_backend = backend (some (codes "b")) 1

abbrev backends : List WeightedBackend
backends = a_backend ∷ b_backend ∷ backend none 1 ∷ []

last_of_a : pick_backend backends (λ total. 2) ≡ ok (codes "a")
unfolding program
last_of_a = refl

invalid_share : pick_backend backends (λ total. 4) ≡ err no_backend
unfolding program
invalid_share = refl

out_of_range : pick_backend backends (λ total. 9) ≡ err no_backend
unfolding program
out_of_range = refl

-- A parser of two addresses.
abbrev parse : Text → Option IpAddr
parse text =
    if text_eq text (codes "10.0.0.1")
    then some (v4 0x0a000001)
    else if text_eq text (codes "10.0.0.2")
    then some (v4 0x0a000002)
    else none

abbrev cluster : Cluster
cluster = record {
  endpoints =
      record { address = codes "10.0.0.1"; port = 80 }
      ∷ record { address = codes "ten"; port = 80 }
      ∷ record { address = codes "10.0.0.2"; port = 80 }
      ∷ [];
  tls = none;
  resolve = none;
  outlier = none;
}

abbrev one : SocketAddr
one = record { ip = v4 0x0a000001; port = 80 }

abbrev two : SocketAddr
two = record { ip = v4 0x0a000002; port = 80 }

abbrev first_out : ℕ → Bool
first_out i = i == 0

rotates : pick_endpoint parse cluster 5 [] (λ i. false) 50 ≡ ok (2, two)
unfolding program
rotates = refl

skips_ejected : pick_endpoint parse cluster 0 [] first_out 50 ≡ ok (2, two)
unfolding program
skips_ejected = refl

last_resort : pick_endpoint parse cluster 1 (two ∷ []) first_out 50 ≡ ok (0, one)
unfolding program
last_resort = refl

nothing_left : pick_endpoint parse cluster 0 (one ∷ two ∷ []) first_out 50 ≡ err no_endpoints
unfolding program
nothing_left = refl

pick_endpoint-IsUntried_example :
    IsUntried parse [] cluster.endpoints (2, two)
    × ((first_out 2 ≡ false)
        ⊎ (panics cluster first_out 50 ≡ true)
        ⊎ ((y : ℕ × SocketAddr) → IsUntried parse [] cluster.endpoints y → first_out y.0 ≡ true))
unfolding program
pick_endpoint-IsUntried_example =
    pick_endpoint-IsUntried parse cluster 0 [] first_out 50 (2, two) refl

pick_endpoint-available_example :
    ((x : ℕ × SocketAddr) × (pick_endpoint parse cluster 0 (one ∷ []) first_out 50 ≡ ok x))
    ↔ ((x : ℕ × SocketAddr) × IsUntried parse (one ∷ []) cluster.endpoints x)
pick_endpoint-available_example = pick_endpoint-available parse cluster 0 (one ∷ []) first_out 50
