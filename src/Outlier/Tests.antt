-- ===== src/Outlier/Tests.antt =====
-- Runs of the code of crates/gapura/src/proxy/outlier.rs under its default policy.
use gapura.Prelude.{◌≡◌, refl, ◌+◌, ◌≤◌, ◌<◌, ℕ, false, some, none, [], ◌∷◌, min, arith}
use gapura.Config.{OutlierDetection}
use gapura.Outlier.{
  Outcome, failure, Health, fresh, u64_max, is_ejected, record_success, threshold, ejection_ms,
  record_failure, observe,
}
use gapura.Outlier.Records.{IsPolicy}
use gapura.Outlier.Runs.{observe_all, probation, observe_ejection}
use gapura.Prelude.{List, Option, Text, codes, parse_unsigned, digits_value, and_then, true, ◌^◌}
use gapura.ClientIp.{IpAddr, v4}
use gapura.Config.{Endpoint, Cluster}
use gapura.Select.{same_address, endpoint_addr}
use gapura.Outlier.Registry.{
  Registry, known_at, handle_of, addresses, named, record_of, records_of, out_of, retained, sync,
  ejected_at,
}
use gapura.Outlier.Shared.{IsSynced, sync-IsSynced}

program : Unit {0}
unfolding is_ejected record_success threshold ejection_ms record_failure observe observe_all
    known_at handle_of addresses named record_of records_of out_of retained sync ejected_at
    same_address endpoint_addr parse_unsigned digits_value
program = tt

abbrev default_policy : OutlierDetection
default_policy = record {
  consecutive_failures = 5;
  successes_to_recover = 5;
  base_ejection_ms = 30_000;
  max_ejection_ms = 300_000;
  max_ejected_percent = 50;
}

default_policy-IsPolicy : IsPolicy default_policy
default_policy-IsPolicy = omega arith

-- The twelfth time out is held to the maximum.
capped : (observe failure 7 default_policy (probation 0 11 5)).0 ≡ some 300_000
unfolding program
capped = refl

abbrev ejected_again : Health
ejected_again = record {
  counts = record { failures = 0; successes = 0; ejections = 3 };
  ejected_until = 90_007;
}

observe_ejection_example :
    (failure ≡ failure)
    × (is_ejected (probation 2 2 5) 7 ≡ false)
    × (90_000 ≡ ejection_ms default_policy ejected_again.counts.ejections)
    × (90_000 ≤ default_policy.max_ejection_ms)
    × (ejected_again.ejected_until ≡ min (7 + 90_000) u64_max)
    × ((o' : Outcome) (t : ℕ)
        → t < ejected_again.ejected_until
        → observe o' t default_policy ejected_again ≡ (none, ejected_again))
unfolding program
observe_ejection_example =
    observe_ejection failure 7 90_000 default_policy (probation 2 2 5) ejected_again refl

-- Ports in text for addresses.
abbrev numbered : Text → Option IpAddr
numbered s = and_then (parse_unsigned (2 ^ 32) s) (λ n. some (v4 n))

abbrev at : Text → Endpoint
at address = record { address = address; port = 80 }

abbrev cluster : List Endpoint → Cluster
cluster endpoints = record { endpoints = endpoints; tls = none; resolve = none; outlier = none }

abbrev two_clusters : List (Text × Cluster)
two_clusters =
    (codes "a", cluster (at (codes "7") ∷ at (codes "host") ∷ []))
    ∷ (codes "b", cluster (at (codes "9") ∷ at (codes "7") ∷ []))
    ∷ []

abbrev before_sync : Registry
before_sync = record {
  known = (record { ip = v4 8; port = 80 }, 0) ∷ (record { ip = v4 9; port = 80 }, 1) ∷ [];
  heap = fresh ∷ ejected_again ∷ [];
}

shared_records :
    (sync numbered two_clusters before_sync).0
    ≡ (codes "a", some 2 ∷ none ∷ []) ∷ (codes "b", some 1 ∷ some 2 ∷ []) ∷ []
unfolding program
shared_records = refl

still_ejected :
    ejected_at (sync numbered two_clusters before_sync).1.heap (some 1 ∷ some 2 ∷ []) 8 0 ≡ true
unfolding program
still_ejected = refl

sync-IsSynced_example :
    IsSynced numbered two_clusters before_sync
      (sync numbered two_clusters before_sync).0
      (sync numbered two_clusters before_sync).1
sync-IsSynced_example = sync-IsSynced numbered two_clusters before_sync
