-- ===== src/Throttle/Attempts.antt =====
-- Letting an attempt through and settling it: `counter`, `reserve_at` and `settle_in` of
-- crates/gapura-control/src/throttle.rs.
use gapura.Prelude.{
  ◌+◌, ◌-◌, ◌/◌, ◌^◌, ltb, codes, decimal, ℕ, suc, Bool, true, false, not, ◌&&◌, Option, none, some,
  List, [], ◌∷◌, ◌++◌, leb, ◌==◌, if◌then◌else◌, max, length, and_then, Result, ok, err, Text,
}
use gapura.ClientIp.{IpAddr, v4, Cidr, or_address, client_ip}
use gapura.RateLimit.{grouped}
use gapura.Throttle.{
  sign_in, sign_up, address_rule, Rule, Outcome, failed, succeeded, refunded, Policy, Key, by_pair,
  by_address, is_pair, rule_of, Counter, fresh, expired, wait, restarted, reserved_in, given_back,
  failed_in, cleared, Counters, find_counter, set_counter, remove_counter, change,
}

-- `retain(|k, c| !c.expired(policy.rule(k), now))`.
unfoldable pub retain_live : Policy → ℕ → Counters → Option Counters
retain_live policy now [] = some []
retain_live policy now ((k, c) ∷ cs) =
    let rest = retain_live policy now cs in
    and_then (rule_of policy k)
      (λ rule. and_then rest (λ cs'. some (if expired rule now c then cs' else (k, c) ∷ cs')))

abbrev pub is_there : Key → Counters → Bool
is_there k cs = elim (find_counter k cs) [ none ↦ false | some c ↦ true ]

-- Whether there is room for the key, and the counters that are left.
unfoldable pub make_room : Policy → ℕ → Key → ℕ → Counters → Option (Bool × Counters)
make_room policy capacity key now cs =
    if not (is_there key cs) && leb capacity (length cs)
    then and_then (retain_live policy now cs)
        (λ kept. some (not (leb capacity (length kept)), kept))
    else some (true, cs)

abbrev pub found_or_fresh : Key → ℕ → Counters → Counter
found_or_fresh k now cs = elim (find_counter k cs) [ none ↦ fresh now | some c ↦ c ]

-- `counter`: the entry to count in, which is in the counters that come with it.
unfoldable pub counter : Policy → ℕ → Key → ℕ → Counters → Option (Option Counter × Counters)
counter policy capacity key now cs = and_then (make_room policy capacity key now cs) (λ room.
    if room.0
    then and_then (rule_of policy key) (λ rule.
      let c = restarted rule now (found_or_fresh key now room.1) in
      some (some c, set_counter key c room.1))
    else some (none, room.1))

-- The removal of an entry that holds nothing.
abbrev pub holds_nothing : Counter → Bool
holds_nothing c =
    c.pending == 0 && (c.failures == 0 && elim c.locked_until [ none ↦ true | some until ↦ false ])

unfoldable pub tidied : Key → Counters → Counters
tidied k cs = elim (find_counter k cs) [
  | none ↦ cs
  | some c ↦ if holds_nothing c then remove_counter k cs else cs
]

-- What the outcome does to the key's entry.
unfoldable pub settle_outcome : Policy → ℕ → Outcome → Rule → Key → ℕ → Counters → Option Counters
settle_outcome policy capacity failed rule key now cs =
    and_then (counter policy capacity key now cs)
      (λ x. some (elim x.0 [ none ↦ x.1 | some c ↦ set_counter key (failed_in rule now c) x.1 ]))
settle_outcome policy capacity succeeded rule key now cs =
    some (if is_pair key then change key cleared cs else cs)
settle_outcome policy capacity refunded rule key now cs = some cs

-- The loop of `settle_in`.
unfoldable pub settle_in : Policy → ℕ → Outcome → ℕ → List (Key × Bool) → Counters → Option Counters
settle_in policy capacity outcome now [] cs = some cs
settle_in policy capacity outcome now ((key, reserved) ∷ keys) cs =
    and_then (rule_of policy key) (λ rule.
      and_then
        (settle_outcome policy capacity outcome rule key now
          (if reserved then change key given_back cs else cs))
        (λ cs'. settle_in policy capacity outcome now keys (tidied key cs')))

pub data Refused : Type 0 where
  wait_for : ℕ → Refused
  full : Refused

-- The waits of the keys that must, and the longest of them.
unfoldable pub waits : Policy → ℕ → Counters → List Key → Option (List ℕ)
waits policy now cs [] = some []
waits policy now cs (k ∷ ks) =
    let rest = waits policy now cs ks in
    elim (find_counter k cs) [
      | none ↦ rest
      | some c ↦ and_then (rule_of policy k) (λ rule.
          and_then rest (λ ws. some (elim (wait rule now c) [ none ↦ ws | some w ↦ w ∷ ws ])))
    ]

unfoldable pub longest : List ℕ → Option ℕ
longest [] = none
longest (w ∷ ws) = let rest = longest ws in elim rest [ none ↦ some w | some v ↦ some (max w v) ]

-- The keys an attempt is counted against.
unfoldable pub address_keys : IpAddr → ℕ → List Rule → List Key
address_keys addr i [] = []
address_keys addr i (rule ∷ rules) = by_address addr i ∷ address_keys addr (suc i) rules

unfoldable pub keys_of : Policy → Option ℕ → IpAddr → List Key
keys_of policy digest addr =
    let windows = address_keys addr 0 policy.address in
    elim digest [
      | none ↦ windows
      | some d ↦ elim policy.pair [ none ↦ windows | some rule ↦ by_pair d addr ∷ windows ]
    ]

-- The loop that reserves; what was reserved so far comes first.
unfoldable pub reserve_keys :
    Policy
    → ℕ
    → ℕ
    → List Key
    → List (Key × Bool)
    → Counters
    → Option (Result Refused (List (Key × Bool)) × Counters)
reserve_keys policy capacity now [] reserved cs = some (ok reserved, cs)
reserve_keys policy capacity now (key ∷ keys) reserved cs =
    and_then (counter policy capacity key now cs) (λ x. elim x.0 [
      | some c ↦
          reserve_keys policy capacity now keys (reserved ++ (key, true) ∷ [])
            (set_counter key (reserved_in c) x.1)
      | none ↦
          if policy.fail_closed
          then and_then (settle_in policy capacity refunded now reserved x.1)
              (λ cs'. some (err full, cs'))
          else reserve_keys policy capacity now keys (reserved ++ (key, false) ∷ []) x.1
    ])

-- An address is counted by its bucket, which is `grouped` of the request limits.
unfoldable pub reserve_at :
    Policy
    → ℕ
    → Option ℕ
    → IpAddr
    → ℕ
    → Counters
    → Option (Result Refused (List (Key × Bool)) × Counters)
reserve_at policy capacity digest addr now cs =
    let keys = keys_of policy digest (grouped addr) in
    and_then (waits policy now cs keys) (λ ws. elim (longest ws) [
      | some w ↦ some (err (wait_for w), cs)
      | none ↦ reserve_keys policy capacity now keys [] cs
    ])

-- What a refused sign-in is told to wait.
abbrev pub wait_of : Refused → ℕ
wait_of (wait_for w) = w
wait_of full = address_rule.lock

-- `Throttle::begin_at`, of the sign-in limits.
unfoldable pub begin_at :
    ℕ → Option ℕ → IpAddr → ℕ → Counters → Option (Result ℕ (List (Key × Bool)) × Counters)
begin_at capacity digest addr now cs =
    and_then (reserve_at sign_in capacity digest addr now cs) (λ x.
      some (elim x.0 [ ok keys ↦ (ok keys, x.1) | err refused ↦ (err (wait_of refused), x.1) ]))

-- `SignUps::begin_at`.
unfoldable pub sign_up_begin_at :
    ℕ → IpAddr → ℕ → Counters → Option (Result Refused (List (Key × Bool)) × Counters)
sign_up_begin_at capacity addr now cs = reserve_at sign_up capacity none (grouped addr) now cs

-- `Drop` of an attempt that was not settled.
unfoldable pub drop_attempt : Policy → ℕ → ℕ → List (Key × Bool) → Counters → Option Counters
drop_attempt policy capacity now keys cs = settle_in policy capacity policy.on_drop now keys cs

-- `Throttle::client`.
unfoldable pub throttled_client :
    (Text → Option IpAddr) → List Cidr → Option IpAddr → Option Text → IpAddr
throttled_client parse trusted peer forwarded_for =
    client_ip parse (or_address peer (v4 0)) forwarded_for trusted none

abbrev pub div_ceil : ℕ → ℕ → ℕ
div_ceil n d = (n + (d - 1)) / d

unfoldable pub try_again_in : ℕ → Text
try_again_in left =
    let minutes = max (div_ceil (left / 10 ^ 9) 60) 1 in
    codes "Try again in "
    ++ (if ltb 120 minutes
        then decimal (div_ceil minutes 60) ++ codes " hours"
        else if minutes == 1
        then codes "1 minute"
        else decimal minutes ++ codes " minutes")
    ++ codes "."

unfoldable pub wait_message : ℕ → Text
wait_message left = codes "Too many failed attempts. " ++ try_again_in left

unfoldable pub sign_up_wait_message : ℕ → Text
sign_up_wait_message left = codes "Too many sign-ups from this address. " ++ try_again_in left
