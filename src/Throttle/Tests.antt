-- ===== src/Throttle/Tests.antt =====
-- Sign-ins and sign-ups of one address, for crates/gapura-control/src/throttle.rs.
use gapura.Prelude.{
  codes, decimal_on, ℕ, zero, suc, ◌≡◌, refl, Bool, some, none, Option, List, [], ◌∷◌, true,
  and_then, Result, ok, err,
}
use gapura.ClientIp.{IpAddr, v4, to_canonical}
use gapura.RateLimit.{grouped}
use gapura.Throttle.{
  secs, sign_in, sign_up, Outcome, failed, succeeded, Policy, Key, by_pair, by_address, rule_of,
  Counter, locked, lapsed, expired, wait, restarted, reserved_in, given_back, failed_in, cleared,
  Counters, find_counter, set_counter, remove_counter,
}
use gapura.Throttle.Attempts.{
  retain_live, make_room, counter, tidied, settle_outcome, settle_in, Refused, wait_for, full,
  waits, longest, address_keys, keys_of, reserve_keys, reserve_at, try_again_in, wait_message,
}

program : Unit {0}
unfolding to_canonical grouped rule_of locked lapsed expired wait restarted reserved_in given_back
    failed_in cleared find_counter set_counter remove_counter retain_live make_room counter tidied
    settle_outcome settle_in waits longest address_keys keys_of reserve_keys reserve_at
program = tt

abbrev caller : IpAddr
caller = v4 0xc6336401

-- An attempt that is let through and settled at once.
abbrev attempt : Policy → ℕ → Outcome → ℕ → Counters → Option Counters
attempt policy capacity outcome now cs =
    and_then (reserve_at policy capacity (some 7) caller now cs) (λ x. elim x.0 [
      | ok keys ↦ settle_in policy capacity outcome now keys x.1
      | err refused ↦ none
    ])

abbrev attempts : ℕ → Outcome → Option Counters
attempts zero outcome = some []
attempts (suc n) outcome = and_then (attempts n outcome) (attempt sign_in 100 outcome (secs 1))

abbrev sixth : Outcome → Option (Result Refused (List (Key × Bool)))
sixth outcome =
    and_then (attempts 5 outcome)
      (λ cs. and_then (reserve_at sign_in 100 (some 7) caller (secs 2) cs) (λ x. some x.0))

locked_after_five : sixth failed ≡ some (err (wait_for (secs 899)))
unfolding program
locked_after_five = refl

successes_leave_nothing : attempts 5 succeeded ≡ some []
unfolding program
successes_leave_nothing = refl

-- With room for one counter, a sign-up that needs two gives the first one back.
sign_up_full : reserve_at sign_up 1 none caller 0 [] ≡ some (err full, [])
unfolding program
sign_up_full = refl

message : wait_message (secs 899) ≡ codes "Too many failed attempts. Try again in 15 minutes."
unfolding wait_message try_again_in decimal_on
message = refl

day_message : try_again_in (secs 86400) ≡ codes "Try again in 24 hours."
unfolding try_again_in decimal_on
day_message = refl

abbrev since_then : ℕ → ℕ → Counter
since_then failures pending = record {
  failures = failures;
  pending = pending;
  since = secs 1;
  locked_until = none;
}

abbrev both : Counter → Counters
both c = (by_pair 7 caller, c) ∷ (by_address caller 0, c) ∷ []

abbrev keys : List (Key × Bool)
keys = (by_pair 7 caller, true) ∷ (by_address caller 0, true) ∷ []
