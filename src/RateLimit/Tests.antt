-- ===== src/RateLimit/Tests.antt =====
-- A limit of two requests a second at concrete times, for
-- crates/gapura/src/proxy/rate_limit.rs.
use gapura.Prelude.{
  ℕ, ◌+◌, ◌≤◌, ◌≡◌, refl, some, none, List, [], ◌∷◌, Text, codes, text_eq, to_lower, min, arith,
}
use gapura.ClientIp.{IpAddr, v4, to_canonical, to_ipv4_mapped}
use gapura.Config.{ip, header, RateLimit}
use gapura.RateLimit.{
  allowed, limited, by_ip, by_header, Table, new_table, named_by_header, named_client, client,
  held_in, add_header_window, count_headers, same_key, find_window, set_window, sweep,
  sweep_if_full, sweep_if_capped, open_header, admit, grouped, counted_client, window_end, current,
  count_in, count_as, check_at,
}
use gapura.RateLimit.Windows.{count_at}
use gapura.RateLimit.Runs.{Check, step, tally, check_at-limit}
use gapura.RateLimit.Headers.{IsValid, new_table-IsValid}
use gapura.RateLimit.Counts.{check_at-IsValid}

program : Unit {0}
unfolding text_eq to_lower to_canonical to_ipv4_mapped named_by_header named_client client held_in
    add_header_window count_headers same_key find_window set_window sweep sweep_if_full
    sweep_if_capped open_header admit grouped counted_client window_end current count_in count_as
    check_at tally
program = tt

abbrev two_a_second : RateLimit
two_a_second = record { limit = 2; window_ms = 1000; by = ip }

abbrev caller : IpAddr
caller = v4 0xc6336401

abbrev other : IpAddr
other = v4 0xc6336402

abbrev request : IpAddr → ℕ → Check
request a now_ms = record {
  name = codes "r";
  who = by_ip a;
  addr = some a;
  rl = two_a_second;
  now_ms = now_ms;
}

abbrev after_two : Table
after_two = (step (request caller 5300) (step (request caller 5100) new_table).1).1

third_is_limited : (step (request caller 5400) after_two).0 ≡ limited 2 1
unfolding program
third_is_limited = refl

other_is_allowed : (step (request other 5400) after_two).0 ≡ allowed
unfolding program
other_is_allowed = refl

next_window : (step (request caller 6000) after_two).0 ≡ allowed
unfolding program
next_window = refl

abbrev run : List Check
run = request caller 5100 ∷ request other 5200 ∷ request caller 5300 ∷ request caller 5999 ∷ []

run_lets_two_through : tally (codes "r", by_ip caller) run new_table ≡ 2
unfolding program
run_lets_two_through = refl

check_at-limit_example :
    tally (codes "r", by_ip caller) run new_table
      + min (count_at (codes "r", by_ip caller) 6000 new_table) 2
    ≤ 2
unfolding program
check_at-limit_example =
    check_at-limit (codes "r", by_ip caller) 6000 2 run new_table
      (
        (omega arith, λ e. (refl, refl)),
        (
          (omega arith, λ e. (refl, refl)),
          ((omega arith, λ e. (refl, refl)), ((omega arith, λ e. (refl, refl)), tt)),
        ),
      )

check_at-IsValid_example :
    IsValid (check_at (codes "r") (by_header 7) (some caller) two_a_second 5100 new_table).1
check_at-IsValid_example =
    check_at-IsValid (codes "r") (by_header 7) (some caller) two_a_second 5100 new_table
      new_table-IsValid

-- A stand-in for a digest.
abbrev first_byte : Text → ℕ
first_byte [] = 0
first_byte (c ∷ s) = c

abbrev tenant : List (Text × Text)
tenant = (codes "X-Tenant", codes "acme") ∷ []

by_tenant :
    client first_byte (header (codes "x-tenant")) (some caller) none tenant ≡ some (by_header 97)
unfolding program
by_tenant = refl
