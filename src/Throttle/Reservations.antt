-- ===== src/Throttle/Reservations.antt =====
-- What the counter of a key holds, over every order in which attempts are let through and settled:
-- `reserve_at` and `settle_in` of crates/gapura-control/src/throttle.rs.
use gapura.Prelude.{ℕ, ◌+◌, ◌≡◌, Bool, Option, none, some, List, [], ◌∷◌, Result, if◌then◌else◌}
use gapura.ClientIp.{IpAddr}
use gapura.Throttle.{Outcome, Policy, Key, same_key, Counters, find_counter}
use gapura.Throttle.Attempts.{settle_in, Refused, reserve_at}
use gapura.Throttle.Settling.{uncovered}

module _ (policy : Policy) (capacity : ℕ) (k : Key) where
  -- The failures of the key that are counted without a reservation being given back for them.
  abbrev uncovered_at : Outcome → Key → Bool → Counters → ℕ
  uncovered_at outcome j given cs =
      if same_key j k then uncovered outcome given (find_counter j cs) else 0

  -- All of them, as the loop of `settle_in` goes on.
  abbrev pub uncovered_in : Outcome → ℕ → List (Key × Bool) → Counters → ℕ
  uncovered_in outcome now [] cs = 0
  uncovered_in outcome now ((j, given) ∷ keys) cs =
      uncovered_at outcome j given cs
      + elim (settle_in policy capacity outcome now ((j, given) ∷ []) cs) [
        | none ↦ 0
        | some mid ↦ uncovered_in outcome now keys mid
      ]

  -- The counters that operations lead to from none at all, in whatever order and at whatever times,
  -- and how many failures of the key were counted without a reservation given back for them.
  pub data History : ℕ → Counters → Type 0 where
    nothing_counted : History 0 []
    asked :
        {n : ℕ} {cs : Counters} (digest : Option ℕ) (addr : IpAddr) (now : ℕ)
        (r : Result Refused (List (Key × Bool)) × Counters)
        → History n cs
        → reserve_at policy capacity digest addr now cs ≡ some r
        → History n r.1
    settled :
        {n : ℕ} {cs : Counters} (outcome : Outcome) (now : ℕ) (keys : List (Key × Bool))
        (out : Counters)
        → History n cs
        → settle_in policy capacity outcome now keys cs ≡ some out
        → History (n + uncovered_in outcome now keys cs) out
