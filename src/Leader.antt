-- ===== src/Leader.antt =====
-- Leader election on a Lease: crates/gapura/src/source/kubernetes/leader.rs. The API server is an
-- argument: what the lookup of the Lease returned, and what it answers to a commit. Durations and
-- instants are in nanoseconds.
pub mod Exclusive
pub mod Loop
pub mod Tests
use gapura.Prelude.{
  ℕ, ◌+◌, ◌-◌, ◌*◌, ℤ, pos, negsuc, ◌+ℤ◌, leb_ℤ, Bool, true, false, ◌&&◌, not, Option, none, some,
  Text, text_eq, Result, err, ok, max, if◌then◌else◌,
}

-- `Timestamp`: its whole seconds since 1970, and the rest in nanoseconds.
pub record Timestamp : Type 0 where
  pub second : ℤ
  pub nanos : ℕ

-- Without the Lease's own name and namespace.
pub record LeaderOpts : Type 0 where
  pub identity : Text
  pub lease_secs : ℤ
  pub renew_every : ℕ

pub record LeaseSpec : Type 0 where
  pub holder_identity : Option Text
  pub renew_time : Option Timestamp
  pub lease_duration_seconds : Option ℤ
  pub acquire_time : Option Timestamp
  pub lease_transitions : Option ℤ

abbrev pub default_spec : LeaseSpec
default_spec = record {
  holder_identity = none;
  renew_time = none;
  lease_duration_seconds = none;
  acquire_time = none;
  lease_transitions = none;
}

-- A Lease without its metadata.
pub record Lease : Type 0 where
  pub spec : Option LeaseSpec

pub data Decision : Type 0 where
  acquire renew wait : Decision

abbrev pub held_by : Option Text → Text → Bool
held_by none identity = false
held_by (some holder) identity = text_eq holder identity

abbrev pub renewed : Option Timestamp → ℤ
renewed none = pos 0
renewed (some t) = t.second

abbrev pub or_zero : Option ℤ → ℤ
or_zero none = pos 0
or_zero (some n) = n

-- Whole seconds and 32 bits of duration do not overflow 64 bits.
unfoldable pub decide : Option LeaseSpec → Text → ℤ → Decision
decide none identity now_secs = acquire
decide (some spec) identity now_secs =
    if held_by spec.holder_identity identity
    then renew
    else if leb_ℤ (renewed spec.renew_time +ℤ or_zero spec.lease_duration_seconds) now_secs
    then acquire
    else wait

-- `publish`: whether the watchers are woken, and the value.
unfoldable pub publish : Bool → Bool → Bool × Bool
publish true true = (false, true)
publish true false = (true, false)
publish false true = (true, true)
publish false false = (false, false)

unfoldable pub step_budget : Option ℕ → Bool → ℕ → ℕ → ℕ
step_budget (some renewed_at) true now deadline = renewed_at + deadline - now
step_budget (some renewed_at) false now deadline = deadline
step_budget none leader now deadline = deadline

-- The decision on what `api.entry` returned.
abbrev pub decision_on : Option Lease → Text → ℤ → Decision
decision_on none identity now_secs = acquire
decision_on (some lease) identity now_secs = decide lease.spec identity now_secs

abbrev pub spec_of : Option Lease → LeaseSpec
spec_of none = default_spec
spec_of (some lease) = elim lease.spec [ none ↦ default_spec | some spec ↦ spec ]

-- `lease_transitions.unwrap_or(0) + 1` wraps where the source is built without overflow checks.
abbrev next_transitions : Option ℤ → ℤ
next_transitions o =
    if leb_ℤ (pos 2_147_483_647) (or_zero o) then negsuc 2_147_483_647 else or_zero o +ℤ pos 1

abbrev pub acquired : Decision → Timestamp → LeaseSpec → LeaseSpec
acquired acquire now spec = record spec {
  acquire_time = some now;
  lease_transitions = some (next_transitions spec.lease_transitions);
}
acquired renew now spec = spec
acquired wait now spec = spec

-- `or_insert(..).and_modify(..)`.
unfoldable pub modified : LeaderOpts → Timestamp → Decision → Option Lease → Lease
modified opts now decision entry = record {
  spec = some (record (acquired decision now (spec_of entry)) {
    holder_identity = some opts.identity;
    lease_duration_seconds = some opts.lease_secs;
    renew_time = some now;
  });
}

-- Why a commit failed; `conflict` is the answer 409.
pub data CommitError (E : Type 0) : Type 0 where
  conflict : CommitError E
  other_error : E → CommitError E

module _ {E : Type 0} where
  -- What comes after a commit.
  abbrev pub committed : Result (CommitError E) Unit → Result E Bool
  committed (ok u) = ok true
  committed (err conflict) = ok false
  committed (err (other_error e)) = err e

  -- The Lease that is sent to be stored, if one is, and the result.
  abbrev pub proceed :
      LeaderOpts
      → Timestamp
      → Decision
      → Option Lease
      → (Lease → Result (CommitError E) Unit)
      → Option Lease × Result E Bool
  proceed opts now acquire entry commit =
      (some (modified opts now acquire entry), committed (commit (modified opts now acquire entry)))
  proceed opts now renew entry commit =
      (some (modified opts now renew entry), committed (commit (modified opts now renew entry)))
  proceed opts now wait entry commit = (none, ok false)

  unfoldable pub step :
      LeaderOpts
      → Timestamp
      → Result E (Option Lease)
      → (Lease → Result (CommitError E) Unit)
      → Option Lease × Result E Bool
  step opts now (err e) commit = (none, err e)
  step opts now (ok entry) commit =
      proceed opts now (decision_on entry opts.identity now.second) entry commit

abbrev pub second_ns : ℕ
second_ns = 1_000_000_000

-- `u64::try_from(lease_secs).unwrap_or(15)`.
abbrev pub lease_seconds : ℤ → ℕ
lease_seconds (pos n) = n
lease_seconds (negsuc n) = 15

unfoldable pub deadline_of : LeaderOpts → ℕ
deadline_of opts = max (lease_seconds opts.lease_secs * second_ns - opts.renew_every) second_ns

-- What the loop of `run` keeps from one pass to the next.
pub record Standing : Type 0 where
  pub renewed_at : Option ℕ
  pub leadership : Bool

-- What a step came to within its budget.
pub data StepOutcome (E : Type 0) : Type 0 where
  ended : Result E Bool → StepOutcome E
  timed_out : StepOutcome E

abbrev pub leads : {E : Type 0} → StepOutcome E → Bool
leads (ended (ok leader)) = leader
leads (ended (err e)) = false
leads timed_out = false

-- One pass of the loop, after the step that started at `started`.
unfoldable pub pass : {E : Type 0} → ℕ → StepOutcome E → Standing → Standing
pass started outcome s = record {
  renewed_at = if leads outcome then some started else none;
  leadership = (publish s.leadership (leads outcome)).1;
}
