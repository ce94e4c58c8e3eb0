-- ===== src/Outlier.antt =====
-- Passive outlier detection: crates/gapura/src/proxy/outlier.rs. A record's lock makes each
-- operation one step on the record; the clock's reading is an argument.
pub mod Records
pub mod Runs
pub mod Registry
pub mod Syncing
pub mod Shared
pub mod Tests
use gapura.Prelude.{
  ℕ, ◌+◌, ◌-◌, ◌*◌, ◌%◌, ◌^◌, ◌<◌, ◌≤◌, Bool, true, false, Option, none, some, if◌then◌else◌, ltb,
  leb, ◌==◌, min,
}
use gapura.Config.{OutlierDetection}

pub data Outcome : Type 0 where
  success failure : Outcome

pub record Counts : Type 0 where
  pub failures : ℕ
  pub successes : ℕ
  pub ejections : ℕ

abbrev pub no_counts : Counts
no_counts = record { failures = 0; successes = 0; ejections = 0 }

pub record Health : Type 0 where
  pub counts : Counts
  pub ejected_until : ℕ

abbrev pub fresh : Health
fresh = record { counts = no_counts; ejected_until = 0 }

abbrev pub u32_max : ℕ
u32_max = 2 ^ 32 - 1

abbrev pub u64_max : ℕ
u64_max = 2 ^ 64 - 1

unfoldable pub is_ejected : Health → ℕ → Bool
is_ejected h now_ms = ltb now_ms h.ejected_until

-- `c.successes += 1` wraps where the source is built without overflow checks.
unfoldable pub record_success : OutlierDetection → Counts → Counts
record_success p c =
    let successes = (c.successes + 1) % 2 ^ 32 in
    if ltb 0 c.ejections
    then (if leb p.successes_to_recover successes
        then no_counts
        else record c { failures = 0; successes = successes })
    else record c { failures = 0 }

unfoldable pub threshold : OutlierDetection → Counts → ℕ
threshold p c = if ltb 0 c.ejections then 1 else p.consecutive_failures

-- How long the `ejections`-th time out is.
unfoldable pub ejection_ms : OutlierDetection → ℕ → ℕ
ejection_ms p ejections = min (min (p.base_ejection_ms * ejections) u64_max) p.max_ejection_ms

unfoldable pub record_failure : OutlierDetection → ℕ → Health → Option ℕ × Health
record_failure p now_ms h =
    let failures = min (h.counts.failures + 1) u32_max in
    let ejections = min (h.counts.ejections + 1) u32_max in
    let ms = ejection_ms p ejections in
    if ltb failures (threshold p h.counts)
    then (none, record h { counts = record h.counts { failures = failures; successes = 0 } })
    else (
      some ms,
      record {
        counts = record { failures = 0; successes = 0; ejections = ejections };
        ejected_until = min (now_ms + ms) u64_max;
      },
    )

abbrev outcome_of : Outcome → OutlierDetection → ℕ → Health → Option ℕ × Health
outcome_of success p now_ms h = (none, record h { counts = record_success p h.counts })
outcome_of failure p now_ms h = record_failure p now_ms h

-- `Health::record`: how long the endpoint is out if this outcome ejected it, and the new record.
unfoldable pub observe : Outcome → ℕ → OutlierDetection → Health → Option ℕ × Health
observe outcome now_ms p h =
    if p.consecutive_failures == 0
    then (none, h)
    else if is_ejected h now_ms
    then (none, h)
    else outcome_of outcome p now_ms h
