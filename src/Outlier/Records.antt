-- ===== src/Outlier/Records.antt =====
-- What every record of crates/gapura/src/proxy/outlier.rs satisfies, and what one outcome does.
use gapura.Prelude.{ℕ, ◌^◌, ◌<◌, ◌≡◌, ◌⊎◌, inl, refl, arith}
use gapura.Config.{OutlierDetection}
use gapura.Outlier.{
  Outcome, success, failure, Health, fresh, record_success, threshold, record_failure, observe,
}

-- The machine widths of a policy's numbers, and failures that count for something.
pub record IsPolicy (p : OutlierDetection) : Type 0 where
  pub counts : 0 < p.consecutive_failures
  pub failures_fit : p.consecutive_failures < 2 ^ 32
  pub successes_fit : p.successes_to_recover < 2 ^ 32

-- Short of the threshold; clean on probation; and successes are counted on probation alone.
pub record IsValid (p : OutlierDetection) (h : Health) : Type 0 where
  pub below : h.counts.failures < p.consecutive_failures
  pub probation : (h.counts.ejections ≡ 0) ⊎ (h.counts.failures ≡ 0)
  pub recovering : (h.counts.successes ≡ 0) ⊎ (0 < h.counts.ejections)
  pub unrecovered : (h.counts.successes ≡ 0) ⊎ (h.counts.successes < p.successes_to_recover)
  pub ejections_fit : h.counts.ejections < 2 ^ 32

pub fresh-IsValid : (p : OutlierDetection) → IsPolicy p → IsValid p fresh
fresh-IsValid p i = record {
  below = i.counts;
  probation = inl refl;
  recovering = inl refl;
  unrecovered = inl refl;
  ejections_fit = omega arith;
}

record_success-IsValid :
    (p : OutlierDetection) (h : Health)
    → IsPolicy p
    → IsValid p h
    → IsValid p (record h { counts = record_success p h.counts })
unfolding record_success
record_success-IsValid p h i v = record {
  below = ground arith;
  probation = ground arith;
  recovering = ground arith;
  unrecovered = ground arith;
  ejections_fit = ground arith;
}

record_failure-IsValid :
    (p : OutlierDetection) (now_ms : ℕ) (h : Health)
    → IsPolicy p
    → IsValid p h
    → IsValid p (record_failure p now_ms h).1
unfolding record_failure threshold
record_failure-IsValid p now_ms h i v = record {
  below = ground arith;
  probation = ground arith;
  recovering = ground arith;
  unrecovered = ground arith;
  ejections_fit = ground arith;
}

-- Every outcome, at every time, leaves a record that satisfies the invariant.
pub observe-IsValid :
    (o : Outcome) (now_ms : ℕ) (p : OutlierDetection) (h : Health)
    → IsPolicy p
    → IsValid p h
    → IsValid p (observe o now_ms p h).1
unfolding observe
observe-IsValid success now_ms p h i v = ground (arith, record_success-IsValid p h i v)
observe-IsValid failure now_ms p h i v = ground (arith, record_failure-IsValid p now_ms h i v)
