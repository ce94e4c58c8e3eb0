-- ===== src/Outlier/Runs.antt =====
-- What runs of outcomes do to a record of crates/gapura/src/proxy/outlier.rs.
use gapura.Prelude.{
  ℕ, ◌+◌, ◌<◌, ◌≤◌, ◌≡◌, refl, ap, ◌∙◌, false, Option, none, some, List, [], ◌∷◌, arith, min,
  length, All,
}
use gapura.Config.{OutlierDetection}
use gapura.Outlier.{
  Outcome, success, failure, Health, fresh, no_counts, u32_max, u64_max, is_ejected, record_success,
  threshold, ejection_ms, record_failure, observe,
}
use gapura.Outlier.Records.{IsPolicy}

-- While an endpoint is out no outcome changes its record.
observe_ejected :
    (o : Outcome) (now_ms : ℕ) (p : OutlierDetection) (h : Health)
    → now_ms < h.ejected_until
    → observe o now_ms p h ≡ (none, h)
unfolding observe is_ejected
observe_ejected o now_ms p h lt = ground arith

ejection_ms-le : (p : OutlierDetection) (n : ℕ) → ejection_ms p n ≤ p.max_ejection_ms
unfolding ejection_ms
ejection_ms-le p n = omega arith

record_failure_ejects :
    (p : OutlierDetection) (now_ms ms : ℕ) (h h' : Health)
    → record_failure p now_ms h ≡ (some ms, h')
    → (ms ≡ ejection_ms p h'.counts.ejections) × (h'.ejected_until ≡ min (now_ms + ms) u64_max)
unfolding record_failure
record_failure_ejects p now_ms ms h h' e = ground arith

-- Only a failure of an endpoint that is in ejects it. The time out is that of the number of
-- ejections, never above the policy's maximum, and until it is over no outcome, of either kind,
-- shortens or extends it or is counted.
pub observe_ejection :
    (o : Outcome) (now_ms ms : ℕ) (p : OutlierDetection) (h h' : Health)
    → observe o now_ms p h ≡ (some ms, h')
    → (o ≡ failure)
      × (is_ejected h now_ms ≡ false)
      × (ms ≡ ejection_ms p h'.counts.ejections)
      × (ms ≤ p.max_ejection_ms)
      × (h'.ejected_until ≡ min (now_ms + ms) u64_max)
      × ((o' : Outcome) (t : ℕ) → t < h'.ejected_until → observe o' t p h' ≡ (none, h'))
observe_ejection success now_ms ms p h h' e = absurd (unfold observe in ground arith)
observe_ejection failure now_ms ms p h h' e =
    let (in_rotation, f) : (is_ejected h now_ms ≡ false)
        × (record_failure p now_ms h ≡ (some ms, h')) =
      unfold observe in ground arith in
    let (long, until) = record_failure_ejects p now_ms ms h h' f in
    let bound = ejection_ms-le p h'.counts.ejections in
    (refl, in_rotation, long, omega arith, until, λ o' t lt. observe_ejected o' t p h' lt)

-- The record after a run of outcomes of one kind, at the given times.
unfoldable pub observe_all : Outcome → OutlierDetection → List ℕ → Health → Health
observe_all o p [] h = h
observe_all o p (t ∷ ts) h = observe_all o p ts (observe o t p h).1

-- Failures so far, of an endpoint that was never out.
abbrev pub failing : ℕ → Health
failing n = record {
  counts = record { failures = n; successes = 0; ejections = 0 };
  ejected_until = 0;
}

observe-failing :
    (p : OutlierDetection) (t n : ℕ)
    → IsPolicy p
    → n + 1 < p.consecutive_failures
    → observe failure t p (failing n) ≡ (none, failing (n + 1))
unfolding observe is_ejected record_failure threshold
observe-failing p t n i lt = ground arith

observe_last :
    (p : OutlierDetection) (t n : ℕ)
    → IsPolicy p
    → n + 1 ≡ p.consecutive_failures
    → (observe failure t p (failing n)).0 ≡ some (ejection_ms p 1)
unfolding observe is_ejected record_failure threshold
observe_last p t n i e = ground arith

observe_all-failing :
    (p : OutlierDetection) (ts : List ℕ) (n : ℕ)
    → IsPolicy p
    → n + length ts < p.consecutive_failures
    → observe_all failure p ts (failing n) ≡ failing (n + length ts)
unfolding observe_all
observe_all-failing p [] n i lt = ap failing (omega arith)
observe_all-failing p (t ∷ ts) n i lt =
    ap (λ (x : Option ℕ × Health). observe_all failure p ts x.1)
      (observe-failing p t n i (omega arith))
    ∙ (observe_all-failing p ts (n + 1) i (omega arith) ∙ ap failing (omega arith))

-- An endpoint that was never out is taken out by exactly `consecutive_failures` failures in a row,
-- at whatever times: after fewer it is in rotation, with each of them counted, and the failure
-- that reaches the number ejects it for the first time out.
pub failures_eject :
    (p : OutlierDetection) (ts : List ℕ) (t : ℕ)
    → IsPolicy p
    → length ts < p.consecutive_failures
    → (observe_all failure p ts fresh ≡ failing (length ts))
      × (length ts + 1 ≡ p.consecutive_failures
          → (observe failure t p (observe_all failure p ts fresh)).0 ≡ some (ejection_ms p 1))
failures_eject p ts t i lt =
    let run = observe_all-failing p ts 0 i (omega arith) ∙ ap failing (omega arith) in
    (run, λ e. rw run (observe_last p t (length ts) i e))

-- On probation: back in rotation after `ejections` times out, with `n` successes since.
abbrev pub probation : ℕ → ℕ → ℕ → Health
probation n ejections until = record {
  counts = record { failures = 0; successes = n; ejections = ejections };
  ejected_until = until;
}

observe_recovering :
    (p : OutlierDetection) (t n e u : ℕ)
    → IsPolicy p
    → 0 < e
    → u ≤ t
    → n + 1 < p.successes_to_recover
    → observe success t p (probation n e u) ≡ (none, probation (n + 1) e u)
unfolding observe is_ejected record_success
observe_recovering p t n e u i pos out lt = ground arith

observe_recovered :
    (p : OutlierDetection) (t n e u : ℕ)
    → IsPolicy p
    → 0 < e
    → u ≤ t
    → n + 1 ≡ p.successes_to_recover
    → observe success t p (probation n e u)
      ≡ (none, record { counts = no_counts; ejected_until = u })
unfolding observe is_ejected record_success
observe_recovered p t n e u i pos out lt = ground arith

observe_all-recovering :
    (p : OutlierDetection) (ts : List ℕ) (n e u : ℕ)
    → IsPolicy p
    → 0 < e
    → All (λ t. u ≤ t) ts
    → n + length ts < p.successes_to_recover
    → observe_all success p ts (probation n e u) ≡ probation (n + length ts) e u
unfolding observe_all
observe_all-recovering p [] n e u i pos out lt = ap (λ m. probation m e u) (omega arith)
observe_all-recovering p (t ∷ ts) n e u i pos out lt =
    ap (λ (x : Option ℕ × Health). observe_all success p ts x.1)
      (observe_recovering p t n e u i pos out.0 (omega arith))
    ∙ (observe_all-recovering p ts (n + 1) e u i pos out.1 (omega arith)
        ∙ ap (λ m. probation m e u) (omega arith))

-- Back from a time out, an endpoint is on probation: one failure ejects it again, for longer up to
-- the maximum, and `successes_to_recover` successes in a row, and no fewer, clear its history.
pub successes_recover :
    (p : OutlierDetection) (ts : List ℕ) (t e u : ℕ)
    → IsPolicy p
    → 0 < e
    → e < u32_max
    → All (λ t. u ≤ t) ts
    → u ≤ t
    → length ts < p.successes_to_recover
    → let h = observe_all success p ts (probation 0 e u) in
      (h ≡ probation (length ts) e u)
      × ((observe failure t p h).0 ≡ some (ejection_ms p (e + 1)))
      × (length ts + 1 ≡ p.successes_to_recover
          → observe success t p h ≡ (none, record { counts = no_counts; ejected_until = u }))
successes_recover p ts t e u i pos fit out later lt =
    let run =
      observe_all-recovering p ts 0 e u i pos out (omega arith)
      ∙ ap (λ m. probation m e u) (omega arith) in
    (
      run,
      rw run (again (length ts)),
      λ k. rw run (observe_recovered p t (length ts) e u i pos later k),
    )
  where
    again : (n : ℕ) → (observe failure t p (probation n e u)).0 ≡ some (ejection_ms p (e + 1))
    again n = unfold observe is_ejected record_failure threshold in ground arith
