-- ===== src/Leader/Loop.antt =====
-- What a step reports, and that a replica stops leading before its Lease runs out:
-- crates/gapura/src/source/kubernetes/leader.rs.
use gapura.Prelude.{
  ap₂, subst, if_true, if_false, ℕ, ◌+◌, ◌*◌, ◌<◌, ◌≤◌, ◌≡◌, ◌≢◌, ◌⊎◌, inl, inr, refl, ap, ◌∙◌, pos,
  Bool, true, false, Option, none, some, arith, Result, ok, err, Bool-cases, if◌then◌else◌,
}
use gapura.Leader.{
  Timestamp, LeaderOpts, Lease, Decision, acquire, renew, wait, decision_on, modified, CommitError,
  conflict, other_error, committed, proceed, step, step_budget, second_ns, deadline_of, Standing,
  StepOutcome, publish, leads, lease_seconds, pass,
}

module _ {E : Type 0} (opts : LeaderOpts) (now : Timestamp)
    (commit : Lease → Result (CommitError E) Unit) where
  -- What a step may report after a decision: that this replica leads only where the API server
  -- stored the Lease, that it does not where it waits or another replica was first, and errors as
  -- they are.
  abbrev Reports : Decision → Option Lease → Option Lease → Result E Bool → Type 0
  Reports d entry none result = (d ≡ wait) × (result ≡ ok false)
  Reports d entry (some lease) (ok leader) =
      (d ≢ wait)
      × (lease ≡ modified opts now d entry)
      × (commit lease ≡ (if leader then ok tt else err conflict))
  Reports d entry (some lease) (err e) =
      (d ≢ wait) × (lease ≡ modified opts now d entry) × (commit lease ≡ err (other_error e))

  abbrev pub IsReported : Result E (Option Lease) → Option Lease → Result E Bool → Type 0
  IsReported (err e) sent result = (sent ≡ none) × (result ≡ err e)
  IsReported (ok entry) sent result =
      Reports (decision_on entry opts.identity now.second) entry sent result

  committed-Reports :
      (d : Decision) (entry : Option Lease) (answer : Result (CommitError E) Unit)
      → d ≢ wait
      → commit (modified opts now d entry) ≡ answer
      → Reports d entry (some (modified opts now d entry)) (committed answer)
  committed-Reports d entry (ok u) may h = (may, refl, h)
  committed-Reports d entry (err conflict) may h = (may, refl, h)
  committed-Reports d entry (err (other_error e)) may h = (may, refl, h)

  proceed-Reports :
      (d : Decision) (entry : Option Lease)
      → Reports d entry (proceed opts now d entry commit).0 (proceed opts now d entry commit).1
  proceed-Reports acquire entry =
      committed-Reports acquire entry _ (λ e. absurd (ground arith)) refl
  proceed-Reports renew entry = committed-Reports renew entry _ (λ e. absurd (ground arith)) refl
  proceed-Reports wait entry = (refl, refl)

  -- A step reports leadership just where the API server stored the Lease that it wrote, and every
  -- other result for its own reason.
  pub step-IsReported :
      (fetched : Result E (Option Lease))
      → IsReported fetched (step opts now fetched commit).0 (step opts now fetched commit).1
  unfolding step
  step-IsReported (err e) = (refl, refl)
  step-IsReported (ok entry) = proceed-Reports (decision_on entry opts.identity now.second) entry

-- The standings that the loop reaches, with the time when the last pass ended. A pass starts after
-- the one before, and its step is given up when its budget is spent.
pub data Passes (E : Type 0) (deadline : ℕ) : ℕ → Standing → Type 0 where
  begin : Passes E deadline 0 (record { renewed_at = none; leadership = false })
  next :
      {t : ℕ} {s : Standing} (started e : ℕ) (outcome : StepOutcome E)
      → Passes E deadline t s
      → t ≤ started
      → started ≤ e
      → e ≤ started + step_budget s.renewed_at s.leadership started deadline
      → Passes E deadline e (pass started outcome s)

-- Whoever leads has renewed the Lease within the deadline.
abbrev IsFresh : ℕ → ℕ → Standing → Type 0
IsFresh deadline t s =
    ((s.leadership ≡ true) × ((at : ℕ) × (s.renewed_at ≡ some at) × (at ≤ t) × (t ≤ at + deadline)))
    ⊎ ((s.leadership ≡ false) × (s.renewed_at ≡ none))

budget_bound :
    (deadline t started : ℕ) (s : Standing)
    → IsFresh deadline t s
    → t ≤ started
    → step_budget s.renewed_at s.leadership started deadline ≤ deadline
unfolding step_budget
budget_bound deadline t started s (inl (lead, (at, e, before, after))) le =
    rw (lead, e) (omega arith)
budget_bound deadline t started s (inr (lead, e)) le = rw (lead, e) (omega arith)

publish-value : (old leader : Bool) → (publish old leader).1 ≡ leader
unfolding publish
publish-value old leader = ground arith

pass-IsFresh :
    {E : Type 0} (deadline started e : ℕ) (outcome : StepOutcome E) (s : Standing)
    → started ≤ e
    → e ≤ started + deadline
    → IsFresh deadline e (pass started outcome s)
unfolding pass
pass-IsFresh deadline started e outcome s le late = elim (Bool-cases (leads outcome)) [
  | inl e' ↦ inl (publish-value s.leadership _ ∙ e', (started, if_true _ _ e', le, late))
  | inr e' ↦ inr (publish-value s.leadership _ ∙ e', if_false _ _ e')
]

Passes-IsFresh :
    {E : Type 0} (deadline t : ℕ) (s : Standing) → Passes E deadline t s → IsFresh deadline t s
Passes-IsFresh deadline _ _ begin = inr (refl, refl)
Passes-IsFresh deadline _ _ (next {t = t} {s = s} started e outcome run le le' late) =
    let small = budget_bound deadline t started s (Passes-IsFresh deadline t s run) le in
    pass-IsFresh deadline started e outcome s le' (omega arith)

-- Where a Lease lasts more than a second and is renewed at all, a leader whose next pass starts
-- within the deadline has renewed the Lease or ceased to lead before it runs out.
step_budget-expiry :
    (opts : LeaderOpts) (secs at started e : ℕ)
    → opts.lease_secs ≡ pos secs
    → 1 < secs
    → 0 < opts.renew_every
    → started ≤ at + deadline_of opts
    → e ≤ started + step_budget (some at) true started (deadline_of opts)
    → e < at + secs * second_ns
unfolding step_budget deadline_of
step_budget-expiry opts secs at started e same long renewing in_time late =
    let length : lease_seconds opts.lease_secs ≡ secs = ap lease_seconds same in
    omega (arith, length)

step_budget-end :
    (deadline at started e : ℕ)
    → e ≤ started + step_budget (some at) true started deadline
    → (e ≤ started) ⊎ (e ≤ at + deadline)
unfolding step_budget
step_budget-end deadline at started e late = omega arith

step_budget-follower :
    (deadline started : ℕ) (renewed_at : Option ℕ)
    → step_budget renewed_at false started deadline ≡ deadline
unfolding step_budget
step_budget-follower deadline started none = refl
step_budget-follower deadline started (some at) = refl

in_time_or_late : (started d : ℕ) → (started ≤ d) ⊎ (d < started)
in_time_or_late started d = ground arith

-- What holds of a replica after a pass that ended at `t`, and of its next step, which starts at
-- `started` and has ended at `e`. The replica may still lead as that step is in progress.
abbrev pub IsCurrent : LeaderOpts → ℕ → ℕ → Standing → ℕ → ℕ → Type 0
IsCurrent opts secs t s started e =
    ((s.leadership ≡ true)
      × ((at : ℕ) × (s.renewed_at ≡ some at)
          × (at ≤ t)
          × (t ≤ at + deadline_of opts)
          × ((e ≤ started) ⊎ (e ≤ at + deadline_of opts))
          × ((e < at + secs * second_ns) ⊎ (at + deadline_of opts < started))))
    ⊎ ((s.leadership ≡ false) × (s.renewed_at ≡ none) × (e ≤ started + deadline_of opts))

-- Where a Lease lasts more than a second and is renewed at all, however the steps end: a replica
-- that leads after a pass has renewed the Lease no longer ago than the deadline, and its next step
-- is over by the deadline of that same renewal, or at once where the deadline has passed: before
-- the Lease runs out, unless the step only started after the deadline. A replica that does not
-- lead goes by no renewal, and its next step has the whole deadline.
pub Passes-IsCurrent :
    {E : Type 0} (opts : LeaderOpts) (secs t : ℕ) (s : Standing) (started e : ℕ)
    → Passes E (deadline_of opts) t s
    → opts.lease_secs ≡ pos secs
    → 1 < secs
    → 0 < opts.renew_every
    → e ≤ started + step_budget s.renewed_at s.leadership started (deadline_of opts)
    → IsCurrent opts secs t s started e
Passes-IsCurrent opts secs t s started e run same long renewing late =
    elim (Passes-IsFresh (deadline_of opts) t s run) [
      | inl (lead, (at, f, before, after)) ↦
          let late' : e ≤ started + step_budget (some at) true started (deadline_of opts) =
            subst {A = Option ℕ × Bool}
              (λ b. e ≤ started + step_budget b.0 b.1 started (deadline_of opts))
              (ap₂ (λ u v. (u, v)) f lead) late in
          let safe : (e < at + secs * second_ns) ⊎ (at + deadline_of opts < started) =
            elim (in_time_or_late started (at + deadline_of opts)) [
              | inl le ↦ inl (step_budget-expiry opts secs at started e same long renewing le late')
              | inr lt ↦ inr lt
            ] in
          inl (
            lead,
            (at, f, before, after, step_budget-end (deadline_of opts) at started e late', safe),
          )
      | inr (lead, f) ↦
          let whole = step_budget-follower (deadline_of opts) started s.renewed_at in
          let late' : e ≤ started + step_budget s.renewed_at false started (deadline_of opts) =
            subst (λ b. e ≤ started + step_budget s.renewed_at b started (deadline_of opts)) lead
              late in
          inr (lead, f, omega (arith, whole, late'))
    ]
