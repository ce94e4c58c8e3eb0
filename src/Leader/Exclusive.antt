-- ===== src/Leader/Exclusive.antt =====
-- That the Lease of crates/gapura/src/source/kubernetes/leader.rs is never taken from a replica
-- before it ran out, whatever the order in which replicas write it.
use gapura.Prelude.{
  if_false, ◌≡◌, ◌≢◌, ◌⊎◌, inl, inr, refl, ap, sym, ◌∙◌, subst, ℤ, pos, ◌+ℤ◌, ◌≤ℤ◌, leb_ℤ,
  leb_ℤ_iff, +ℤ_parts, List, [], ◌∷◌, Option, some, Text, text_eq, text_eq_iff, All, All-weaken,
  arith, Bool-cases, ok, if◌then◌else◌,
}
use gapura.Leader.{
  Timestamp, LeaderOpts, LeaseSpec, Lease, Decision, acquire, renew, wait, proceed, acquired,
  spec_of, renewed, or_zero, held_by, decide, decision_on, modified, step,
}

-- A write that the API server accepted: whose, and the time that it wrote.
pub record Write : Type 0 where
  pub holder : Text
  pub at : Timestamp

-- The Lease and the accepted writes, the latest first. A replica that renews its own Lease reads
-- a clock that has not gone back since it wrote it, and no one but the replicas writes.
pub data Run (secs : ℤ) : Option Lease → List Write → Type 0 where
  start : (entry : Option Lease) → Run secs entry []
  wrote :
      {entry : Option Lease} {ws : List Write} (opts : LeaderOpts) (now : Timestamp) (lease : Lease)
      → Run secs entry ws
      → opts.lease_secs ≡ secs
      → All (λ w. w.holder ≡ opts.identity → w.at.second ≤ℤ now.second) ws
      → (step {E = Unit} opts now (ok entry) (λ l. ok tt)).0 ≡ some lease
      → Run secs (some lease) (record { holder = opts.identity; at = now } ∷ ws)

-- Every write comes a whole Lease after each earlier one of another replica.
abbrev pub After : ℤ → Write → Write → Type 0
After secs w earlier = earlier.holder ≢ w.holder → earlier.at.second +ℤ secs ≤ℤ w.at.second

abbrev pub IsExclusive : ℤ → List Write → Type 0
IsExclusive secs [] = Unit
IsExclusive secs (w ∷ ws) = All (After secs w) ws × IsExclusive secs ws

-- The Lease that the latest write left, and how the earlier ones stand to it.
record IsHeld (secs : ℤ) (entry : Option Lease) (w : Write) (ws : List Write) : Type 0 where
  pub spec : LeaseSpec
  pub entry_is : entry ≡ some (record { spec = some spec })
  pub holder_is : spec.holder_identity ≡ some w.holder
  pub renewed_is : spec.renew_time ≡ some w.at
  pub secs_is : spec.lease_duration_seconds ≡ some secs
  pub latest : All (λ e. e.at.second ≤ℤ w.at.second) ws

module _ (opts : LeaderOpts) (now : Timestamp) (entry : Option Lease) (lease : Lease) where
  proceed_sent :
      (d : Decision)
      → (proceed {E = Unit} opts now d entry (λ l. ok tt)).0 ≡ some lease
      → (d ≢ wait) × (modified opts now d entry ≡ lease)
  proceed_sent acquire h = (λ e. absurd (ground arith), ground arith)
  proceed_sent renew h = (λ e. absurd (ground arith), ground arith)
  proceed_sent wait h = absurd (ground arith)

  -- A write leaves the replica's own name, time and duration.
  modified-IsHeld :
      (secs : ℤ) (d : Decision) (ws : List Write)
      → opts.lease_secs ≡ secs
      → modified opts now d entry ≡ lease
      → All (λ e. e.at.second ≤ℤ now.second) ws
      → IsHeld secs (some lease) (record { holder = opts.identity; at = now }) ws
  unfolding modified
  modified-IsHeld secs d ws same e latest = record {
    spec = record (acquired d now (spec_of entry)) {
      holder_identity = some opts.identity;
      lease_duration_seconds = some opts.lease_secs;
      renew_time = some now;
    };
    entry_is = ap some (sym e);
    holder_is = refl;
    renewed_is = refl;
    secs_is = ap some same;
    latest = latest;
  }

-- The decision on a Lease whose fields are known.
decide_held :
    (spec : LeaseSpec) (holder identity : Text) (t : Timestamp) (secs now : ℤ)
    → spec.holder_identity ≡ some holder
    → spec.renew_time ≡ some t
    → spec.lease_duration_seconds ≡ some secs
    → decide (some spec) identity now ≡ (
        if text_eq holder identity
        then renew
        else if leb_ℤ (t.second +ℤ secs) now
        then acquire
        else wait)
unfolding decide
decide_held spec holder identity t secs now h r d =
    ap
      (λ o.
        if held_by o identity then renew else expired spec.renew_time spec.lease_duration_seconds)
      h
    ∙ (ap (λ o. if text_eq holder identity then renew else expired o spec.lease_duration_seconds) r
        ∙ ap (λ o. if text_eq holder identity then renew else expired (some t) o) d)
  where
    expired : Option Timestamp → Option ℤ → Decision
    expired o n = if leb_ℤ (renewed o +ℤ or_zero n) now then acquire else wait

-- A replica that writes is the holder, or comes after the Lease ran out.
decide_write :
    (secs : ℤ) (entry : Option Lease) (w : Write) (ws : List Write) (identity : Text) (now : ℤ)
    → IsHeld secs entry w ws
    → decision_on entry identity now ≢ wait
    → (w.holder ≡ identity) ⊎ (w.at.second +ℤ secs ≤ℤ now)
decide_write secs entry w ws identity now h may =
    let may' = subst (λ e. decision_on e identity now ≢ wait) h.entry_is may in
    let decided =
      decide_held h.spec w.holder identity w.at secs now h.holder_is h.renewed_is h.secs_is in
    elim (Bool-cases (text_eq w.holder identity)) [
      | inl mine ↦ inl ((text_eq_iff w.holder identity).0 mine)
      | inr other ↦ elim (Bool-cases (leb_ℤ (w.at.second +ℤ secs) now)) [
        | inl over ↦ inr ((leb_ℤ_iff (w.at.second +ℤ secs) now).0 over)
        | inr live ↦ absurd (may' (decided ∙ (if_false _ _ other ∙ if_false _ _ live)))
      ]
    ]

-- The order of writes after one more.
module _ (secs : ℤ) (w v : Write) (vs : List Write) (positive : pos 0 ≤ℤ secs)
    (old : IsExclusive secs (v ∷ vs)) (latest : All (λ e. e.at.second ≤ℤ v.at.second) vs) where
  renewed-After :
      v.holder ≡ w.holder
      → v.at.second ≤ℤ w.at.second
      → All (After secs w) (v ∷ vs) × All (λ e. e.at.second ≤ℤ w.at.second) (v ∷ vs)
  renewed-After mine le = (
    (
      λ differ. absurd (differ mine),
      All-weaken _ _ vs (λ e h differ. omega (arith, +ℤ_parts, le, h (λ q. differ (q ∙ mine))))
          old.0,
    ),
    (le, All-weaken _ _ vs (λ e h. omega (arith, le, h)) latest),
  )

  acquired-After :
      v.at.second +ℤ secs ≤ℤ w.at.second
      → All (After secs w) (v ∷ vs) × All (λ e. e.at.second ≤ℤ w.at.second) (v ∷ vs)
  acquired-After le = (
    (λ differ. le, All-weaken _ _ vs (λ e h differ. omega (arith, +ℤ_parts, le, h)) latest),
    (
      omega (arith, +ℤ_parts, le, positive),
      All-weaken _ _ vs (λ e h. omega (arith, +ℤ_parts, le, positive, h)) latest,
    ),
  )

-- What a run keeps: exclusive writes, and a Lease that is as the latest write left it.
IsKept : ℤ → Option Lease → List Write → Type 0
IsKept secs entry [] = Unit
IsKept secs entry (w ∷ ws) = IsHeld secs entry w ws × IsExclusive secs (w ∷ ws)

Run-IsKept :
    (secs : ℤ) (entry : Option Lease) (ws : List Write)
    → pos 0 ≤ℤ secs
    → Run secs entry ws
    → IsKept secs entry ws
unfolding step IsKept
Run-IsKept secs entry [] positive run = tt
Run-IsKept secs _ _ positive (wrote {entry = entry} {ws = []} opts now lease run same mono sent) =
    let (may, e) = proceed_sent opts now entry lease _ sent in
    (modified-IsHeld opts now entry lease secs _ [] same e tt, (tt, tt))
Run-IsKept secs _ _ positive
      (wrote {entry = entry} {ws = v ∷ vs} opts now lease run same mono sent) =
    let (may, e) = proceed_sent opts now entry lease _ sent in
    let (held, old) = Run-IsKept secs entry (v ∷ vs) positive run in
    let w : Write = record { holder = opts.identity; at = now } in
    let both : All (After secs w) (v ∷ vs) × All (λ e. e.at.second ≤ℤ now.second) (v ∷ vs) =
      elim (decide_write secs entry v vs opts.identity now.second held may) [
        | inl mine ↦ renewed-After secs w v vs positive old held.latest mine (mono.0 mine)
        | inr over ↦ acquired-After secs w v vs positive old held.latest over
      ] in
    (modified-IsHeld opts now entry lease secs _ (v ∷ vs) same e both.1, (both.0, old))

-- However replicas renew and take the Lease, where none dates a write before an earlier one of its
-- own and all give the Lease the same duration, none writes it before the Lease that another one
-- wrote has run out, by the time of the writer.
pub Run-IsExclusive :
    (secs : ℤ) (entry : Option Lease) (ws : List Write)
    → pos 0 ≤ℤ secs
    → Run secs entry ws
    → IsExclusive secs ws
unfolding IsKept
Run-IsExclusive secs entry [] positive run = tt
Run-IsExclusive secs entry (w ∷ ws) positive run = (Run-IsKept secs entry (w ∷ ws) positive run).1
