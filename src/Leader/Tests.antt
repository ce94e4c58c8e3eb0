-- ===== src/Leader/Tests.antt =====
-- Runs of the code of crates/gapura/src/source/kubernetes/leader.rs.
use gapura.Prelude.{
  ℕ, ◌*◌, ◌≡◌, refl, pos, ◌+ℤ◌, true, List, [], ◌∷◌, none, some, codes, text_eq, ok, err, arith,
}
use gapura.Leader.{
  Timestamp, LeaderOpts, LeaseSpec, default_spec, Lease, acquire, renew, wait, decide, publish,
  step_budget, modified, conflict, step, second_ns, deadline_of, Standing, ended, pass,
}
use gapura.Leader.Exclusive.{Write, Run, start, wrote, IsExclusive, Run-IsExclusive}
use gapura.Leader.Loop.{
  IsReported, step-IsReported, Passes, begin, next, IsCurrent, Passes-IsCurrent,
}

program : Unit {0}
unfolding decide publish step_budget modified step deadline_of pass text_eq ◌+ℤ◌
program = tt

abbrev at : ℕ → Timestamp
at second = record { second = pos second; nanos = 0 }

abbrev me : LeaderOpts
me = record { identity = codes "me"; lease_secs = pos 15; renew_every = 5 * second_ns }

abbrev you : LeaderOpts
you = record me { identity = codes "you" }

abbrev held_by_me : ℕ → LeaseSpec
held_by_me second = record default_spec {
  holder_identity = some (codes "me");
  renew_time = some (at second);
  lease_duration_seconds = some (pos 15);
}

-- The decisions of the source's own tests.
absent : decide none (codes "me") (pos 1000) ≡ acquire
unfolding program
absent = refl

stale_own : decide (some (held_by_me 0)) (codes "me") (pos 1000) ≡ renew
unfolding program
stale_own = refl

live : decide (some (held_by_me 990)) (codes "you") (pos 1000) ≡ wait
unfolding program
live = refl

expired_now : decide (some (held_by_me 985)) (codes "you") (pos 1000) ≡ acquire
unfolding program
expired_now = refl

what_is_left : step_budget (some 0) true (4 * second_ns) (deadline_of me) ≡ 6 * second_ns
unfolding program
what_is_left = refl

abbrev first_lease : Lease
first_lease = record {
  spec =
      some
        (record (held_by_me 10) { acquire_time = some (at 10); lease_transitions = some (pos 1) });
}

abbrev second_lease : Lease
second_lease = record {
  spec = some (record default_spec {
    holder_identity = some (codes "you");
    renew_time = some (at 25);
    lease_duration_seconds = some (pos 15);
    acquire_time = some (at 25);
    lease_transitions = some (pos 2);
  });
}

abbrev two_writes : List Write
two_writes =
    record { holder = codes "you"; at = at 25 } ∷ record { holder = codes "me"; at = at 10 } ∷ []

taken_over : Run (pos 15) (some second_lease) two_writes
unfolding program
taken_over =
    wrote you (at 25) second_lease (wrote me (at 10) first_lease (start none) refl tt refl) refl
      ((λ e. omega arith), tt) refl

Run-IsExclusive_example : IsExclusive (pos 15) two_writes
Run-IsExclusive_example =
    Run-IsExclusive (pos 15) (some second_lease) two_writes (omega arith) taken_over

step-IsReported_example :
    IsReported {E = Unit} you
      (at 12)
      (λ l. err conflict)
      (ok (some first_lease))
      (step {E = Unit} you (at 12) (ok (some first_lease)) (λ l. err conflict)).0
      (step {E = Unit} you (at 12) (ok (some first_lease)) (λ l. err conflict)).1
step-IsReported_example = step-IsReported you (at 12) (λ l. err conflict) (ok (some first_lease))

abbrev leading : Standing
leading = record { renewed_at = some 100; leadership = true }

one_pass : Passes Unit (deadline_of me) 200 leading
unfolding program
one_pass = next 100 200 (ended (ok true)) begin (omega arith) (omega arith) (omega arith)

Passes-IsCurrent_example : IsCurrent me 15 200 leading 300 (10 * second_ns)
unfolding program
Passes-IsCurrent_example =
    Passes-IsCurrent me 15 200 leading 300 (10 * second_ns) one_pass refl (omega arith)
      (omega arith) (omega arith)
