-- ===== src/Throttle/Held.antt =====
-- What one counter holds, and that it still does after each change of it: the counter of
-- crates/gapura-control/src/throttle.rs.
use gapura.Prelude.{
  ℕ, ◌+◌, ◌%◌, ◌^◌, ◌<◌, ◌≤◌, ◌≡◌, ◌⊎◌, inl, inr, refl, true, not, ◌&&◌, some, arith, leb,
  Bool-cases, Option-cases,
}
use gapura.Throttle.{
  Rule, Counter, fresh, locked, is_locked, lapsed, restarted, given_back, failed_in, cleared,
}

-- Failures and attempts in flight are within the limit together, but for `n` failures more, and a
-- counter whose failures are spent has a lock.
pub record IsHeld (rule : Rule) (n : ℕ) (c : Counter) : Type 0 where
  pub bounded : c.failures + c.pending ≤ rule.limit + n
  pub spent : (c.failures < rule.limit) ⊎ ((until : ℕ) × (c.locked_until ≡ some until))

-- There is room for a failure.
pub record HasRoom (rule : Rule) (n : ℕ) (c : Counter) : Type 0 where
  pub below : c.failures + c.pending < rule.limit + n
  pub guarded : (c.failures < rule.limit) ⊎ ((until : ℕ) × (c.locked_until ≡ some until))

pub IsHeld-more : (rule : Rule) (n m : ℕ) (c : Counter) → n ≤ m → IsHeld rule n c → IsHeld rule m c
IsHeld-more rule n m c le h = record { bounded = omega (arith, h.bounded); spent = h.spent }

pub fresh-IsHeld : (rule : Rule) (n now : ℕ) → 0 < rule.limit → IsHeld rule n (fresh now)
fresh-IsHeld rule n now pos = record { bounded = omega arith; spent = inl pos }

pub given_back-IsHeld :
    (rule : Rule) (n : ℕ) (c : Counter) → IsHeld rule n c → IsHeld rule n (given_back c)
unfolding given_back
given_back-IsHeld rule n c h = record { bounded = omega (arith, h.bounded); spent = h.spent }

pub given_back-HasRoom :
    (rule : Rule) (n : ℕ) (c : Counter)
    → IsHeld rule n c × (0 < c.pending)
    → HasRoom rule n (given_back c)
unfolding given_back
given_back-HasRoom rule n c (h, p) = record {
  below = omega (arith, h.bounded, p);
  guarded = h.spent;
}

pub cleared-IsHeld :
    (rule : Rule) (n : ℕ) (c : Counter)
    → 0 < rule.limit
    → IsHeld rule n c
    → IsHeld rule n (cleared c)
unfolding cleared
cleared-IsHeld rule n c pos h = record { bounded = omega (arith, h.bounded); spent = inl pos }

pub IsHeld-HasRoom : (rule : Rule) (n : ℕ) (c : Counter) → IsHeld rule n c → HasRoom rule (n + 1) c
IsHeld-HasRoom rule n c h = record { below = omega (arith, h.bounded); guarded = h.spent }

pub HasRoom-IsHeld : (rule : Rule) (n : ℕ) (c : Counter) → HasRoom rule n c → IsHeld rule n c
HasRoom-IsHeld rule n c h = record { bounded = omega (arith, h.below); spent = h.guarded }

pub restarted-HasRoom :
    (rule : Rule) (n now : ℕ) (c : Counter)
    → 0 < rule.limit
    → HasRoom rule n c
    → HasRoom rule n (restarted rule now c)
unfolding restarted
restarted-HasRoom rule n now c pos h = elim (Bool-cases (lapsed rule now c)) [
  | inl e ↦ rw e (record { below = omega (arith, h.below); guarded = inl pos })
  | inr e ↦ rw e h
]

is_locked→until :
    (now : ℕ) (c : Counter) → is_locked now c ≡ true → (until : ℕ) × (c.locked_until ≡ some until)
unfolding locked
is_locked→until now c h = elim (Option-cases c.locked_until) [
  | inl n ↦ absurd (ground (arith, n, h))
  | inr x ↦ x
]

pub failed_in-IsHeld :
    (rule : Rule) (n now : ℕ) (c : Counter)
    → rule.limit + n < 2 ^ 32
    → HasRoom rule n c
    → IsHeld rule n (failed_in rule now c)
unfolding failed_in
failed_in-IsHeld rule n now c fits h =
    elim (Bool-cases (leb rule.limit ((c.failures + 1) % 2 ^ 32) && not (is_locked now c))) [
      | inl e ↦
          rw e
            (record { bounded = omega (arith, h.below, fits); spent = inr (now + rule.lock, refl) })
      | inr f ↦ elim (Bool-cases (is_locked now c)) [
        | inl q ↦ rw f (record {
          bounded = omega (arith, h.below, fits);
          spent = inr (is_locked→until now c q);
        })
        | inr q ↦
            rw f (record { bounded = omega (arith, h.below, fits); spent = inl (ground arith) })
      ]
    ]
