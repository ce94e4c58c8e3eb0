-- ===== src/Select/Weights.antt =====
-- What share of the rolls each backend gets in `pick_backend` of
-- crates/gapura/src/proxy/select.rs.
use gapura.Prelude.{
  ℕ, ◌+◌, ◌-◌, ◌<◌, ◌≡◌, ◌⊎◌, inl, inr, refl, false, List, [], ◌∷◌, ◌++◌, arith, ltb, ◌==◌,
  Bool-cases, min, In,
}
use gapura.Config.{WeightedBackend}
use gapura.Select.{err, no_backend, cluster_of, total_weight, pick_at, pick_backend}

total_weight-append :
    (xs bs : List WeightedBackend) → total_weight (xs ++ bs) ≡ total_weight xs + total_weight bs
unfolding total_weight
total_weight-append [] bs = omega arith
total_weight-append (x ∷ xs) bs = omega (arith, total_weight-append xs bs)

pick_at-append :
    (front : List WeightedBackend) (b : WeightedBackend) (back : List WeightedBackend) (k : ℕ)
    → k < b.weight
    → pick_at (front ++ b ∷ back) (total_weight front + k) ≡ cluster_of b
unfolding pick_at total_weight
pick_at-append [] b back k h = ground arith
pick_at-append (a ∷ front) b back k h =
    let past : ltb (a.weight + total_weight front + k) a.weight ≡ false = ground arith in
    let left : a.weight + total_weight front + k - a.weight ≡ total_weight front + k =
      omega arith in
    rw (past, left) (pick_at-append front b back k h)

-- The weighted choice gives every backend the rolls that lie in its own stretch of the total: as
-- many as its weight, each of them once, and those of an invalid backend are errors.
pub pick_backend-share :
    (front : List WeightedBackend) (b : WeightedBackend) (back : List WeightedBackend)
    (roll : ℕ → ℕ) (k : ℕ)
    → k < b.weight
    → roll (total_weight (front ++ b ∷ back)) ≡ total_weight front + k
    → pick_backend (front ++ b ∷ back) roll ≡ cluster_of b
unfolding pick_backend
pick_backend-share front b back roll k h e =
    let sum : total_weight (front ++ b ∷ back)
        ≡ total_weight front + (b.weight + total_weight back) =
      unfold total_weight in total_weight-append front (b ∷ back) in
    let some_weight : (total_weight (front ++ b ∷ back) == 0) ≡ false = ground arith in
    let kept : min (roll (total_weight (front ++ b ∷ back))) (total_weight (front ++ b ∷ back) - 1)
        ≡ total_weight front + k =
      omega arith in
    rw (some_weight, kept) (pick_at-append front b back k h)

pick_at-In :
    (bs : List WeightedBackend) (r : ℕ)
    → r < total_weight bs
    → (b : WeightedBackend) × In b bs × (0 < b.weight) × (pick_at bs r ≡ cluster_of b)
unfolding pick_at total_weight
pick_at-In [] r h = absurd (omega arith)
pick_at-In (b ∷ bs) r h = elim (Bool-cases (ltb r b.weight)) [
  | inl e ↦ (b, inl refl, ground arith, rw e refl)
  | inr e ↦ let (a, i, w, q) = pick_at-In bs (r - b.weight) (ground arith) in (a, inr i, w, rw e q)
]

-- Whatever the roll gives, even out of its range, a list with some weight picks one of its backends
-- with a weight of its own, and a list without any is an error.
pub pick_backend-In :
    (backends : List WeightedBackend) (roll : ℕ → ℕ)
    → (total_weight backends ≡ 0) × (pick_backend backends roll ≡ err no_backend)
      ⊎ ((b : WeightedBackend) × In b backends
          × (0 < b.weight)
          × (pick_backend backends roll ≡ cluster_of b))
unfolding pick_backend
pick_backend-In backends roll = elim (Bool-cases (total_weight backends == 0)) [
  | inl e ↦ inl (ground arith, rw e refl)
  | inr e ↦
      let (b, i, w, q) =
        pick_at-In backends (min (roll (total_weight backends)) (total_weight backends - 1))
          (ground arith) in
      inr (b, i, w, rw e q)
]
