-- ===== src/Throttle/Settling.antt =====
-- What settling an attempt does to the counter of one key: `counter` and `settle_in` of
-- crates/gapura-control/src/throttle.rs.
use mathlib.Core.Option.{some-injective}
use gapura.Prelude.{
  ℕ, ◌+◌, ◌^◌, ◌<◌, ◌≡◌, ◌≢◌, ◌⊎◌, inl, inr, refl, ap, sym, ◌∙◌, subst, Bool, true, false, Option,
  none, some, List, [], ◌∷◌, arith, ltb, Bool-cases, Option-cases, if_true, if_false,
  and_then-eq-some, if◌then◌else◌,
}
use gapura.Throttle.{
  Rule, Outcome, failed, succeeded, refunded, Policy, Key, is_pair, rule_of, Counter, fresh,
  restarted, given_back, failed_in, cleared, Counters, find_counter, set_counter, change,
}
use gapura.Throttle.Attempts.{make_room, found_or_fresh, counter, tidied, settle_outcome, settle_in}
use gapura.Throttle.Entries.{
  Only, Only-find, Only-found, Only-weaken, set_counter-Only, set_other-Only, change-Only,
  change_other-Only, tidied-Only, make_room-Only,
}
use gapura.Throttle.Held.{
  IsHeld, HasRoom, given_back-IsHeld, given_back-HasRoom, cleared-IsHeld, IsHeld-HasRoom,
  HasRoom-IsHeld, restarted-HasRoom, failed_in-IsHeld,
}

-- Whether a settled key's reservation is given back: it was reserved, and its counter still has an
-- attempt in flight.
abbrev pub gives_back : Bool → Option Counter → Bool
gives_back true none = false
gives_back true (some c) = ltb 0 c.pending
gives_back false o = false

-- The failures that are counted without a reservation that is given back for them.
abbrev pub uncovered : Outcome → Bool → Option Counter → ℕ
uncovered failed given o = if gives_back given o then 0 else 1
uncovered succeeded given o = 0
uncovered refunded given o = 0

-- The counters after the reservation is given back.
abbrev pub returned : Key → Bool → Counters → Counters
returned j given cs = if given then change j given_back cs else cs

module _ (policy : Policy) (capacity : ℕ) where
  -- The loop settles one key after the other.
  pub settle_in-cons :
      (outcome : Outcome) (now : ℕ) (j : Key) (given : Bool) (keys : List (Key × Bool))
      (cs out : Counters)
      → settle_in policy capacity outcome now ((j, given) ∷ keys) cs ≡ some out
      → (own : Rule) × (mid : Counters) × (rule_of policy j ≡ some own)
        × (settle_outcome policy capacity outcome own j now (returned j given cs) ≡ some mid)
        × (settle_in policy capacity outcome now ((j, given) ∷ []) cs ≡ some (tidied j mid))
        × (settle_in policy capacity outcome now keys (tidied j mid) ≡ some out)
  unfolding settle_in
  settle_in-cons outcome now j given keys cs out h =
      let (own, e, f) = and_then-eq-some (rule_of policy j) _ h in
      let (mid, g, q) =
        and_then-eq-some (settle_outcome policy capacity outcome own j now (returned j given cs)) _
          f in
      (own, mid, e, g, rw e (rw g refl), q)

  module _ (k : Key) where
    -- The map's other keys.
    pub counter_other-Only :
        (P : Counter → Type 0) (now : ℕ) (j : Key) (cs : Counters) (r : Option Counter × Counters)
        → j ≢ k
        → counter policy capacity j now cs ≡ some r
        → Only k P cs
        → Only k P r.1
    unfolding counter
    counter_other-Only P now j cs r n h o =
        let (room, e, f) = and_then-eq-some (make_room policy capacity j now cs) _ h in
        let kept = make_room-Only k policy now P capacity j cs room e o in
        elim (Bool-cases room.0) [
          | inl g ↦
              let (own, e', q) = and_then-eq-some (rule_of policy j) _ (sym (if_true _ _ g) ∙ f) in
              subst (Only k P) (ap (λ x. x.1) (some-injective _ _ q))
                (set_other-Only k P j _ room.1 n kept)
          | inr g ↦
              subst (Only k P) (ap (λ x. x.1) (some-injective _ _ (sym (if_false _ _ g) ∙ f))) kept
        ]

    settle_other-Only :
        (P : Counter → Type 0) (outcome : Outcome) (now : ℕ) (own : Rule) (j : Key)
        (cs mid : Counters)
        → j ≢ k
        → settle_outcome policy capacity outcome own j now cs ≡ some mid
        → Only k P cs
        → Only k P mid
    unfolding settle_outcome
    settle_other-Only P failed now own j cs mid n h o =
        let (r, e, f) = and_then-eq-some (counter policy capacity j now cs) _ h in
        let kept = counter_other-Only P now j cs r n e o in
        subst (Only k P) (some-injective _ _ f) (set_or_keep r.0 r.1 kept)
      where
        set_or_keep :
            (x : Option Counter) (ds : Counters)
            → Only k P ds
            → Only k P (elim x [ none ↦ ds | some c ↦ set_counter j (failed_in own now c) ds ])
        set_or_keep none ds p = p
        set_or_keep (some c) ds p = set_other-Only k P j (failed_in own now c) ds n p
    settle_other-Only P succeeded now own j cs mid n h o = elim (Bool-cases (is_pair j)) [
      | inl e ↦
          subst (Only k P) (sym (if_true _ _ e) ∙ some-injective _ _ h)
            (change_other-Only k P j cleared cs n o)
      | inr e ↦ subst (Only k P) (sym (if_false _ _ e) ∙ some-injective _ _ h) o
    ]
    settle_other-Only P refunded now own j cs mid n h o = subst (Only k P) (some-injective _ _ h) o

    returned_other-Only :
        (P : Counter → Type 0) (j : Key) (given : Bool) (cs : Counters)
        → j ≢ k
        → Only k P cs
        → Only k P (returned j given cs)
    returned_other-Only P j true cs n o = change_other-Only k P j given_back cs n o
    returned_other-Only P j false cs n o = o

    -- Settling another key leaves the key's counter as it was, or drops it.
    pub settle_in_other-Only :
        (P : Counter → Type 0) (outcome : Outcome) (now : ℕ) (own : Rule) (j : Key) (given : Bool)
        (cs mid : Counters)
        → j ≢ k
        → settle_outcome policy capacity outcome own j now (returned j given cs) ≡ some mid
        → Only k P cs
        → Only k P (tidied j mid)
    settle_in_other-Only P outcome now own j given cs mid n h o = tidied-Only k P j mid (
        settle_other-Only P outcome now own j (returned j given cs) mid n h
          (returned_other-Only P j given cs n o))

  module _ (k : Key) (rule : Rule) (known : rule_of policy k ≡ some rule) where
    -- The key's own counter: one that was there or a fresh one, started again if it has lapsed.
    pub counter_own-Only :
        (P : Counter → Type 0) (now : ℕ) (cs : Counters) (r : Option Counter × Counters)
        → P (fresh now)
        → counter policy capacity k now cs ≡ some r
        → Only k P cs
        → ((r.0 ≡ none) × Only k P r.1)
          ⊎ ((c : Counter) × P c × (r.0 ≡ some (restarted rule now c)) × Only k (λ d. Unit {0}) r.1)
    unfolding counter
    counter_own-Only P now cs r new h o =
        let (room, e, f) = and_then-eq-some (make_room policy capacity k now cs) _ h in
        let kept = make_room-Only k policy now P capacity k cs room e o in
        elim (Bool-cases room.0) [
          | inl g ↦
              let (own, e', q) = and_then-eq-some (rule_of policy k) _ (sym (if_true _ _ g) ∙ f) in
              let same : rule ≡ own = some-injective _ _ (sym known ∙ e') in
              let there = some-injective _ _ q in
              inr (
                found_or_fresh k now room.1,
                found room.1 kept,
                sym (ap (λ x. x.0) there)
                    ∙ ap (λ x. some (restarted x now (found_or_fresh k now room.1))) (sym same),
                subst (Only k (λ d. Unit {0})) (ap (λ x. x.1) there)
                    (set_counter-Only k P (λ d. Unit {0}) room.1 _ kept tt),
              )
          | inr g ↦
              let there = some-injective _ _ (sym (if_false _ _ g) ∙ f) in
              inl (sym (ap (λ x. x.0) there), subst (Only k P) (ap (λ x. x.1) there) kept)
        ]
      where
        found : (ds : Counters) → Only k P ds → P (found_or_fresh k now ds)
        found ds p = elim (Option-cases (find_counter k ds)) [
          | inl e ↦ subst (λ x. P (elim x [ none ↦ fresh now | some c ↦ c ])) (sym e) new
          | inr (c, e) ↦
              subst (λ x. P (elim x [ none ↦ fresh now | some c ↦ c ])) (sym e)
                (Only-find k P ds c p e)
        ]

    module _ (positive : 0 < rule.limit) where
      -- A failure takes the room that there is for it.
      settle_failed-Only :
          (n now : ℕ) (cs mid : Counters)
          → rule.limit + n < 2 ^ 32
          → settle_outcome policy capacity failed rule k now cs ≡ some mid
          → Only k (HasRoom rule n) cs
          → HasRoom rule n (fresh now)
          → Only k (IsHeld rule n) mid
      unfolding settle_outcome
      settle_failed-Only n now cs mid fits h o new =
          let (r, e, f) = and_then-eq-some (counter policy capacity k now cs) _ h in
          let whole = counter_own-Only (HasRoom rule n) now cs r new e o in
          subst (Only k (IsHeld rule n)) (some-injective _ _ f) (elim whole [
            | inl (none_there, kept) ↦
                subst (λ x. Only k (IsHeld rule n) (counted x r.1)) (sym none_there)
                  (Only-weaken k (HasRoom rule n) (IsHeld rule n) r.1 (HasRoom-IsHeld rule n) kept)
            | inr (c, room, there, kept) ↦
                subst (λ x. Only k (IsHeld rule n) (counted x r.1)) (sym there)
                  (set_counter-Only k (λ d. Unit {0}) (IsHeld rule n) r.1 _ kept
                    (failed_in-IsHeld rule n now _ fits
                      (restarted-HasRoom rule n now c positive room)))
          ])
        where
          counted : Option Counter → Counters → Counters
          counted x ds = elim x [ none ↦ ds | some c ↦ set_counter k (failed_in rule now c) ds ]

      fresh-HasRoom : (n now : ℕ) → HasRoom rule n (fresh now)
      fresh-HasRoom n now = record { below = omega arith; guarded = inl positive }

      returned-IsHeld :
          (n : ℕ) (given : Bool) (cs : Counters)
          → Only k (IsHeld rule n) cs
          → Only k (IsHeld rule n) (returned k given cs)
      returned-IsHeld n true cs o =
          change-Only k (IsHeld rule n) (IsHeld rule n) given_back cs (given_back-IsHeld rule n) o
      returned-IsHeld n false cs o = o

      settle_succeeded-Only :
          (n now : ℕ) (given : Bool) (cs mid : Counters)
          → settle_outcome policy capacity succeeded rule k now (returned k given cs) ≡ some mid
          → Only k (IsHeld rule n) cs
          → Only k (IsHeld rule n) mid
      unfolding settle_outcome
      settle_succeeded-Only n now given cs mid h o =
          let back = returned-IsHeld n given cs o in
          elim (Bool-cases (is_pair k)) [
            | inl e ↦ subst (Only k (IsHeld rule n)) (sym (if_true _ _ e) ∙ some-injective _ _ h) (
                change-Only k (IsHeld rule n) (IsHeld rule n) cleared (returned k given cs)
                  (λ c. cleared-IsHeld rule n c positive) back)
            | inr e ↦
                subst (Only k (IsHeld rule n)) (sym (if_false _ _ e) ∙ some-injective _ _ h) back
          ]

      pub settle_refunded-Only :
          (n now : ℕ) (given : Bool) (cs mid : Counters)
          → settle_outcome policy capacity refunded rule k now (returned k given cs) ≡ some mid
          → Only k (IsHeld rule n) cs
          → Only k (IsHeld rule n) mid
      unfolding settle_outcome
      settle_refunded-Only n now given cs mid h o =
          subst (Only k (IsHeld rule n)) (some-injective _ _ h) (returned-IsHeld n given cs o)

      -- Settling the key.
      pub settle_own-Only :
          (outcome : Outcome) (n now : ℕ) (given : Bool) (cs mid : Counters)
          → rule.limit + (n + uncovered outcome given (find_counter k cs)) < 2 ^ 32
          → settle_outcome policy capacity outcome rule k now (returned k given cs) ≡ some mid
          → Only k (IsHeld rule n) cs
          → Only k (IsHeld rule (n + uncovered outcome given (find_counter k cs))) mid
      settle_own-Only failed n now given cs mid fits h o =
          elim (Bool-cases (gives_back given (find_counter k cs))) [
            | inl e ↦
                let none_more : n ≡ n + uncovered failed given (find_counter k cs) =
                  sym (ap (λ u. n + u) (if_true 0 1 e) ∙ omega arith) in
                subst (λ m. Only k (IsHeld rule m) mid) none_more
                  (settle_failed-Only n now (returned k given cs) mid
                    (omega (arith, fits, none_more)) h (covered given e) (fresh-HasRoom n now))
            | inr e ↦
                let one_more : n + 1 ≡ n + uncovered failed given (find_counter k cs) =
                  sym (ap (λ u. n + u) (if_false 0 1 e)) in
                subst (λ m. Only k (IsHeld rule m) mid) one_more
                  (settle_failed-Only (n + 1) now (returned k given cs) mid
                    (omega (arith, fits, one_more)) h (bare given) (fresh-HasRoom (n + 1) now))
          ]
        where
          covered :
              (g : Bool)
              → gives_back g (find_counter k cs) ≡ true
              → Only k (HasRoom rule n) (returned k g cs)
          covered true e = elim (Option-cases (find_counter k cs)) [
            | inl f ↦ let bad = sym (ap (gives_back true) f) ∙ e in absurd (ground (arith, bad))
            | inr (c, f) ↦
                let more = sym (ap (gives_back true) f) ∙ e in
                let held = Only-find k (IsHeld rule n) cs c o f in
                change-Only k (λ d. IsHeld rule n d × (0 < d.pending)) (HasRoom rule n) given_back
                  cs (given_back-HasRoom rule n)
                  (Only-found k (IsHeld rule n) _ cs c o f (held, ground (arith, more)))
          ]
          covered false e = absurd (ground (arith, e))

          bare : (g : Bool) → Only k (HasRoom rule (n + 1)) (returned k g cs)
          bare true =
              change-Only k (IsHeld rule n) (HasRoom rule (n + 1)) given_back cs
                (λ c h. IsHeld-HasRoom rule n (given_back c) (given_back-IsHeld rule n c h)) o
          bare false = Only-weaken k (IsHeld rule n) _ cs (IsHeld-HasRoom rule n) o
      settle_own-Only succeeded n now given cs mid fits h o =
          let level : n ≡ n + 0 = omega arith in
          subst (λ m. Only k (IsHeld rule m) mid) level
            (settle_succeeded-Only n now given cs mid h o)
      settle_own-Only refunded n now given cs mid fits h o =
          let level : n ≡ n + 0 = omega arith in
          subst (λ m. Only k (IsHeld rule m) mid) level
            (settle_refunded-Only n now given cs mid h o)
