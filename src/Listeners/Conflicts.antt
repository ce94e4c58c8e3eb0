-- ===== src/Listeners/Conflicts.antt =====
-- What `detect_conflicts` of crates/gapura-core/src/translate/listeners.rs finds.
use gapura.Prelude.{
  ◌≢◌, ==_iff, text_eq_refl, ℕ, zero, suc, ◌==◌, ◌≤◌, ◌≡◌, ◌⊎◌, inl, inr, refl, ap, ap₂, sym, ◌∙◌,
  subst, true, List, [], ◌∷◌, Option, none, some, Text, All, All-weaken, arith, length, Bool-cases,
  Option-cases,
}
use gapura.Config.{Protocol, http, https}
use gapura.Listeners.{Rejection, ListenerBuild}
use gapura.Listeners.Building.{
  protocol_eq, hostname_eq, clash, insert_conflict, mark_pair, mark_with, detect_on,
  detect_conflicts,
}

abbrev with_conflict : Option Rejection → ListenerBuild → ListenerBuild
with_conflict c a = record a { conflict = c }

-- The same listener, but for a conflict, which stays once it is found.
pub record IsMarked (a b : ListenerBuild) : Type 0 where
  pub same : b ≡ with_conflict b.conflict a
  pub stays : b.conflict ≡ none → a.conflict ≡ none

IsMarked-refl : (a : ListenerBuild) → IsMarked a a
IsMarked-refl a = record { same = refl; stays = λ e. e }

IsMarked-trans : (a b c : ListenerBuild) → IsMarked a b → IsMarked b c → IsMarked a c
IsMarked-trans a b c p q = record {
  same = q.same ∙ ap (with_conflict c.conflict) p.same;
  stays = λ e. p.stays (q.stays e);
}

insert_conflict-IsMarked : (r : Rejection) (a : ListenerBuild) → IsMarked a (insert_conflict r a)
unfolding insert_conflict
insert_conflict-IsMarked r a = record { same = refl; stays = λ e. ground (arith, e) }

insert_conflict-some :
    (r : Rejection) (a : ListenerBuild) → ¬ ((insert_conflict r a).conflict ≡ none)
unfolding insert_conflict
insert_conflict-some r a e = elim (Option-cases a.conflict) [
  | inl q ↦ absurd (ground (arith, e, q))
  | inr (x, q) ↦ absurd (ground (arith, e, q))
]

-- Two listeners that clash are not both without a conflict.
abbrev pub IsApart : ListenerBuild → ListenerBuild → Type 0
IsApart a b = a.conflict ≡ none → b.conflict ≡ none → clash a b ≡ none

clash-IsMarked :
    (a b a' b' : ListenerBuild) → IsMarked a a' → IsMarked b b' → clash a b ≡ clash a' b'
unfolding clash
clash-IsMarked a b a' b' p q = sym (ap₂ clash p.same q.same)

IsApart-IsMarked :
    (a b a' b' : ListenerBuild) → IsMarked a a' → IsMarked b b' → IsApart a b → IsApart a' b'
IsApart-IsMarked a b a' b' p q apart e f =
    sym (clash-IsMarked a b a' b' p q) ∙ apart (p.stays e) (q.stays f)

mark_pair-IsMarked :
    (o : Option Rejection) (a b : ListenerBuild)
    → IsMarked a (mark_pair o a b).0 × IsMarked b (mark_pair o a b).1
mark_pair-IsMarked none a b = (IsMarked-refl a, IsMarked-refl b)
mark_pair-IsMarked (some r) a b = (insert_conflict-IsMarked r a, insert_conflict-IsMarked r b)

mark_pair-IsApart :
    (a b : ListenerBuild) (o : Option Rejection)
    → clash a b ≡ o
    → IsApart (mark_pair o a b).0 (mark_pair o a b).1
mark_pair-IsApart a b none h = λ e f. h
mark_pair-IsApart a b (some r) h = λ e f. absurd (insert_conflict-some r a e)

-- Two lists of the same listeners, one by one.
abbrev pub AllMarked : List ListenerBuild → List ListenerBuild → Type 0
AllMarked [] [] = Unit
AllMarked [] (b ∷ bs) = ⊥
AllMarked (a ∷ cs) [] = ⊥
AllMarked (a ∷ cs) (b ∷ bs) = IsMarked a b × AllMarked cs bs

AllMarked-refl : (bs : List ListenerBuild) → AllMarked bs bs
AllMarked-refl [] = tt
AllMarked-refl (b ∷ bs) = (IsMarked-refl b, AllMarked-refl bs)

AllMarked-trans :
    (cs bs ds : List ListenerBuild) → AllMarked cs bs → AllMarked bs ds → AllMarked cs ds
AllMarked-trans [] [] [] p q = tt
AllMarked-trans [] [] (d ∷ ds) p q = q
AllMarked-trans [] (b ∷ bs) ds p q = absurd p
AllMarked-trans (c ∷ cs) [] ds p q = absurd p
AllMarked-trans (c ∷ cs) (b ∷ bs) [] p q = q
AllMarked-trans (c ∷ cs) (b ∷ bs) (d ∷ ds) p q =
    (IsMarked-trans c b d p.0 q.0, AllMarked-trans cs bs ds p.1 q.1)

length-AllMarked : (cs bs : List ListenerBuild) → AllMarked cs bs → length cs ≡ length bs
length-AllMarked [] [] p = refl
length-AllMarked [] (b ∷ bs) p = absurd p
length-AllMarked (c ∷ cs) [] p = absurd p
length-AllMarked (c ∷ cs) (b ∷ bs) p = omega (arith, length-AllMarked cs bs p.1)

IsApart-AllMarked :
    (a : ListenerBuild) (cs bs : List ListenerBuild)
    → AllMarked cs bs
    → All (IsApart a) cs
    → All (IsApart a) bs
IsApart-AllMarked a [] [] p h = tt
IsApart-AllMarked a [] (b ∷ bs) p h = absurd p
IsApart-AllMarked a (c ∷ cs) [] p h = absurd p
IsApart-AllMarked a (c ∷ cs) (b ∷ bs) p h =
    (IsApart-IsMarked a c a b (IsMarked-refl a) p.0 h.0, IsApart-AllMarked a cs bs p.1 h.1)

-- What one pass does.
record IsCompared (a : ListenerBuild) (bs : List ListenerBuild) (a' : ListenerBuild)
    (bs' : List ListenerBuild) : Type 0 where
  pub first : IsMarked a a'
  pub rest : AllMarked bs bs'
  pub apart : All (IsApart a') bs'

mark_with-IsCompared :
    (a : ListenerBuild) (bs : List ListenerBuild)
    → IsCompared a bs (mark_with a bs).0 (mark_with a bs).1
unfolding mark_with
mark_with-IsCompared a [] = record { first = IsMarked-refl a; rest = tt; apart = tt }
mark_with-IsCompared a (b ∷ bs) =
    let (p, q) = mark_pair-IsMarked (clash a b) a b in
    let a' = (mark_pair (clash a b) a b).0 in
    let b' = (mark_pair (clash a b) a b).1 in
    let x = mark_with-IsCompared a' bs in
    let both =
      IsApart-IsMarked a' b' _ b' x.first (IsMarked-refl b')
        (mark_pair-IsApart a b (clash a b) refl) in
    record { first = IsMarked-trans a a' _ p x.first; rest = (q, x.rest); apart = (both, x.apart) }

abbrev pub ArePairwise : List ListenerBuild → Type 0
ArePairwise [] = Unit
ArePairwise (a ∷ bs) = All (IsApart a) bs × ArePairwise bs

detect_on_enough :
    (fuel : ℕ) (bs : List ListenerBuild)
    → length bs ≤ fuel
    → AllMarked bs (detect_on fuel bs) × ArePairwise (detect_on fuel bs)
unfolding detect_on
detect_on_enough fuel [] enough = (tt, tt)
detect_on_enough zero (a ∷ bs) enough = absurd (omega arith)
detect_on_enough (suc fuel) (a ∷ bs) enough =
    let x = mark_with-IsCompared a bs in
    let bs' = (mark_with a bs).1 in
    let same = length-AllMarked bs bs' x.rest in
    let (marked, pairwise) = detect_on_enough fuel bs' (omega (arith, same)) in
    (
      (x.first, AllMarked-trans bs bs' _ x.rest marked),
      (IsApart-AllMarked _ bs' _ marked x.apart, pairwise),
    )

-- Two listeners that can both be served.
abbrev pub IsCompatible : ListenerBuild → ListenerBuild → Type 0
IsCompatible a b = (a.port ≢ b.port) ⊎ ((a.protocol ≡ b.protocol) × (a.hostname ≢ b.hostname))

pub protocol_eq→eq : (p q : Option Protocol) → protocol_eq p q ≡ true → p ≡ q
protocol_eq→eq none none h = refl
protocol_eq→eq none (some q) h = absurd (ground arith)
protocol_eq→eq (some p) none h = absurd (ground arith)
protocol_eq→eq (some http) (some http) h = refl
protocol_eq→eq (some http) (some https) h = absurd (ground arith)
protocol_eq→eq (some https) (some http) h = absurd (ground arith)
protocol_eq→eq (some https) (some https) h = refl

hostname_eq_refl : (h : Option Text) → hostname_eq h h ≡ true
hostname_eq_refl none = refl
hostname_eq_refl (some h) = text_eq_refl h

clash-IsCompatible : (a b : ListenerBuild) → clash a b ≡ none → IsCompatible a b
unfolding clash
clash-IsCompatible a b h = elim (Bool-cases (a.port == b.port)) [
  | inr apart ↦ inl (λ e. absurd (ground (arith, apart, (==_iff a.port b.port).1 e)))
  | inl shared ↦ elim (Bool-cases (protocol_eq a.protocol b.protocol)) [
    | inr differ ↦ absurd (ground (arith, rw (shared, differ) at h))
    | inl same ↦ elim (Bool-cases (hostname_eq a.hostname b.hostname)) [
      | inl e ↦ absurd (ground (arith, rw (shared, same, e) at h))
      | inr e ↦ inr (
        protocol_eq→eq a.protocol b.protocol same,
        λ q. absurd (
            ground (
              arith,
              e,
              subst (λ x. hostname_eq a.hostname x ≡ true) q (hostname_eq_refl a.hostname),
            )),
      )
    ]
  ]
]

-- Of every two listeners, in their order, that have no conflict.
abbrev pub AreCompatible : List ListenerBuild → Type 0
AreCompatible [] = Unit
AreCompatible (a ∷ bs) =
    All (λ b. a.conflict ≡ none → b.conflict ≡ none → IsCompatible a b) bs × AreCompatible bs

ArePairwise-AreCompatible : (bs : List ListenerBuild) → ArePairwise bs → AreCompatible bs
ArePairwise-AreCompatible [] p = tt
ArePairwise-AreCompatible (a ∷ bs) p = (
  All-weaken _ _ bs (λ b h e f. clash-IsCompatible a b (h e f)) p.0,
  ArePairwise-AreCompatible bs p.1,
)

-- Listeners without a clash among them.
abbrev pub AreQuiet : List ListenerBuild → Type 0
AreQuiet [] = Unit
AreQuiet (a ∷ bs) = All (λ b. clash a b ≡ none) bs × AreQuiet bs

mark_with_quiet :
    (a : ListenerBuild) (bs : List ListenerBuild)
    → All (λ b. clash a b ≡ none) bs
    → mark_with a bs ≡ (a, bs)
unfolding mark_with
mark_with_quiet a [] h = refl
mark_with_quiet a (b ∷ bs) h = rw h.0 (rw (mark_with_quiet a bs h.1) refl)

detect_on_quiet : (fuel : ℕ) (bs : List ListenerBuild) → AreQuiet bs → detect_on fuel bs ≡ bs
unfolding detect_on
detect_on_quiet fuel [] quiet = refl
detect_on_quiet zero (a ∷ bs) quiet = refl
detect_on_quiet (suc fuel) (a ∷ bs) quiet =
    rw (mark_with_quiet a bs quiet.0) (ap (λ r. a ∷ r) (detect_on_quiet fuel bs quiet.1))

-- Nothing of a listener changes but its conflict, and none that was there is taken back; of two
-- listeners that have no conflict, those on one port have the same protocol and different
-- hostnames; and listeners that do not clash are left as they are.
pub detect_conflicts-AreCompatible :
    (bs : List ListenerBuild)
    → AllMarked bs (detect_conflicts bs)
      × AreCompatible (detect_conflicts bs)
      × (AreQuiet bs → detect_conflicts bs ≡ bs)
detect_conflicts-AreCompatible bs =
    let (marked, pairwise) = detect_on_enough (length bs) bs (omega arith) in
    (marked, ArePairwise-AreCompatible _ pairwise, λ quiet. detect_on_quiet (length bs) bs quiet)
