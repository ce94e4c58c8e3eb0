-- ===== src/Attachment/Targets.antt =====
-- The allocation of ports as a function of groups: `remap_targets` of
-- crates/gapura-core/src/translate/mod.rs.
use gapura.Prelude.{
  ℕ, ◌≡◌, ◌⊎◌, inl, inr, refl, ap, sym, ◌∙◌, true, false, not, List, [], ◌∷◌, Option, none, some,
  In, arith, Bool-cases, Option-cases, if_true, if_false,
}
use gapura.Snapshot.{Settings}
use gapura.Attachment.Ports.{
  RemapSlot, Group, group_of, target_of, pool_for, free_port, take_port, remap_on, remap_targets,
}
use gapura.Attachment.Allotment.{
  IsFree, IsNamed, declared_ports, IsKept, IsKept-open, IsKept-again, target_of_later,
  target_of-head,
}

abbrev port_of : Option (Option ℕ) → Option ℕ
port_of none = none
port_of (some t) = t

-- Each overridden slot has the port of its group, and every other slot keeps its own.
abbrev pub AllMoved : (Group → Option ℕ) → List RemapSlot → List (Option ℕ) → Type 0
AllMoved look [] [] = Unit
AllMoved look [] (t ∷ ts) = ⊥
AllMoved look (s ∷ slots) [] = ⊥
AllMoved look (s ∷ slots) (t ∷ ts) =
    ((s.overridden ≡ false → t ≡ none) × (s.overridden ≡ true → t ≡ look (group_of s)))
    × AllMoved look slots ts

-- Where groups go: to a port of their pool that no listener declares, each to one of its own.
pub record IsAllotment (settings : Settings) (all : List RemapSlot) (look : Group → Option ℕ)
    : Type 0 where
  pub free : (g : Group) (p : ℕ) → look g ≡ some p → IsFree settings all g p
  pub apart : (g k : Group) (p : ℕ) → look g ≡ some p → look k ≡ some p → g ≡ k

-- Whoever stays where it is finds its pool used up: by ports that listeners declare, and by those
-- that the groups of other overridden slots are moved to.
abbrev pub IsUsedUp : Settings → List RemapSlot → (Group → Option ℕ) → Group → Type 0
IsUsedUp settings all look g =
    (p : ℕ)
    → In p (pool_for settings g.https)
    → In p (declared_ports all)
      ⊎ ((s : RemapSlot) × In s all × (s.overridden ≡ true) × (look (group_of s) ≡ some p))

abbrev AllServed : List (Group × Option ℕ) → List RemapSlot → List (Option ℕ) → Type 0
AllServed groups [] [] = Unit
AllServed groups [] (t ∷ ts) = ⊥
AllServed groups (s ∷ slots) [] = ⊥
AllServed groups (s ∷ slots) (t ∷ ts) =
    ((s.overridden ≡ false → t ≡ none)
      × (s.overridden ≡ true → target_of (group_of s) groups ≡ some t))
    × AllServed groups slots ts

module _ (settings : Settings) (all : List RemapSlot) where
  record IsDone (groups : List (Group × Option ℕ)) (slots : List RemapSlot)
      (r : List (Option ℕ) × List (Group × Option ℕ)) : Type 0 where
    lasting : (g : Group) (t : Option ℕ) → target_of g groups ≡ some t → target_of g r.1 ≡ some t
    ended : (taken : List ℕ) × IsKept settings all taken r.1
    served : AllServed r.1 slots r.0

  remap_on-IsDone :
      (taken : List ℕ) (groups : List (Group × Option ℕ)) (slots : List RemapSlot)
      → IsKept settings all taken groups
      → ((s : RemapSlot) → In s slots → In s all)
      → IsDone groups slots (remap_on settings taken groups slots)
  unfolding remap_on
  remap_on-IsDone taken groups [] k within = record {
    lasting = λ g t e. e;
    ended = (taken, k);
    served = tt;
  }
  remap_on-IsDone taken groups (s ∷ slots) k within = elim (Bool-cases s.overridden) [
    | inr e ↦
        let rest = remap_on-IsDone taken groups slots k (λ x i. within x (inr i)) in
        rw (if_true _ _ (ap not e)) (record {
          lasting = rest.lasting;
          ended = rest.ended;
          served = ((λ h. refl, λ h. absurd (ground (arith, e, h))), rest.served);
        })
    | inl e ↦ elim (Option-cases (target_of (group_of s) groups)) [
      | inl f ↦
          let free = free_port settings taken s.https in
          let own : IsNamed settings all (group_of s) = (s, within s (inl refl), e, refl) in
          let opened = IsKept-open settings all taken groups (group_of s) k free own f refl in
          let rest =
            remap_on-IsDone (take_port free taken) ((group_of s, free) ∷ groups) slots opened
              (λ x i. within x (inr i)) in
          rw (if_false _ _ (ap not e), f)
            (record {
              lasting = λ g t h.
                  rest.lasting g t (target_of_later settings all g (group_of s) free t groups f h);
              ended = rest.ended;
              served = (
                (
                  λ h. absurd (ground (arith, e, h)),
                  λ h.
                      rest.lasting (group_of s) free
                        (target_of-head settings all (group_of s) free groups),
                ),
                rest.served,
              );
            })
      | inr (t, f) ↦
          let rest =
            remap_on-IsDone (take_port t taken) groups slots
              (IsKept-again settings all taken groups (group_of s) k t f)
              (λ x i. within x (inr i)) in
          rw (if_false _ _ (ap not e), f)
            (record {
              lasting = rest.lasting;
              ended = rest.ended;
              served = (
                (λ h. absurd (ground (arith, e, h)), λ h. rest.lasting (group_of s) t f),
                rest.served,
              );
            })
    ]
  ]

  port_of-some : (t : Option (Option ℕ)) (p : ℕ) → port_of t ≡ some p → t ≡ some (some p)
  port_of-some none p h = absurd (ground (arith, h))
  port_of-some (some t) p h = ap some h

  AllServed-AllMoved :
      (groups : List (Group × Option ℕ)) (slots : List RemapSlot) (targets : List (Option ℕ))
      → AllServed groups slots targets
      → AllMoved (λ g. port_of (target_of g groups)) slots targets
  AllServed-AllMoved groups [] [] h = tt
  AllServed-AllMoved groups [] (t ∷ ts) h = h
  AllServed-AllMoved groups (s ∷ slots) [] h = h
  AllServed-AllMoved groups (s ∷ slots) (t ∷ ts) h =
      ((h.0.0, λ e. sym (ap port_of (h.0.1 e))), AllServed-AllMoved groups slots ts h.1)

  AllServed-In :
      (groups : List (Group × Option ℕ)) (slots : List RemapSlot) (targets : List (Option ℕ))
      → AllServed groups slots targets
      → (s : RemapSlot) → In s slots
      → s.overridden ≡ true
      → (t : Option ℕ) × (target_of (group_of s) groups ≡ some t)
  AllServed-In groups [] targets h s i e = absurd i
  AllServed-In groups (x ∷ slots) [] h s i e = absurd h
  AllServed-In groups (x ∷ slots) (t ∷ ts) h s (inl j) e =
      (t, ap (λ y. target_of (group_of y) groups) j ∙ h.0.1 (ap (λ y. y.overridden) (sym j) ∙ e))
  AllServed-In groups (x ∷ slots) (t ∷ ts) h s (inr j) e = AllServed-In groups slots ts h.1 s j e

  IsKept-start : IsKept settings all (declared_ports all) []
  unfolding target_of
  IsKept-start = record {
    fresh = λ g p h. absurd (ground (arith, h));
    apart = λ g k p h j. absurd (ground (arith, h));
    kept = λ p i. i;
    met = λ p i. inl i;
    named = λ g t h. absurd (ground (arith, h));
    spent = λ g h p i. absurd (ground (arith, h));
  }

  module _ (taken : List ℕ) (groups : List (Group × Option ℕ))
      (k : IsKept settings all taken groups) where
    IsKept-IsAllotment : IsAllotment settings all (λ g. port_of (target_of g groups))
    IsKept-IsAllotment = record {
      free = λ g p h. (k.fresh g p (port_of-some _ p h)).0;
      apart = λ g j p h i. k.apart g j p (port_of-some _ p h) (port_of-some _ p i);
    }

    spent-IsUsedUp :
        (g : Group)
        → target_of g groups ≡ some none
        → IsUsedUp settings all (λ j. port_of (target_of j groups)) g
    spent-IsUsedUp g h p i = elim (k.met p (k.spent g h p i)) [
      | inl d ↦ inl d
      | inr (j, e) ↦
          let (s, i', own, same) = k.named j (some p) e in
          inr (s, i', own, ap (λ x. port_of (target_of x groups)) same ∙ ap port_of e)
    ]

-- The ports that the listeners of overridden Gateways are moved to are one for each Gateway,
-- protocol and declared port, of the pool of the protocol, declared by no listener and shared
-- with no other such group; where a group keeps its port its pool is used up, by declared ports
-- and by those that groups of overridden listeners are moved to; and every other listener keeps
-- its port.
pub remap_targets-IsAllotment :
    (slots : List RemapSlot) (settings : Settings)
    → (look : Group → Option ℕ) × IsAllotment settings slots look
      × AllMoved look slots (remap_targets slots settings)
      × ((s : RemapSlot)
          → In s slots
          → s.overridden ≡ true
          → look (group_of s) ≡ none
          → IsUsedUp settings slots look (group_of s))
unfolding remap_targets
remap_targets-IsAllotment slots settings =
    let declared = declared_ports slots in
    let done =
      remap_on-IsDone settings slots declared [] slots (IsKept-start settings slots) (λ s i. i) in
    let groups = (remap_on settings declared [] slots).1 in
    let (taken, k) = done.ended in
    (
      λ g. port_of (target_of g groups),
      IsKept-IsAllotment settings slots taken groups k,
      AllServed-AllMoved settings slots groups slots _ done.served,
      λ s i e h.
          let (t, f) = AllServed-In settings slots groups slots _ done.served s i e in
          spent-IsUsedUp settings slots taken groups k (group_of s)
            (f ∙ ap some (sym (ap port_of f) ∙ h)),
    )
