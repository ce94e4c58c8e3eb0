-- ===== src/Attachment/Allotment.antt =====
-- Which ports overridden Gateways are moved to: `remap_targets` of
-- crates/gapura-core/src/translate/mod.rs.
use gapura.Prelude.{
  ℕ, ◌==◌, ◌≡◌, ◌⊎◌, inl, inr, refl, ap, sym, ◌∙◌, subst, Bool, true, false, not, List, ◌∷◌, map,
  Option, none, some, text_eq_iff, text_eq_refl, In, any→In, In→any, find→In, find-none, arith,
  ==_iff, and-eq-true_iff, Bool-cases, if_true, if_false,
}
use gapura.Snapshot.{Settings}
use gapura.Attachment.Ports.{
  RemapSlot, Group, group_of, same_bool, same_group, target_of, pool_for, is_taken, free_port,
  take_port,
}

same_bool_eq : (a b : Bool) → same_bool a b ≡ true → a ≡ b
same_bool_eq true true h = refl
same_bool_eq true false h = absurd (ground arith)
same_bool_eq false true h = absurd (ground arith)
same_bool_eq false false h = refl

same_group_eq : (a b : Group) → same_group a b ≡ true → a ≡ b
unfolding same_group
same_group_eq a b h =
    let (e, rest) = (and-eq-true_iff _ _).0 h in
    let (f, g) = (and-eq-true_iff _ _).0 rest in
    ap (λ x. record { gateway = x; https = a.https; port = a.port }) ((text_eq_iff _ _).0 e)
    ∙ ap (λ x. record { gateway = b.gateway; https = x; port = a.port }) (same_bool_eq _ _ f)
    ∙ ap (λ x. record { gateway = b.gateway; https = b.https; port = x }) ((==_iff _ _).0 g)

same_bool_refl : (b : Bool) → same_bool b b ≡ true
same_bool_refl true = refl
same_bool_refl false = refl

same_group_refl : (g : Group) → same_group g g ≡ true
unfolding same_group
same_group_refl g =
    (and-eq-true_iff _ _).1
      (text_eq_refl g.gateway, (and-eq-true_iff _ _).1 (same_bool_refl g.https, ground arith))

module _ (settings : Settings) (taken : List ℕ) (secure : Bool) where
  free_port-some :
      (p : ℕ)
      → free_port settings taken secure ≡ some p
      → In p (pool_for settings secure) × ¬ In p taken
  unfolding free_port
  free_port-some p h =
      let (i, e) = find→In (λ q. not (is_taken taken q)) (pool_for settings secure) p h in
      (
        i,
        λ j.
            let bad : is_taken taken p ≡ true = In→any (λ q. p == q) p taken j (ground arith) in
            ground (arith, e, bad),
      )

  free_port-none :
      free_port settings taken secure ≡ none
      → (p : ℕ) → In p (pool_for settings secure)
      → In p taken
  unfolding free_port
  free_port-none h p i =
      let e = find-none (λ q. not (is_taken taken q)) p (pool_for settings secure) h i in
      let found : is_taken taken p ≡ true = ground (arith, e) in
      let (q, j, f) = any→In (λ q. p == q) taken found in
      subst (λ x. In x taken) (sym ((==_iff p q).0 f)) j

-- The ports that listeners declare.
abbrev pub declared_ports : List RemapSlot → List ℕ
declared_ports slots = map (λ s. s.port) slots

module _ (settings : Settings) (all : List RemapSlot) where
  -- A group that an overridden slot is of.
  abbrev pub IsNamed : Group → Type 0
  IsNamed g = (s : RemapSlot) × In s all × (s.overridden ≡ true) × (group_of s ≡ g)

  -- A port that a group may be given.
  abbrev pub IsFree : Group → ℕ → Type 0
  IsFree g p = In p (pool_for settings g.https) × ¬ In p (declared_ports all)

  -- What the loop keeps: its groups are those of overridden slots and hold free ports, each its own, and the ports that are taken
  -- are the declared ones and those of the groups.
  pub record IsKept (taken : List ℕ) (groups : List (Group × Option ℕ)) : Type 0 where
    pub fresh : (g : Group) (p : ℕ) → target_of g groups ≡ some (some p) → IsFree g p × In p taken
    pub apart :
        (g k : Group) (p : ℕ)
        → target_of g groups ≡ some (some p)
        → target_of k groups ≡ some (some p)
        → g ≡ k
    pub kept : (p : ℕ) → In p (declared_ports all) → In p taken
    pub met :
        (p : ℕ)
        → In p taken
        → In p (declared_ports all) ⊎ ((g : Group) × (target_of g groups ≡ some (some p)))
    pub named : (g : Group) (t : Option ℕ) → target_of g groups ≡ some t → IsNamed g
    pub spent :
        (g : Group)
        → target_of g groups ≡ some none
        → (p : ℕ) → In p (pool_for settings g.https)
        → In p taken

  target_of-cons :
      (g k : Group) (t : Option ℕ) (groups : List (Group × Option ℕ))
      → ((g ≡ k) × (target_of g ((k, t) ∷ groups) ≡ some t))
        ⊎ (target_of g ((k, t) ∷ groups) ≡ target_of g groups)
  unfolding target_of
  target_of-cons g k t groups = elim (Bool-cases (same_group k g)) [
    | inl e ↦ inl (sym (same_group_eq k g e), if_true _ _ e)
    | inr e ↦ inr (if_false _ _ e)
  ]

  pub target_of-head :
      (g : Group) (t : Option ℕ) (groups : List (Group × Option ℕ))
      → target_of g ((g, t) ∷ groups) ≡ some t
  unfolding target_of
  target_of-head g t groups = if_true _ _ (same_group_refl g)

  -- A new group hides no other.
  pub target_of_later :
      (g k : Group) (t s : Option ℕ) (groups : List (Group × Option ℕ))
      → target_of k groups ≡ none
      → target_of g groups ≡ some s
      → target_of g ((k, t) ∷ groups) ≡ some s
  target_of_later g k t s groups fresh h = elim (target_of-cons g k t groups) [
    | inl (e, _) ↦
        let bad : none ≡ some s = sym fresh ∙ ap (λ x. target_of x groups) (sym e) ∙ h in
        absurd (ground (arith, bad))
    | inr e ↦ e ∙ h
  ]

  same_target : (t s : Option ℕ) → some t ≡ some s → t ≡ s
  same_target t s h = ground (arith, h)

  target_of_either :
      (g k : Group) (t s : Option ℕ) (groups : List (Group × Option ℕ))
      → target_of g ((k, t) ∷ groups) ≡ some s
      → ((g ≡ k) × (t ≡ s)) ⊎ (target_of g groups ≡ some s)
  target_of_either g k t s groups h = elim (target_of-cons g k t groups) [
    | inl (e, f) ↦ inl (e, same_target t s (sym f ∙ h))
    | inr e ↦ inr (sym e ∙ h)
  ]

  same_port : (p q : ℕ) → some p ≡ some q → p ≡ q
  same_port p q h = ground (arith, h)

  module _ (taken : List ℕ) (groups : List (Group × Option ℕ)) (g : Group)
      (k : IsKept taken groups) where
    named_later :
        (t : Option ℕ)
        → IsNamed g
        → (h : Group) (s : Option ℕ) → target_of h ((g, t) ∷ groups) ≡ some s
        → IsNamed h
    named_later t own h s e = elim (target_of_either h g t s groups e) [
      | inl (same, f) ↦ subst (λ x. IsNamed x) (sym same) own
      | inr f ↦ k.named h s f
    ]

    -- A group for which a port is free.
    IsKept-some :
        (free : ℕ)
        → IsNamed g
        → target_of g groups ≡ none
        → In free (pool_for settings g.https)
        → ¬ In free taken
        → IsKept (free ∷ taken) ((g, some free) ∷ groups)
    IsKept-some free own unmet pooled untaken = record {
      fresh = λ h p e. elim (target_of_either h g (some free) (some p) groups e) [
        | inl (same, f) ↦
            rw (same, ← same_port free p f) ((pooled, λ j. untaken (k.kept free j)), inl refl)
        | inr f ↦ let (a, b) = k.fresh h p f in (a, inr b)
      ];
      apart = λ h j p e f. elim (target_of_either h g (some free) (some p) groups e) [
        | inl (same, e') ↦ elim (target_of_either j g (some free) (some p) groups f) [
          | inl (same', f') ↦ same ∙ sym same'
          | inr f' ↦
              absurd
                (untaken (subst (λ q. In q taken) (sym (same_port free p e')) (k.fresh j p f').1))
        ]
        | inr e' ↦ elim (target_of_either j g (some free) (some p) groups f) [
          | inl (same', f') ↦
              absurd
                (untaken (subst (λ q. In q taken) (sym (same_port free p f')) (k.fresh h p e').1))
          | inr f' ↦ k.apart h j p e' f'
        ]
      ];
      kept = λ p i. inr (k.kept p i);
      met = λ p i. elim i [
        | inl same ↦
            inr (g, target_of-head g (some free) groups ∙ ap (λ q. some (some q)) (sym same))
        | inr j ↦ elim (k.met p j) [
          | inl d ↦ inl d
          | inr (h, e) ↦ inr (h, target_of_later h g (some free) (some p) groups unmet e)
        ]
      ];
      named = named_later (some free) own;
      spent = λ h e p i. elim (target_of_either h g (some free) none groups e) [
        | inl (same, f) ↦ absurd (ground (arith, f))
        | inr f ↦ inr (k.spent h f p i)
      ];
    }

    -- A group for which none is.
    IsKept-none :
        IsNamed g
        → target_of g groups ≡ none
        → ((p : ℕ) → In p (pool_for settings g.https) → In p taken)
        → IsKept taken ((g, none) ∷ groups)
    IsKept-none own unmet full = record {
      fresh = λ h p e. elim (target_of_either h g none (some p) groups e) [
        | inl (same, f) ↦ absurd (ground (arith, f))
        | inr f ↦ k.fresh h p f
      ];
      apart = λ h j p e f. elim (target_of_either h g none (some p) groups e) [
        | inl (same, e') ↦ absurd (ground (arith, e'))
        | inr e' ↦ elim (target_of_either j g none (some p) groups f) [
          | inl (same', f') ↦ absurd (ground (arith, f'))
          | inr f' ↦ k.apart h j p e' f'
        ]
      ];
      kept = k.kept;
      met = λ p i. elim (k.met p i) [
        | inl d ↦ inl d
        | inr (h, e) ↦ inr (h, target_of_later h g none (some p) groups unmet e)
      ];
      named = named_later none own;
      spent = λ h e p i. elim (target_of_either h g none none groups e) [
        | inl (same, f) ↦ full p (subst (λ x. In p (pool_for settings x.https)) same i)
        | inr f ↦ k.spent h f p i
      ];
    }

    pub IsKept-open :
        (t : Option ℕ)
        → IsNamed g
        → target_of g groups ≡ none
        → free_port settings taken g.https ≡ t
        → IsKept (take_port t taken) ((g, t) ∷ groups)
    IsKept-open none own unmet e = IsKept-none own unmet (free_port-none settings taken g.https e)
    IsKept-open (some free) own unmet e =
        let (pooled, untaken) = free_port-some settings taken g.https free e in
        IsKept-some free own unmet pooled untaken

    -- A group that has been met before.
    pub IsKept-again :
        (t : Option ℕ) → target_of g groups ≡ some t → IsKept (take_port t taken) groups
    IsKept-again none e = k
    IsKept-again (some q) e = record {
      fresh = λ h p f. let (a, b) = k.fresh h p f in (a, inr b);
      apart = k.apart;
      kept = λ p i. inr (k.kept p i);
      met = λ p i. elim i [
        | inl same ↦ inr (g, e ∙ ap (λ x. some (some x)) (sym same))
        | inr j ↦ k.met p j
      ];
      named = k.named;
      spent = λ h f p i. inr (k.spent h f p i);
    }
