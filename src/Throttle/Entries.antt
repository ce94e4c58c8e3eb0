-- ===== src/Throttle/Entries.antt =====
-- What holds of the counter of one key in the map of crates/gapura-control/src/throttle.rs, as the
-- operations on the map change it.
use mathlib.Core.Option.{some-injective}
use gapura.Prelude.{
  ℕ, Bool, ◌≡◌, ◌≢◌, ◌↔◌, ◌⊎◌, inl, inr, refl, ap, sym, ◌∙◌, subst, true, false, not, ◌&&◌, leb,
  length, Option, none, some, [], ◌∷◌, All, arith, Bool-cases, Option-cases, if_true, if_false,
  and_then-eq-some, if◌then◌else◌,
}
use gapura.ClientIp.{same_ip_iff}
use gapura.Throttle.{
  Policy, Key, by_pair, by_address, same_key, rule_of, Counter, expired, Counters, find_counter,
  set_counter, remove_counter, change,
}
use gapura.Throttle.Attempts.{is_there, retain_live, make_room, holds_nothing, tidied}

pub same_key_iff : (a b : Key) → (same_key a b ≡ true) ↔ (a ≡ b)
same_key_iff (by_pair d a) (by_pair e b) = ground (arith, same_ip_iff a b)
same_key_iff (by_pair d a) (by_address b i) = ground arith
same_key_iff (by_address a i) (by_pair e b) = ground arith
same_key_iff (by_address a i) (by_address b j) = ground (arith, same_ip_iff a b)

pub key-cases : (a b : Key) → (a ≡ b) ⊎ (a ≢ b)
key-cases a b = elim (Bool-cases (same_key a b)) [
  | inl e ↦ inl ((same_key_iff a b).0 e)
  | inr e ↦ inr (λ q. let bad = (same_key_iff a b).1 q in ground (arith, e, bad))
]

pub same_key_refl : (k : Key) → same_key k k ≡ true
same_key_refl k = (same_key_iff k k).1 refl

pub differ : (a b : Key) → a ≢ b → same_key a b ≡ false
differ a b n = elim (Bool-cases (same_key a b)) [
  | inl e ↦ absurd (n ((same_key_iff a b).0 e))
  | inr e ↦ e
]

-- What `change` and `tidied` make of what they find.
abbrev changed : Key → (Counter → Counter) → Counters → Option Counter → Counters
changed k f cs none = cs
changed k f cs (some c) = set_counter k (f c) cs

abbrev cleaned : Key → Counters → Option Counter → Counters
cleaned k cs none = cs
cleaned k cs (some c) = if holds_nothing c then remove_counter k cs else cs

module _ (k : Key) where
  abbrev pub Without : Counters → Type 0
  Without cs = All (λ x. x.0 ≢ k) cs

  -- The key has one counter at most, and what is said holds of it.
  abbrev pub Only : (Counter → Type 0) → Counters → Type 0
  Only P [] = Unit
  Only P ((j, c) ∷ cs) = ((j ≢ k) × Only P cs) ⊎ ((j ≡ k) × P c × Without cs)

  module _ (P : Counter → Type 0) where
    pub Without-Only : (cs : Counters) → Without cs → Only P cs
    Without-Only [] w = tt
    Without-Only ((j, c) ∷ cs) w = inl (w.0, Without-Only cs w.1)

    pub Only-find : (cs : Counters) (c : Counter) → Only P cs → find_counter k cs ≡ some c → P c
    unfolding find_counter
    Only-find [] c o h = absurd (ground (arith, h))
    Only-find ((j, d) ∷ cs) c (inl (n, o)) h =
        Only-find cs c o (sym (if_false _ _ (differ j k n)) ∙ h)
    Only-find ((j, d) ∷ cs) c (inr (e, p, w)) h =
        let same : some d ≡ some c = sym (if_true _ _ ((same_key_iff j k).1 e)) ∙ h in
        subst P (some-injective _ _ same) p

    pub Only-none : (cs : Counters) → Only P cs → find_counter k cs ≡ none → Without cs
    unfolding find_counter
    Only-none [] o h = tt
    Only-none ((j, d) ∷ cs) (inl (n, o)) h =
        (n, Only-none cs o (sym (if_false _ _ (differ j k n)) ∙ h))
    Only-none ((j, d) ∷ cs) (inr (e, p, w)) h =
        let bad : some d ≡ none = sym (if_true _ _ ((same_key_iff j k).1 e)) ∙ h in
        absurd (ground (arith, bad))

    -- What holds of the counter that is found holds of all.
    pub Only-found :
        (Q : Counter → Type 0) (cs : Counters) (c : Counter)
        → Only P cs
        → find_counter k cs ≡ some c
        → Q c
        → Only Q cs
    unfolding find_counter
    Only-found Q [] c o h q = tt
    Only-found Q ((j, d) ∷ cs) c (inl (n, o)) h q =
        inl (n, Only-found Q cs c o (sym (if_false _ _ (differ j k n)) ∙ h) q)
    Only-found Q ((j, d) ∷ cs) c (inr (e, p, w)) h q =
        let same : some d ≡ some c = sym (if_true _ _ ((same_key_iff j k).1 e)) ∙ h in
        inr (e, subst Q (sym (some-injective _ _ same)) q, w)

    pub Only-weaken :
        (Q : Counter → Type 0) (cs : Counters) → ((c : Counter) → P c → Q c) → Only P cs → Only Q cs
    Only-weaken Q [] f o = tt
    Only-weaken Q ((j, c) ∷ cs) f (inl (n, o)) = inl (n, Only-weaken Q cs f o)
    Only-weaken Q ((j, c) ∷ cs) f (inr (e, p, w)) = inr (e, f c p, w)

    -- The key's counter is replaced.
    pub set_counter-Only :
        (Q : Counter → Type 0) (cs : Counters) (c : Counter)
        → Only P cs
        → Q c
        → Only Q (set_counter k c cs)
    unfolding set_counter
    set_counter-Only Q [] c o q = inr (refl, q, tt)
    set_counter-Only Q ((j, d) ∷ cs) c (inl (n, o)) q =
        subst (Only Q) (sym (if_false _ _ (differ j k n))) (inl (n, set_counter-Only Q cs c o q))
    set_counter-Only Q ((j, d) ∷ cs) c (inr (e, p, w)) q =
        subst (Only Q) (sym (if_true _ _ ((same_key_iff j k).1 e))) (inr (e, q, w))

    -- Another key's counter is replaced.
    set_other-Without :
        (j : Key) (c : Counter) (cs : Counters) → j ≢ k → Without cs → Without (set_counter j c cs)
    unfolding set_counter
    set_other-Without j c [] n w = (n, tt)
    set_other-Without j c ((i, d) ∷ cs) n w = elim (Bool-cases (same_key i j)) [
      | inl e ↦ subst Without (sym (if_true _ _ e)) w
      | inr e ↦ subst Without (sym (if_false _ _ e)) (w.0, set_other-Without j c cs n w.1)
    ]

    pub set_other-Only :
        (j : Key) (c : Counter) (cs : Counters) → j ≢ k → Only P cs → Only P (set_counter j c cs)
    unfolding set_counter
    set_other-Only j c [] n o = inl (n, tt)
    set_other-Only j c ((i, d) ∷ cs) n o = elim (Bool-cases (same_key i j)) [
      | inl e ↦
          let other : i ≢ k = λ q. n (sym ((same_key_iff i j).0 e) ∙ q) in
          subst (Only P) (sym (if_true _ _ e))
            (elim o [ inl (m, o') ↦ inl (other, o') | inr (same, _, _) ↦ absurd (other same) ])
      | inr e ↦ subst (Only P) (sym (if_false _ _ e)) (elim o [
        | inl (m, o') ↦ inl (m, set_other-Only j c cs n o')
        | inr (same, p, w) ↦ inr (same, p, set_other-Without j c cs n w)
      ])
    ]

  module _ (P : Counter → Type 0) where
    pub change-Only :
        (Q : Counter → Type 0) (f : Counter → Counter) (cs : Counters)
        → ((c : Counter) → P c → Q (f c))
        → Only P cs
        → Only Q (change k f cs)
    change-Only Q f cs g o = elim (Option-cases (find_counter k cs)) [
      | inl e ↦
          subst (λ x. Only Q (changed k f cs x)) (sym e) (Without-Only Q cs (Only-none P cs o e))
      | inr (c, e) ↦
          subst (λ x. Only Q (changed k f cs x)) (sym e)
            (set_counter-Only P Q cs (f c) o (g c (Only-find P cs c o e)))
    ]

    pub change_other-Only :
        (j : Key) (f : Counter → Counter) (cs : Counters)
        → j ≢ k
        → Only P cs
        → Only P (change j f cs)
    change_other-Only j f cs n o = elim (Option-cases (find_counter j cs)) [
      | inl e ↦ subst (λ x. Only P (changed j f cs x)) (sym e) o
      | inr (c, e) ↦
          subst (λ x. Only P (changed j f cs x)) (sym e) (set_other-Only P j (f c) cs n o)
    ]

  -- Counters are removed, whichever.
  remove_counter-Without : (j : Key) (cs : Counters) → Without cs → Without (remove_counter j cs)
  unfolding remove_counter
  remove_counter-Without j [] w = tt
  remove_counter-Without j ((i, c) ∷ cs) w = elim (Bool-cases (same_key i j)) [
    | inl e ↦ subst Without (sym (if_true _ _ e)) (remove_counter-Without j cs w.1)
    | inr e ↦ subst Without (sym (if_false _ _ e)) (w.0, remove_counter-Without j cs w.1)
  ]

  remove_counter-Only :
      (P : Counter → Type 0) (j : Key) (cs : Counters) → Only P cs → Only P (remove_counter j cs)
  unfolding remove_counter
  remove_counter-Only P j [] o = tt
  remove_counter-Only P j ((i, c) ∷ cs) o = elim (Bool-cases (same_key i j)) [
    | inl e ↦ subst (Only P) (sym (if_true _ _ e)) (elim o [
      | inl (n, o') ↦ remove_counter-Only P j cs o'
      | inr (same, p, w) ↦ Without-Only P _ (remove_counter-Without j cs w)
    ])
    | inr e ↦ subst (Only P) (sym (if_false _ _ e)) (elim o [
      | inl (n, o') ↦ inl (n, remove_counter-Only P j cs o')
      | inr (same, p, w) ↦ inr (same, p, remove_counter-Without j cs w)
    ])
  ]

  pub tidied-Only :
      (P : Counter → Type 0) (j : Key) (cs : Counters) → Only P cs → Only P (tidied j cs)
  unfolding tidied
  tidied-Only P j cs o = elim (Option-cases (find_counter j cs)) [
    | inl e ↦ subst (λ x. Only P (cleaned j cs x)) (sym e) o
    | inr (c, e) ↦ elim (Bool-cases (holds_nothing c)) [
      | inl f ↦
          subst (λ x. Only P (cleaned j cs x)) (sym e)
            (subst (Only P) (sym (if_true _ _ f)) (remove_counter-Only P j cs o))
      | inr f ↦
          subst (λ x. Only P (cleaned j cs x)) (sym e) (subst (Only P) (sym (if_false _ _ f)) o)
    ]
  ]

  module _ (policy : Policy) (now : ℕ) where
    -- What the sweep makes of one counter.
    retain_live-cons :
        (j : Key) (c : Counter) (cs out : Counters)
        → retain_live policy now ((j, c) ∷ cs) ≡ some out
        → (rest : Counters) × (retain_live policy now cs ≡ some rest)
          × ((out ≡ rest) ⊎ (out ≡ (j, c) ∷ rest))
    unfolding retain_live
    retain_live-cons j c cs out h =
        let (rule, e, f) = and_then-eq-some (rule_of policy j) _ h in
        let (rest, e', f') = and_then-eq-some (retain_live policy now cs) _ f in
        let same = some-injective _ _ f' in
        (
          rest,
          e',
          elim (Bool-cases (expired rule now c)) [
            | inl g ↦ inl (sym same ∙ if_true _ _ g)
            | inr g ↦ inr (sym same ∙ if_false _ _ g)
          ],
        )

    retain_live-Without :
        (cs out : Counters) → retain_live policy now cs ≡ some out → Without cs → Without out
    retain_live-Without [] out h w =
        let e : [] ≡ out = unfold retain_live in some-injective _ _ h in subst Without e tt
    retain_live-Without ((j, c) ∷ cs) out h w =
        let (rest, e, f) = retain_live-cons j c cs out h in
        let below = retain_live-Without cs rest e w.1 in
        elim f [
          | inl same ↦ subst Without (sym same) below
          | inr same ↦ subst Without (sym same) (w.0, below)
        ]

    pub retain_live-Only :
        (P : Counter → Type 0) (cs out : Counters)
        → retain_live policy now cs ≡ some out
        → Only P cs
        → Only P out
    retain_live-Only P [] out h o =
        let e : [] ≡ out = unfold retain_live in some-injective _ _ h in subst (Only P) e tt
    retain_live-Only P ((j, c) ∷ cs) out h o =
        let (rest, e, f) = retain_live-cons j c cs out h in
        elim o [
          | inl (n, o') ↦
              let below = retain_live-Only P cs rest e o' in
              elim f [
                | inl same ↦ subst (Only P) (sym same) below
                | inr same ↦ subst (Only P) (sym same) (inl (n, below))
              ]
          | inr (same_key, p, w) ↦
              let below = retain_live-Without cs rest e w in
              elim f [
                | inl same ↦ subst (Only P) (sym same) (Without-Only P rest below)
                | inr same ↦ subst (Only P) (sym same) (inr (same_key, p, below))
              ]
        ]

    pub make_room-Only :
        (P : Counter → Type 0) (capacity : ℕ) (j : Key) (cs : Counters) (r : Bool × Counters)
        → make_room policy capacity j now cs ≡ some r
        → Only P cs
        → Only P r.1
    unfolding make_room
    make_room-Only P capacity j cs r h o =
        elim (Bool-cases (not (is_there j cs) && leb capacity (length cs))) [
          | inl e ↦
              let (kept, f, g) =
                and_then-eq-some (retain_live policy now cs) _ (sym (if_true _ _ e) ∙ h) in
              subst (Only P) (ap (λ x. x.1) (some-injective _ _ g)) (retain_live-Only P cs kept f o)
          | inr e ↦ subst (Only P) (ap (λ x. x.1) (some-injective _ _ (sym (if_false _ _ e) ∙ h))) o
        ]
