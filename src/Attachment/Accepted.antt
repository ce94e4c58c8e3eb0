-- ===== src/Attachment/Accepted.antt =====
-- What the loop over a Gateway's listeners leaves behind, and what the route is told:
-- `attach_to_gateway` and `accepted_condition` of crates/gapura-core/src/translate/routes.rs.
use gapura.Prelude.{
  ℕ, ℤ, suc, ◌+◌, ◌<◌, ◌≡◌, ◌↔◌, ◌⊎◌, inl, inr, refl, sym, ◌∙◌, subst, true, List, [], ◌∷◌, Option,
  none, some, Text, text_eq, text_eq_iff, text_eq_refl, In, any→In, In→any, arith, Bool-cases, ok,
}
use gapura.Snapshot.{true_, among}
use gapura.Listeners.{ListenerBuild}
use gapura.Attachment.{
  Outcome, Compiled, Progress, Attaching, no_outcome, count, key_of, join, yield_to_siblings,
  attach_listener, attach_from, attach_to_gateway,
}
use gapura.Attachment.Added.{IsAdded, attached_to-IsAdded}
use gapura.Attachment.Attached.{
  Takes, Passed, other, refused, apart, left, taken, attach_listener-Passed,
}
use gapura.Attachment.Status.{accepted_condition}

among-In : (k : Text) (ks : List Text) → among k ks ≡ true → In k ks
among-In k ks h =
    let (y, i, e) = any→In (λ y. text_eq y k) ks h in subst (λ z. In z ks) ((text_eq_iff y k).0 e) i

In-among : (k : Text) (ks : List Text) → In k ks → among k ks ≡ true
In-among k ks i = In→any (λ y. text_eq y k) k ks i (text_eq_refl k)

inner : (hs ks : List Text) → some hs ≡ some ks → hs ≡ ks
inner hs ks h = ground (arith, h)

module _ (x : Attaching) where
  -- What becomes of a listener, and of the keys that are attached before it. One that the route is
  -- not added to does not take it, or its key is attached already.
  abbrev pub IsChanged : List Text → ℕ → ListenerBuild → ListenerBuild → List Text → Type 0
  IsChanged before i l l' after =
      ((l' ≡ l)
        × (after ≡ before)
        × ((kept : List Text) → Takes x i l kept → In (key_of x l) before))
      ⊎ ((kept : List Text) × Takes x i l kept
          × IsAdded x kept l l'
          × ¬ In (key_of x l) before
          × (after ≡ key_of x l ∷ before))

  abbrev pub AllChanged :
      List Text → ℕ → List ListenerBuild → List ListenerBuild → List Text → Type 0
  AllChanged before i [] [] after = after ≡ before
  AllChanged before i [] (l' ∷ ls') after = ⊥
  AllChanged before i (l ∷ ls) [] after = ⊥
  AllChanged before i (l ∷ ls) (l' ∷ ls') after =
      (next : List Text) × IsChanged before i l l' next × AllChanged next (suc i) ls ls' after

  -- Some listener takes the route.
  abbrev pub IsTaken : ℕ → List ListenerBuild → Type 0
  IsTaken i [] = ⊥
  IsTaken i (l ∷ ls) = ((kept : List Text) × Takes x i l kept) ⊎ IsTaken (suc i) ls

  IsChanged-join :
      (kept : List Text) (i : ℕ) (p : Progress) (l : ListenerBuild)
      → Takes x i l kept
      → IsChanged p.attached i l (join x kept p l).1 (join x kept p l).0.attached
  IsChanged-join kept i p l t = elim (Bool-cases (among (key_of x l) p.attached)) [
    | inl e ↦ rw e (inl (refl, refl, λ other_kept u. among-In _ _ e))
    | inr e ↦ rw e (
        inr (
          kept,
          t,
          attached_to-IsAdded x kept l,
          λ j. absurd (ground (arith, e, In-among _ _ j)),
          refl,
        ))
  ]

  -- What one pass does to its listener, to the keys and to the count of listeners that took it.
  record IsPassed (i : ℕ) (p : Progress) (l : ListenerBuild) (r : Progress × ListenerBuild)
      : Type 0 where
    changed : IsChanged p.attached i l r.1 r.0.attached
    counted :
        (0 < r.0.outcome.hostname_ok)
        ↔ (((kept : List Text) × Takes x i l kept) ⊎ (0 < p.outcome.hostname_ok))

  join-outcome :
      (kept : List Text) (p : Progress) (l : ListenerBuild)
      → (join x kept p l).0.outcome ≡ p.outcome
  join-outcome kept p l = elim (Bool-cases (among (key_of x l) p.attached)) [
    | inl e ↦ rw e refl
    | inr e ↦ rw e refl
  ]

  untaken :
      (i : ℕ) (p q : Progress) (l : ListenerBuild)
      → q.attached ≡ p.attached
      → q.outcome.hostname_ok ≡ p.outcome.hostname_ok + 0
      → ((kept : List Text) → ¬ Takes x i l kept)
      → IsPassed i p l (q, l)
  untaken i p q l same e missed = record {
    changed = inl (refl, same, λ kept t. absurd (missed kept t));
    counted = (
      λ h. inr (ground (arith, e, h)),
      λ h. elim h [ inl t ↦ absurd (missed t.0 t.1) | inr h' ↦ ground (arith, e, h') ],
    );
  }

  Passed-IsPassed :
      (i : ℕ) (p : Progress) (l : ListenerBuild) {r : Progress × ListenerBuild}
      → Passed x i p l r
      → IsPassed i p l r
  Passed-IsPassed i p l (other e) =
      untaken i p p l refl (ground arith) (λ kept t. ground (arith, e, t.named))
  Passed-IsPassed i p l (refused e f) =
      untaken i p (count p 1 0 0 0) l refl refl (λ kept t. ground (arith, f, t.admitted))
  Passed-IsPassed i p l (apart e f g) =
      untaken i p (count p 1 1 0 0) l refl refl
        (λ kept t. let bad : none ≡ some t.hosts = sym g ∙ t.shared in ground (arith, bad))
  Passed-IsPassed i p l (left hosts g h) =
      untaken i p (count p 1 1 0 1) l refl refl (λ kept t. lost kept t)
    where
      lost : (kept : List Text) → ¬ Takes x i l kept
      lost kept t =
          let same : some hosts ≡ some t.hosts = sym g ∙ t.shared in
          let again : yield_to_siblings hosts (x.gateway, i) l x.siblings ≡ some kept =
            rw (inner hosts t.hosts same) t.yielded in
          let bad : none ≡ some kept = sym h ∙ again in ground (arith, bad)
  Passed-IsPassed i p l (taken kept t) = record {
    changed = IsChanged-join kept i (count p 1 1 1 0) l t;
    counted = (λ h. inl (kept, t), λ h. rw (join-outcome kept (count p 1 1 1 0) l) (ground arith));
  }

  -- The whole loop, from any state of it.
  record IsWalked (i : ℕ) (p : Progress) (ls : List ListenerBuild)
      (r : Progress × List ListenerBuild) : Type 0 where
    all_changed : AllChanged p.attached i ls r.1 r.0.attached
    all_counted : (0 < r.0.outcome.hostname_ok) ↔ (IsTaken i ls ⊎ (0 < p.outcome.hostname_ok))

  attach_from-IsWalked :
      (i : ℕ) (p : Progress) (ls : List ListenerBuild) → IsWalked i p ls (attach_from x i p ls)
  unfolding attach_from
  attach_from-IsWalked i p [] = record {
    all_changed = refl;
    all_counted = (λ h. inr h, λ h. elim h [ inl f ↦ absurd f | inr h' ↦ h' ]);
  }
  attach_from-IsWalked i p (l ∷ ls) =
      let one = Passed-IsPassed i p l (attach_listener-Passed x i p l) in
      let rest = attach_from-IsWalked (suc i) (attach_listener x i p l).0 ls in
      record {
        all_changed = ((attach_listener x i p l).0.attached, one.changed, rest.all_changed);
        all_counted = (
          λ h. elim (rest.all_counted.0 h) [
            | inl t ↦ inl (inr t)
            | inr h' ↦ elim (one.counted.0 h') [ inl t ↦ inl (inl t) | inr h'' ↦ inr h'' ]
          ],
          λ h. elim h [
            | inl t ↦ elim t [
              | inl u ↦ rest.all_counted.1 (inr (one.counted.1 (inl u)))
              | inr u ↦ rest.all_counted.1 (inl u)
            ]
            | inr h' ↦ rest.all_counted.1 (inr (one.counted.1 (inr h')))
          ],
        );
      }

  -- From the first listener to the last: one that takes the route, and whose key is not attached
  -- yet by an earlier parent or an earlier listener of the name, has the route added under the
  -- hostnames that it keeps, counted and with an entry for each match of its rules, and its key is
  -- attached from then on; every other listener, and the keys at it, are left as they were.
  pub attach_to_gateway-AllChanged :
      (attached : List Text) (listeners : List ListenerBuild)
      → AllChanged attached 0 listeners
          (attach_to_gateway x attached listeners).1
          (attach_to_gateway x attached listeners).0.attached
  unfolding attach_to_gateway
  attach_to_gateway-AllChanged attached listeners =
      (attach_from-IsWalked 0 (record { outcome = no_outcome; attached = attached })
        listeners).all_changed

  accepted_condition_iff :
      (o : Outcome) (c : Compiled) (generation : Option ℤ)
      → ((accepted_condition o (ok c) generation).status ≡ true_) ↔ (0 < o.hostname_ok)
  unfolding accepted_condition
  accepted_condition_iff o c generation = (λ h. ground (arith, h), λ h. ground (arith, h))

  -- A route that compiles is accepted by a Gateway exactly if one of its listeners takes it.
  pub attach_to_gateway_accepted_iff :
      (attached : List Text) (listeners : List ListenerBuild) (c : Compiled) (generation : Option ℤ)
      → ((accepted_condition
            (attach_to_gateway x attached listeners).0.outcome
            (ok c)
            generation).status
          ≡ true_)
        ↔ IsTaken 0 listeners
  unfolding attach_to_gateway
  attach_to_gateway_accepted_iff attached listeners c generation =
      let walked =
        attach_from-IsWalked 0 (record { outcome = no_outcome; attached = attached }) listeners in
      let told =
        accepted_condition_iff
          (attach_from x 0 (record { outcome = no_outcome; attached = attached })
            listeners).0.outcome
          c generation in
      (
        λ h. elim (walked.all_counted.0 (told.0 h)) [
          | inl t ↦ t
          | inr h' ↦ absurd (ground (arith, h'))
        ],
        λ t. told.1 (walked.all_counted.1 (inl t)),
      )
