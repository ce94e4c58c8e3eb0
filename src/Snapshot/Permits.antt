-- ===== src/Snapshot/Permits.antt =====
-- Which ReferenceGrants permit a reference: crates/gapura-core/src/translate/grants.rs.
use gapura.Prelude.{
  ◌≡◌, ◌↔◌, ◌⊎◌, inl, inr, refl, ap, true, Option, none, some, Text, text_eq, text_eq_iff, In,
  any→In, In→any, and-eq-true_iff, arith,
}
use gapura.Snapshot.{
  Snapshot, ReferenceGrant, ReferenceGrantFrom, ReferenceGrantTo, Referrer, Referent, is_some_text,
  is_none_or_text, permits,
}

is_some_text_iff : (o : Option Text) (t : Text) → (is_some_text o t ≡ true) ↔ (o ≡ some t)
is_some_text_iff none t = (λ h. absurd (ground arith), λ h. absurd (ground arith))
is_some_text_iff (some x) t =
    (λ h. ap some ((text_eq_iff x t).0 h), λ h. (text_eq_iff x t).1 (ground arith))

abbrev NamesOne : Option Text → Text → Type 0
NamesOne o t = (o ≡ none) ⊎ (o ≡ some t)

is_none_or_text_iff : (o : Option Text) (t : Text) → (is_none_or_text o t ≡ true) ↔ NamesOne o t
is_none_or_text_iff none t = (λ h. inl refl, λ h. refl)
is_none_or_text_iff (some x) t = (
  λ h. inr (ap some ((text_eq_iff x t).0 h)),
  λ h. elim h [ inl e ↦ absurd (ground arith) | inr e ↦ (text_eq_iff x t).1 (ground arith) ],
)

-- A grant that lies in the namespace of what is referred to and names both ends.
pub record IsGrant (from : Referrer) (to : Referent) (g : ReferenceGrant) : Type 0 where
  pub there : g.namespace ≡ some to.namespace
  pub by :
      (f : ReferenceGrantFrom) × In f g.from
      × (f.group ≡ from.group)
      × (f.kind ≡ from.kind)
      × (f.namespace ≡ from.namespace)
  pub of :
      (t : ReferenceGrantTo) × In t g.to
      × (t.group ≡ to.group)
      × (t.kind ≡ to.kind)
      × NamesOne t.name to.name

module _ (snap : Snapshot) (from : Referrer) (to : Referent) where
  abbrev pub IsPermitted : Type 0
  IsPermitted = (g : ReferenceGrant) × In g snap.reference_grants × IsGrant from to g

  pub permits_iff : (permits snap from to ≡ true) ↔ IsPermitted
  unfolding permits
  permits_iff = (
    λ h.
        let (g, i, e) = any→In _ snap.reference_grants h in
        let (a, bc) = (and-eq-true_iff (is_some_text g.namespace to.namespace) _).0 e in
        let (b, c) = (and-eq-true_iff _ _).0 bc in
        let (f, j, p) = any→In _ g.from b in
        let (p₁, p₂₃) = (and-eq-true_iff (text_eq f.group from.group) _).0 p in
        let (p₂, p₃) = (and-eq-true_iff (text_eq f.kind from.kind) _).0 p₂₃ in
        let (t, k, q) = any→In _ g.to c in
        let (q₁, q₂₃) = (and-eq-true_iff (text_eq t.group to.group) _).0 q in
        let (q₂, q₃) = (and-eq-true_iff (text_eq t.kind to.kind) _).0 q₂₃ in
        (
          g,
          i,
          record {
            there = (is_some_text_iff g.namespace to.namespace).0 a;
            by = (f, j, (text_eq_iff _ _).0 p₁, (text_eq_iff _ _).0 p₂, (text_eq_iff _ _).0 p₃);
            of = (
              t,
              k,
              (text_eq_iff _ _).0 q₁,
              (text_eq_iff _ _).0 q₂,
              (is_none_or_text_iff _ _).0 q₃,
            );
          },
        ),
    λ h.
        let (g, i, x) = h in
        let (f, j, p₁, p₂, p₃) = x.by in
        let (t, k, q₁, q₂, q₃) = x.of in
        let b = In→any _ f g.from j (
          (and-eq-true_iff _ _).1 (
            (text_eq_iff _ _).1 p₁,
            (and-eq-true_iff _ _).1 ((text_eq_iff _ _).1 p₂, (text_eq_iff _ _).1 p₃),
          )) in
        let c = In→any _ t g.to k (
          (and-eq-true_iff _ _).1 (
            (text_eq_iff _ _).1 q₁,
            (and-eq-true_iff _ _).1 ((text_eq_iff _ _).1 q₂, (is_none_or_text_iff _ _).1 q₃),
          )) in
        let a = (is_some_text_iff g.namespace to.namespace).1 x.there in
        In→any _ g snap.reference_grants i
          ((and-eq-true_iff _ _).1 (a, (and-eq-true_iff _ _).1 (b, c))),
  )
