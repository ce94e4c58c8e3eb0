-- ===== src/Listeners/Served.antt =====
-- What a listener that is programmed can serve:
-- crates/gapura-core/src/translate/listeners.rs.
use gapura.Prelude.{
  if_true, if_false, ◌==◌, ◌≡◌, inl, inr, refl, ap, sym, ◌∙◌, subst, Bool, true, false, not, ◌&&◌,
  List, [], ◌∷◌, map, Option, none, some, Text, codes, In, In-map_sound, any, any→In, ==_iff, arith,
  Bool-cases, Result, ok, err,
}
use gapura.Config.{Protocol, TlsBundle}
use gapura.Snapshot.{ObjectRef, Listener, Snapshot, Settings}
use gapura.Listeners.{
  Rejection, ListenerBuild, is_some, is_ok, is_https, serves, serves_despite, programmed,
  protocol_of, passthrough, bound_ports, accept_listener, supported_kinds,
}
use gapura.Listeners.Tls.{resolve_tls}
use gapura.Listeners.Certificates.{IsCertified, resolve_tls-IsCertified}
use gapura.Listeners.Building.{
  build_listener, bundle, tls_error, resolved_of, with_tls, detect_conflicts,
}
use gapura.Listeners.Conflicts.{IsMarked, AllMarked, detect_conflicts-AreCompatible}

-- A protocol that is served, on a port that is bound for it, and for HTTPS a certificate that the
-- Gateway may use.
pub record IsServable (settings : Settings) (snap : Snapshot) (gateway_namespace : Text)
    (b : ListenerBuild) : Type 0 where
  pub protocol : (p : Protocol) × (b.protocol ≡ some p)
  pub bound : In b.port (bound_ports settings b.protocol)
  pub certificate :
      is_https b.protocol ≡ true
      → (c : TlsBundle) × (b.tls ≡ some c) × IsCertified snap gateway_namespace c

pub accept_listener-ok :
    (l : Listener) (settings : Settings)
    → is_ok (accept_listener l settings) ≡ true
    → (is_some (protocol_of l.protocol) ≡ true)
      × (any (λ p. p == l.port) (bound_ports settings (protocol_of l.protocol)) ≡ true)
      × ((is_https (protocol_of l.protocol) && passthrough l) ≡ false)
unfolding accept_listener
accept_listener-ok l settings h = elim (Bool-cases (is_some (protocol_of l.protocol))) [
  | inr e ↦ absurd (ground (arith, rw (e, accept_listener) at h))
  | inl e ↦
      elim (Bool-cases (any (λ p. p == l.port) (bound_ports settings (protocol_of l.protocol)))) [
        | inr f ↦ absurd (ground (arith, rw (e, f, accept_listener) at h))
        | inl f ↦ elim (Bool-cases (is_https (protocol_of l.protocol) && passthrough l)) [
          | inl g ↦ absurd (ground (arith, rw (e, f, g, accept_listener) at h))
          | inr g ↦ (e, f, g)
        ]
      ]
]

pub some_of : {A : Type 0} (o : Option A) → is_some o ≡ true → (a : A) × (o ≡ some a)
some_of none h = absurd (ground arith)
some_of (some a) h = (a, refl)

-- Without a certificate an HTTPS listener whose references are unresolved serves nothing.
serves_despite-https :
    (b : ListenerBuild) (e : Rejection)
    → is_https b.protocol ≡ true
    → b.tls ≡ none
    → serves_despite b e ≡ true
    → ⊥
serves_despite-https b e secure bare h =
    let bare' : is_some b.tls ≡ false = ap is_some bare in ground (arith, h)

not_secure : (p q : Bool) → p ≡ true → (p && q) ≡ false → (p && not q) ≡ false → ⊥
not_secure p q e f g = ground arith

abbrev invalid_kinds : Rejection
invalid_kinds =
    (codes "InvalidRouteKinds", codes "only HTTPRoute is supported in allowedRoutes.kinds")

module _ (decode : Text → Option Text) (from_utf8 : Text → Option Text) where
  module _ (l : Listener) (gw_ref : ObjectRef) (snap : Snapshot) (settings : Settings) where
    abbrev built : ListenerBuild
    built = build_listener decode from_utf8 l gw_ref snap settings

    -- The certificate of a listener by what its reference came to.
    certificate_of :
        (r : Result Rejection TlsBundle)
        → resolve_tls decode from_utf8 l gw_ref snap ≡ r
        → is_https (protocol_of l.protocol) ≡ true
        → serves (with_tls l settings (bundle r) (tls_error r)) ≡ true
        → (c : TlsBundle) × (bundle r ≡ some c) × IsCertified snap gw_ref.namespace c
    unfolding serves
    certificate_of (ok c) e secure h =
        (c, refl, resolve_tls-IsCertified decode from_utf8 l gw_ref snap c e)
    certificate_of (err x) e secure h = absurd (bare (supported_kinds l.allowed_routes).1 h)
      where
        bare :
            (k : Bool)
            → elim (resolved_of k (err x)) [
              | ok u ↦ true
              | err y ↦ serves_despite (with_tls l settings none (err x)) y
            ]
              ≡ true
            → ⊥
        bare true h = serves_despite-https (with_tls l settings none (err x)) x secure refl h
        bare false h =
            serves_despite-https (with_tls l settings none (err x)) invalid_kinds secure refl h

    servable :
        (tls : Option TlsBundle) (error : Result Rejection Unit)
        → is_ok (accept_listener l settings) ≡ true
        → (is_https (protocol_of l.protocol) ≡ true
            → (c : TlsBundle) × (tls ≡ some c) × IsCertified snap gw_ref.namespace c)
        → IsServable settings snap gw_ref.namespace (with_tls l settings tls error)
    servable tls error accepted certificate =
        let (supported, on_port, terminated) = accept_listener-ok l settings accepted in
        let (p, i, e) = any→In _ (bound_ports settings (protocol_of l.protocol)) on_port in
        let same : p ≡ l.port = (==_iff p l.port).0 e in
        record {
          protocol = some_of (protocol_of l.protocol) supported;
          bound = subst (λ q. In q (bound_ports settings (protocol_of l.protocol))) same i;
          certificate = certificate;
        }

    build_listener-IsServable :
        is_ok built.accepted ≡ true
        → serves built ≡ true
        → IsServable settings snap gw_ref.namespace built
    unfolding build_listener
    build_listener-IsServable accepted served =
        let r = resolve_tls decode from_utf8 l gw_ref snap in
        elim (Bool-cases (is_https (protocol_of l.protocol) && not (passthrough l))) [
          | inl e ↦
              let secured : built ≡ with_tls l settings (bundle r) (tls_error r) = if_true _ _ e in
              let accepted' = subst (λ b. is_ok b.accepted ≡ true) secured accepted in
              let served' = subst (λ b. serves b ≡ true) secured served in
              subst (IsServable settings snap gw_ref.namespace) (sym secured) (
                servable (bundle r) (tls_error r) accepted'
                  (λ secure. certificate_of r refl secure served'))
          | inr e ↦
              let plain : built ≡ with_tls l settings none (ok tt) = if_false _ _ e in
              let accepted' = subst (λ b. is_ok b.accepted ≡ true) plain accepted in
              let terminated = (accept_listener-ok l settings accepted').2 in
              subst (IsServable settings snap gw_ref.namespace) (sym plain) (
                servable none (ok tt) accepted'
                  (λ secure. absurd (not_secure _ _ secure terminated e)))
        ]

-- A conflict changes nothing that serving depends on.
IsServable-IsMarked :
    (settings : Settings) (snap : Snapshot) (namespace : Text) (a b : ListenerBuild)
    → IsMarked a b
    → IsServable settings snap namespace a
    → IsServable settings snap namespace b
IsServable-IsMarked settings snap namespace a b m h =
    subst (IsServable settings snap namespace) (sym m.same)
      (record { protocol = h.protocol; bound = h.bound; certificate = h.certificate })

IsMarked-serving :
    (a b : ListenerBuild) → IsMarked a b → (a.accepted ≡ b.accepted) × (serves a ≡ serves b)
unfolding serves
IsMarked-serving a b m = (sym (ap (λ x. x.accepted) m.same), sym (ap serves m.same))

pub programmed→ :
    (b : ListenerBuild) → programmed b ≡ true → (is_ok b.accepted ≡ true) × (serves b ≡ true)
unfolding programmed
programmed→ b h = ground (arith, h)

pub In-AllMarked :
    (cs bs : List ListenerBuild) (b : ListenerBuild)
    → AllMarked cs bs
    → In b bs
    → (a : ListenerBuild) × In a cs × IsMarked a b
In-AllMarked [] [] b m i = absurd i
In-AllMarked [] (c ∷ bs) b m i = absurd m
In-AllMarked (a ∷ cs) [] b m i = absurd i
In-AllMarked (a ∷ cs) (c ∷ bs) b m (inl e) = (a, inl refl, subst (IsMarked a) (sym e) m.0)
In-AllMarked (a ∷ cs) (c ∷ bs) b m (inr i) =
    let (d, j, q) = In-AllMarked cs bs b m.1 i in (d, inr j, q)

-- A listener of a Gateway that is programmed has a protocol that is served, on a port that is
-- bound for it, and for HTTPS a certificate, of a Secret of the Gateway's namespace or one that a
-- ReferenceGrant permits it to use.
pub programmed-IsServable :
    (decode : Text → Option Text) (from_utf8 : Text → Option Text) (gw_ref : ObjectRef)
    (snap : Snapshot) (settings : Settings) (listeners : List Listener) (b : ListenerBuild)
    → In b (
        detect_conflicts
          (map (λ l. build_listener decode from_utf8 l gw_ref snap settings) listeners))
    → programmed b ≡ true
    → IsServable settings snap gw_ref.namespace b
programmed-IsServable decode from_utf8 gw_ref snap settings listeners b i h =
    let builds = map (λ l. build_listener decode from_utf8 l gw_ref snap settings) listeners in
    let (a, j, m) = In-AllMarked builds _ b (detect_conflicts-AreCompatible builds).0 i in
    let (l, k, e) =
      In-map_sound (λ l. build_listener decode from_utf8 l gw_ref snap settings) a listeners j in
    let (accepted, served) = programmed→ b h in
    let (same, same') = IsMarked-serving a b m in
    let accepted' = subst (λ x. is_ok x.accepted ≡ true) e (ap is_ok same ∙ accepted) in
    let served' = subst (λ x. serves x ≡ true) e (same' ∙ served) in
    let servable =
      build_listener-IsServable decode from_utf8 l gw_ref snap settings accepted' served' in
    IsServable-IsMarked settings snap gw_ref.namespace a b m
      (subst (IsServable settings snap gw_ref.namespace) (sym e) servable)
