-- ===== src/Listeners/Certificates.antt =====
-- Whose certificates a listener uses: `resolve_tls` of
-- crates/gapura-core/src/translate/listeners.rs.
use gapura.Prelude.{
  [], ◌≡◌, ◌⊎◌, inl, inr, refl, Bool, true, false, Option, none, some, Text, codes, text_eq,
  text_eq_iff, ok, went_through, arith, Bool-cases,
}
use gapura.Config.{TlsBundle}
use gapura.Snapshot.{
  ObjectRef, Listener, Secret, Snapshot, Referrer, Referent, gateway_group, or_text, is_some_text,
  permits,
}
use gapura.Snapshot.Permits.{IsPermitted, permits_iff}
use gapura.Listeners.{Rejection}
use gapura.Listeners.Tls.{
  first_of, is_core_secret, ok_or, guard, find_secret, may_use, pem_field, bundle_of, secret_label,
  resolve_secret, resolve_tls,
}

abbrev gateway_in : Text → Referrer
gateway_in namespace = record {
  group = gateway_group;
  kind = codes "Gateway";
  namespace = namespace;
}

abbrev secret_named : Text → Text → Referent
secret_named namespace name = record {
  group = [];
  kind = codes "Secret";
  namespace = namespace;
  name = name;
}

-- A certificate of a Secret that the Gateway may use.
pub record IsCertified (snap : Snapshot) (gateway_namespace : Text) (b : TlsBundle) : Type 0 where
  pub namespace : Text
  pub name : Text
  pub label : b.secret ≡ secret_label namespace name
  pub secret : Secret
  pub found : find_secret (record { namespace = namespace; name = name }) snap.secrets ≡ some secret
  pub allowed :
      (namespace ≡ gateway_namespace)
      ⊎ IsPermitted snap (gateway_in gateway_namespace) (secret_named namespace name)

ok_or-ok : {E A : Type 0} (o : Option A) (e : E) {a : A} → ok_or o e ≡ ok a → o ≡ some a
ok_or-ok none e h = absurd (ground arith)
ok_or-ok (some x) e h = ground arith

guard-ok : (b : Bool) (e : Rejection) {u : Unit} → guard b e ≡ ok u → b ≡ true
guard-ok true e h = refl
guard-ok false e h = absurd (ground arith)

may_use_allowed :
    (snap : Snapshot) (gateway_namespace namespace name : Text)
    → may_use snap gateway_namespace namespace name ≡ true
    → (namespace ≡ gateway_namespace)
      ⊎ IsPermitted snap (gateway_in gateway_namespace) (secret_named namespace name)
unfolding may_use
may_use_allowed snap gateway_namespace namespace name h =
    elim (Bool-cases (text_eq namespace gateway_namespace)) [
      | inl e ↦ inl ((text_eq_iff namespace gateway_namespace).0 e)
      | inr e ↦
          let granted : permits snap (gateway_in gateway_namespace) (secret_named namespace name)
              ≡ true =
            rw e at h in
          inr ((permits_iff snap _ _).0 granted)
    ]

module _ (decode : Text → Option Text) (from_utf8 : Text → Option Text) where
  bundle_of-label :
      (label : Text) (secret : Secret) (b : TlsBundle)
      → bundle_of decode from_utf8 label secret ≡ ok b
      → b.secret ≡ label
  unfolding bundle_of
  bundle_of-label label secret b h =
      let (u, e₁, h₁) =
        went_through (guard (is_some_text secret.type_ (codes "kubernetes.io/tls")) _) _ h in
      let (cert, e₂, h₂) =
        went_through (pem_field decode from_utf8 secret (codes "tls.crt") (codes "CERTIFICATE")) _
          h₁ in
      let (key, e₃, h₃) =
        went_through (pem_field decode from_utf8 secret (codes "tls.key") (codes "PRIVATE KEY")) _
          h₂ in
      ground (arith, h₃)

  resolve_secret-IsCertified :
      (snap : Snapshot) (gateway_namespace namespace name : Text) (b : TlsBundle)
      → resolve_secret decode from_utf8 snap gateway_namespace namespace name ≡ ok b
      → IsCertified snap gateway_namespace b
  unfolding resolve_secret
  resolve_secret-IsCertified snap gateway_namespace namespace name b h =
      let (u, e₁, h₁) =
        went_through (guard (may_use snap gateway_namespace namespace name) _) _ h in
      let (secret, e₂, h₂) =
        went_through
          (ok_or (find_secret (record { namespace = namespace; name = name }) snap.secrets) _) _
          h₁ in
      record {
        namespace = namespace;
        name = name;
        label = bundle_of-label (secret_label namespace name) secret b h₂;
        secret = secret;
        found = ok_or-ok _ _ e₂;
        allowed = may_use_allowed snap gateway_namespace namespace name (guard-ok _ _ e₁);
      }

  -- The certificate of a listener comes from a Secret of its Gateway's namespace, or from one
  -- that a ReferenceGrant there permits the Gateway to use.
  pub resolve_tls-IsCertified :
      (l : Listener) (gw_ref : ObjectRef) (snap : Snapshot) (b : TlsBundle)
      → resolve_tls decode from_utf8 l gw_ref snap ≡ ok b
      → IsCertified snap gw_ref.namespace b
  unfolding resolve_tls
  resolve_tls-IsCertified l gw_ref snap b h =
      let (tls, e₁, h₁) = went_through (ok_or l.tls _) _ h in
      let (cref, e₂, h₂) = went_through (ok_or (first_of tls.certificate_refs) _) _ h₁ in
      let (u, e₃, h₃) = went_through (guard (is_core_secret cref) _) _ h₂ in
      resolve_secret-IsCertified snap gw_ref.namespace (or_text cref.namespace gw_ref.namespace)
        cref.name b h₃
