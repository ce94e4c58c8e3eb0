-- ===== src/Listeners/Tls.antt =====
-- The certificate of a listener: `resolve_tls` and `pem_field` of
-- crates/gapura-core/src/translate/listeners.rs.
use gapura.Prelude.{
  Bool, true, false, ◌&&◌, ◌||◌, List, [], ◌∷◌, ◌++◌, Option, none, some, Text, codes, text_eq,
  Result, ok, err, ◌>>=◌, trim, contains_text, if◌then◌else◌,
}
use gapura.Config.{TlsBundle, lookup}
use gapura.Snapshot.{
  ObjectRef, SecretObjectReference, Listener, Secret, Snapshot, gateway_group, or_text,
  is_some_text, permits,
}
use gapura.Listeners.{Rejection}

-- `ok_or`.
abbrev pub ok_or : {E A : Type 0} → Option A → E → Result E A
ok_or none e = err e
ok_or (some a) e = ok a

abbrev pub first_of : {A : Type 0} → List A → Option A
first_of [] = none
first_of (x ∷ xs) = some x

abbrev pub guard : Bool → Rejection → Result Rejection Unit
guard true e = ok tt
guard false e = err e

-- `snap.secrets.get(..)`.
unfoldable pub find_secret : ObjectRef → List (ObjectRef × Secret) → Option Secret
find_secret r [] = none
find_secret r ((k, secret) ∷ secrets) =
    let rest = find_secret r secrets in
    if text_eq k.namespace r.namespace && text_eq k.name r.name then some secret else rest

abbrev invalid_certificate : Text → Rejection
invalid_certificate message = (codes "InvalidCertificateRef", message)

abbrev pub is_core_secret : SecretObjectReference → Bool
is_core_secret cref =
    text_eq (or_text cref.kind (codes "Secret")) (codes "Secret")
    && text_eq (or_text cref.group []) []

-- A Secret of the Gateway's own namespace, or one that a ReferenceGrant permits.
unfoldable pub may_use : Snapshot → Text → Text → Text → Bool
may_use snap gateway_namespace namespace name =
    text_eq namespace gateway_namespace
    || permits snap
        (record { group = gateway_group; kind = codes "Gateway"; namespace = gateway_namespace })
        (record { group = []; kind = codes "Secret"; namespace = namespace; name = name })

abbrev pub secret_label : Text → Text → Text
secret_label namespace name = namespace ++ codes "/" ++ name

module _ (decode : Text → Option Text) (from_utf8 : Text → Option Text) where
  unfoldable pub pem_field : Secret → Text → Text → Result Rejection Text
  pem_field secret key marker =
      ok_or (lookup key secret.data_)
        (invalid_certificate (codes "Secret " ++ secret.name ++ codes " has no " ++ key))
      >>= (λ raw.
          ok_or (decode (trim raw)) (invalid_certificate (key ++ codes " is not valid base64"))
          >>= (λ bytes.
              ok_or (from_utf8 bytes) (invalid_certificate (key ++ codes " is not UTF-8 PEM"))
              >>= (λ text.
                  guard (contains_text text (codes "-----BEGIN") && contains_text text marker)
                    (invalid_certificate (key ++ codes " is not a PEM " ++ marker))
                  >>= (λ u. ok text))))

  -- The bundle of a Secret of the right type.
  unfoldable pub bundle_of : Text → Secret → Result Rejection TlsBundle
  bundle_of label secret =
      guard (is_some_text secret.type_ (codes "kubernetes.io/tls")) (
        invalid_certificate (codes "Secret " ++ label ++ codes " must have type kubernetes.io/tls"))
      >>= (λ u. pem_field secret (codes "tls.crt") (codes "CERTIFICATE") >>= (λ cert_pem.
          pem_field secret (codes "tls.key") (codes "PRIVATE KEY")
          >>= (λ key_pem. ok (record { secret = label; cert_pem = cert_pem; key_pem = key_pem }))))

  -- What a reference to a Secret comes to, with its namespace written out.
  unfoldable pub resolve_secret : Snapshot → Text → Text → Text → Result Rejection TlsBundle
  resolve_secret snap gateway_namespace namespace name =
      guard (may_use snap gateway_namespace namespace name) (
        codes "RefNotPermitted",
        codes "reference to Secret "
            ++ secret_label namespace name
            ++ codes " is not permitted by any ReferenceGrant",
      )
      >>= (λ u.
          ok_or (find_secret (record { namespace = namespace; name = name }) snap.secrets) (
            invalid_certificate
              (codes "Secret " ++ secret_label namespace name ++ codes " not found"))
          >>= bundle_of (secret_label namespace name))

  unfoldable pub resolve_tls : Listener → ObjectRef → Snapshot → Result Rejection TlsBundle
  resolve_tls l gw_ref snap =
      ok_or l.tls (invalid_certificate (codes "HTTPS listener requires tls.certificateRefs"))
      >>= (λ tls.
          ok_or (first_of tls.certificate_refs)
            (invalid_certificate (codes "tls.certificateRefs is empty"))
          >>= (λ cref.
              guard (is_core_secret cref) (
                invalid_certificate (
                  codes "certificateRef kind "
                  ++ or_text cref.group []
                  ++ codes "/"
                  ++ or_text cref.kind (codes "Secret")
                  ++ codes " is not supported, only core Secret"))
              >>= (λ u.
                  resolve_secret snap gw_ref.namespace (or_text cref.namespace gw_ref.namespace)
                    cref.name)))
