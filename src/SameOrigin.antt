-- ===== src/SameOrigin.antt =====
-- Which requests another site's page may have sent: crates/gapura-control/src/same_origin.rs.
-- `HeaderValue::to_str` and the parts of a `Uri` are the http crate's: the one is a parameter, the
-- others are fields of the request. Header names are lowercased; the first value of a name counts.
pub mod Guarded
pub mod Tests
use gapura.Prelude.{
  Bool, true, false, not, ◌&&◌, ◌||◌, List, [], ◌∷◌, ◌++◌, Option, none, some, Text, codes, text_eq,
  any, and_then, starts_with, strip_prefix, before, trim, to_ascii_lowercase, eq_ignore_ascii_case,
  if◌then◌else◌,
}
use gapura.Config.{lookup, or_else}
use gapura.Config.Policy.{strip_suffix}

pub data Verdict : Type 0 where
  pass cross_site not_json : Verdict

pub record Request : Type 0 where
  pub method : Text
  pub path : Text
  pub authority : Option Text
  pub headers : List (Text × Text)

abbrev or_text : Option Text → Text → Text
or_text none t = t
or_text (some x) t = x

unfoldable pub without_default_port : Text → Text
without_default_port authority =
    or_text (or_else (strip_suffix (codes ":443") authority) (strip_suffix (codes ":80") authority))
      authority

-- `s.split_once(sep)` for a text.
unfoldable pub split_at_text : Text → Text → Option (Text × Text)
split_at_text sep [] = none
split_at_text sep (c ∷ s) =
    let rest = split_at_text sep s in
    elim (strip_prefix sep (c ∷ s)) [
      | some r ↦ some ([], r)
      | none ↦ elim rest [ none ↦ none | some x ↦ some (c ∷ x.0, x.1) ]
    ]

abbrev pub present : Option Text → Option Text → List Text
present none none = []
present none (some h) = h ∷ []
present (some f) none = f ∷ []
present (some f) (some h) = f ∷ h ∷ []

abbrev pub is_read : Request → Bool
is_read r = text_eq r.method (codes "GET") || text_eq r.method (codes "HEAD")

abbrev pub is_api : Request → Bool
is_api r = starts_with (to_ascii_lowercase r.path) (codes "/api/")

abbrev pub is_auth : Request → Bool
is_auth r = starts_with (to_ascii_lowercase r.path) (codes "/auth/")

module _ (to_str : Text → Option Text) where
  unfoldable pub is_json : Request → Bool
  is_json r = elim (and_then (lookup (codes "content-type") r.headers) to_str) [
    | none ↦ false
    | some v ↦ eq_ignore_ascii_case (trim (before b';' v)) (codes "application/json")
  ]

  -- What `Origin` names, without the scheme and a default port.
  unfoldable pub named_by : Text → Option Text
  named_by origin =
      and_then (to_str origin)
        (λ o. and_then (split_at_text (codes "://") o) (λ x. some (without_default_port x.1)))

  unfoldable pub forwarded_host : Request → Option Text
  forwarded_host r =
      and_then (and_then (lookup (codes "x-forwarded-host") r.headers) to_str)
        (λ h. some (before b',' h))

  unfoldable pub host_of : Request → Option Text
  host_of r = or_else (and_then (lookup (codes "host") r.headers) to_str) r.authority

  abbrev pub names_host : Text → Text → Bool
  names_host named host = eq_ignore_ascii_case (without_default_port (trim host)) named

  abbrev pub origin_named : Option Text → Request → Bool
  origin_named none r = false
  origin_named (some named) r = any (names_host named) (present (forwarded_host r) (host_of r))

  abbrev pub by_origin : Option Text → Request → Bool
  by_origin none r = true
  by_origin (some origin) r = origin_named (named_by origin) r

  abbrev pub by_site : Option Text → Request → Bool
  by_site none r = by_origin (lookup (codes "origin") r.headers) r
  by_site (some site) r = text_eq site (codes "same-origin")

  unfoldable pub from_this_origin : Request → Bool
  from_this_origin r = by_site (lookup (codes "sec-fetch-site") r.headers) r

  unfoldable pub verdict : Request → Verdict
  verdict r =
      if is_read r
      then pass
      else if not (is_api r) && not (is_auth r)
      then pass
      else if not (from_this_origin r)
      then cross_site
      else if is_api r && not (is_json r)
      then not_json
      else pass
