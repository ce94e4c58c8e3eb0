-- ===== src/Config/Policy.antt =====
-- The policies that a rule can carry: crates/gapura-core/src/config.rs, `Plugin` and its sections.
use mathlib.Core.List.{reverse}
use gapura.Prelude.{
  ◌+◌, length, ℕ, Bool, true, false, not, ◌&&◌, ◌||◌, Option, none, some, List, [], ◌∷◌,
  if◌then◌else◌, ◌==◌, any, all, Text, codes, text_eq, strip_prefix, is_ascii_digit,
  is_ascii_lowercase,
}
use gapura.ClientIp.{IpAddr, Cidr, contains}

pub record KeyAuthPolicy : Type 0 where
  pub header : Text
  pub workspace : Option Text

-- `KeyAuthPolicy::default`.
abbrev pub default_key_auth : KeyAuthPolicy
default_key_auth = record { header = codes "x-api-key"; workspace = none }

pub record JwtPolicy : Type 0 where
  pub issuer : Option Text
  pub audience : Option Text
  pub jwks : Text
  pub jwks_uri : Option Text
  pub jwks_ca_pem : Option Text
  pub consumer_claim : Option Text
  pub workspace : Option Text

pub record IpRestrictionPolicy : Type 0 where
  pub allow : List Cidr
  pub deny : List Cidr

-- The reasons of a refusal.
pub data Reason : Type 0 where
  no_address no_consumer denied not_allowed : Reason

abbrev pub is_empty {ℓ} : {A : Type ℓ} → List A → Bool
is_empty [] = true
is_empty (x ∷ xs) = false

unfoldable pub ip_refusal : IpRestrictionPolicy → Option IpAddr → Option Reason
ip_refusal p none = some no_address
ip_refusal p (some ip) =
    if any (λ net. contains net ip) p.deny
    then some denied
    else if not (is_empty p.allow) && not (any (λ net. contains net ip) p.allow)
    then some not_allowed
    else none

pub record AuthPolicy : Type 0 where
  pub anonymous : Option Text
  pub workspace : Option Text

pub record AclPolicy : Type 0 where
  pub allow : List Text
  pub deny : List Text

-- `list.contains(g)`.
abbrev pub lists : List Text → Text → Bool
lists names g = any (λ n. text_eq n g) names

unfoldable pub acl_refusal : AclPolicy → Option (List Text) → Option Reason
acl_refusal p none = some no_consumer
acl_refusal p (some groups) =
    if any (lists p.deny) groups
    then some denied
    else if not (is_empty p.allow) && not (any (lists p.allow) groups)
    then some not_allowed
    else none

pub record HeaderEdits : Type 0 where
  pub remove : List Text
  pub rename : List (Text × Text)
  pub replace : List (Text × Text)
  pub add : List (Text × Text)
  pub append : List (Text × Text)

pub record RequestTransformerPolicy : Type 0 where
  pub headers : HeaderEdits
  pub query : HeaderEdits

pub record ResponseTransformerPolicy : Type 0 where
  pub headers : HeaderEdits

-- `HeaderEdits::len` and `HeaderEdits::is_empty`.
unfoldable pub edit_count : HeaderEdits → ℕ
edit_count e = length e.remove + length e.rename + length e.replace + length e.add + length e.append

unfoldable pub has_no_edits : HeaderEdits → Bool
has_no_edits e = edit_count e == 0

pub record RequestSizeLimitPolicy : Type 0 where
  pub max_bytes : ℕ

pub record CorsPolicy : Type 0 where
  pub origins : List Text
  pub methods : List Text
  pub headers : List Text
  pub expose_headers : List Text
  pub credentials : Bool
  pub max_age : Option ℕ
  pub preflight_continue : Bool

-- `entry.split_once("*.")`: what stands on each side of the first one.
unfoldable pub split_wildcard : Text → Option (Text × Text)
split_wildcard [] = none
split_wildcard (c ∷ []) = none
split_wildcard (c ∷ d ∷ s) =
    let rest = split_wildcard (d ∷ s) in
    if c == b'*' && d == b'.'
    then some ([], s)
    else elim rest [ none ↦ none | some (before, after) ↦ some (c ∷ before, after) ]

-- `s.strip_suffix(suffix)`, from the other end.
unfoldable pub strip_suffix : Text → Text → Option Text
strip_suffix suffix s = elim (strip_prefix (reverse suffix) (reverse s)) [
  | none ↦ none
  | some r ↦ some (reverse r)
]

abbrev pub is_label : Text → Bool
is_label label =
    not (is_empty label) && all (λ b. is_ascii_lowercase b || is_ascii_digit b || b == b'-') label

-- The label that stands between the entry's scheme and its tail.
unfoldable pub wildcard_label : Text → Text → Text → Option Text
wildcard_label scheme tail origin = elim (strip_prefix scheme origin) [
  | none ↦ none
  | some rest ↦ elim (strip_suffix tail rest) [
    | none ↦ none
    | some front ↦ strip_suffix (codes ".") front
  ]
]

unfoldable pub origin_matches : Text → Text → Bool
origin_matches origin entry = elim (split_wildcard entry) [
  | none ↦ text_eq entry origin
  | some (scheme, tail) ↦ elim (wildcard_label scheme tail origin) [
    | none ↦ false
    | some label ↦ is_label label
  ]
]

unfoldable pub cors_allowed : CorsPolicy → Text → Option Text
cors_allowed p origin =
    if text_eq origin (codes "null")
    then none
    else if any (λ entry. text_eq entry (codes "*")) p.origins
    then some (codes "*")
    else if any (origin_matches origin) p.origins
    then some origin
    else none

pub data Plugin : Type 0 where
  jwt : JwtPolicy → Plugin
  key_auth : KeyAuthPolicy → Plugin
  ip_restriction : IpRestrictionPolicy → Plugin
  request_size_limit : RequestSizeLimitPolicy → Plugin
  request_transformer : RequestTransformerPolicy → Plugin
  response_transformer : ResponseTransformerPolicy → Plugin
  cors : CorsPolicy → Plugin
  auth : AuthPolicy → Plugin
  acl : AclPolicy → Plugin

-- When a plugin runs.
pub data Phase : Type 0 where
  access upstream_request request_body response terminate : Phase

unfoldable pub phases : Plugin → List Phase
phases (jwt p) = access ∷ []
phases (ip_restriction p) = access ∷ []
phases (acl p) = access ∷ []
phases (key_auth p) = access ∷ upstream_request ∷ []
phases (request_size_limit p) = access ∷ request_body ∷ []
phases (request_transformer p) = upstream_request ∷ []
phases (response_transformer p) = response ∷ []
phases (cors p) = access ∷ response ∷ []
phases (auth p) = []

-- How a plugin reads a body.
pub data Body : Type 0 where
  unread : Body
  stream : Body
  buffered : (max : ℕ) → Body

unfoldable pub body : Plugin → Body
body (jwt p) = unread
body (ip_restriction p) = unread
body (acl p) = unread
body (key_auth p) = unread
body (request_size_limit p) = stream
body (request_transformer p) = unread
body (response_transformer p) = unread
body (cors p) = unread
body (auth p) = unread

unfoldable pub kind : Plugin → Text
kind (jwt p) = codes "jwt"
kind (key_auth p) = codes "key_auth"
kind (ip_restriction p) = codes "ip_restriction"
kind (request_size_limit p) = codes "request_size_limit"
kind (request_transformer p) = codes "request_transformer"
kind (response_transformer p) = codes "response_transformer"
kind (cors p) = codes "cors"
kind (auth p) = codes "auth"
kind (acl p) = codes "acl"
