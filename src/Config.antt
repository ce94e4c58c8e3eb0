-- ===== src/Config.antt =====
-- The translated configuration that the data plane routes by: crates/gapura-core/src/config.rs.
-- Numbers of a machine width are naturals; a map is the list of its pairs in the order of keys.
pub mod Policy
pub mod Bodies
pub mod Refusals
pub mod Origins
pub mod Tests
use gapura.Config.Policy.{Plugin}
use gapura.Prelude.{
  and_then, ℕ, Bool, true, false, List, [], ◌∷◌, Option, none, some, Text, text_eq, if◌then◌else◌,
}

-- `map.get(key)` of a `BTreeMap<String, _>`.
unfoldable pub lookup {ℓ} : {A : Type ℓ} → Text → List (Text × A) → Option A
lookup key [] = none
lookup key ((k, v) ∷ m) = if text_eq k key then some v else lookup key m

pub data LimitBy : Type 0 where
  ip : LimitBy
  consumer : LimitBy
  header : Text → LimitBy

-- `LimitBy::is_ip`.
unfoldable pub is_ip : LimitBy → Bool
is_ip ip = true
is_ip consumer = false
is_ip (header name) = false

pub record RateLimit : Type 0 where
  pub limit : ℕ
  pub window_ms : ℕ
  pub by : LimitBy

pub record ConsumerRateLimits : Type 0 where
  pub routes : List (Text × RateLimit)
  pub any : Option RateLimit

pub data PathMatch : Type 0 where
  exact : Text → PathMatch
  prefix : Text → PathMatch
  regex : Text → PathMatch

pub record KvMatch : Type 0 where
  pub name : Text
  pub value : Text

pub record RouteMatch : Type 0 where
  pub path : PathMatch
  pub headers : List KvMatch
  pub query : List KvMatch
  pub method : Option Text

pub data PathRewrite : Type 0 where
  replace_full_path : Text → PathRewrite
  replace_prefix_match : Text → PathRewrite

pub record HeaderOps : Type 0 where
  pub set : List (Text × Text)
  pub add : List (Text × Text)
  pub remove : List Text

pub record Redirect : Type 0 where
  pub scheme : Option Text
  pub hostname : Option Text
  pub port : Option ℕ
  pub status : ℕ
  pub path : Option PathRewrite

pub record Rewrite : Type 0 where
  pub hostname : Option Text
  pub path : Option PathRewrite

pub record Filters : Type 0 where
  pub request_headers : HeaderOps
  pub response_headers : HeaderOps
  pub redirect : Option Redirect
  pub rewrite : Option Rewrite
  -- The cluster of a `Mirror`.
  pub mirror : Option Text

pub record WeightedBackend : Type 0 where
  -- `none`: an invalid or missing backend.
  pub cluster : Option Text
  pub weight : ℕ

pub record Timeouts : Type 0 where
  pub request_ms : Option ℕ
  pub backend_request_ms : Option ℕ
  pub connect_ms : Option ℕ

pub record RouteRule : Type 0 where
  pub route : Text
  pub rule_index : ℕ
  pub creation_timestamp : Text
  pub matches : List RouteMatch
  pub filters : Filters
  pub backends : List WeightedBackend
  pub timeouts : Timeouts
  pub rate_limit : Option RateLimit
  pub plugins : List Plugin

pub data Protocol : Type 0 where
  http https : Protocol

pub record TlsBundle : Type 0 where
  pub secret : Text
  pub cert_pem : Text
  pub key_pem : Text

pub record ListenerConfig : Type 0 where
  pub id : Text
  pub port : ℕ
  pub client_port : Option ℕ
  pub protocol : Protocol
  pub hostname : Option Text
  pub tls : Option TlsBundle
  pub rules : List RouteRule

pub record MatchEntry : Type 0 where
  pub hostname : Option Text
  pub matcher : RouteMatch
  pub rule : ℕ

pub record PortEntry : Type 0 where
  pub listener : ℕ
  pub hostname : Option Text
  pub matcher : RouteMatch
  pub rule : ℕ

pub record ClusterTls : Type 0 where
  pub sni : Text
  pub ca_pem : Option Text
  pub insecure : Bool

pub record OutlierDetection : Type 0 where
  pub consecutive_failures : ℕ
  pub successes_to_recover : ℕ
  pub base_ejection_ms : ℕ
  pub max_ejection_ms : ℕ
  pub max_ejected_percent : ℕ

-- `OutlierDetection::default`.
abbrev pub default_outlier : OutlierDetection
default_outlier = record {
  consecutive_failures = 5;
  successes_to_recover = 5;
  base_ejection_ms = 30000;
  max_ejection_ms = 300000;
  max_ejected_percent = 50;
}

pub record Endpoint : Type 0 where
  pub address : Text
  pub port : ℕ

pub record Cluster : Type 0 where
  pub endpoints : List Endpoint
  pub tls : Option ClusterTls
  -- The host and the port of a `ResolveTarget`.
  pub resolve : Option (Text × ℕ)
  pub outlier : Option OutlierDetection

pub record Config : Type 0 where
  pub listeners : List ListenerConfig
  pub ports : List (ℕ × List PortEntry)
  pub clusters : List (Text × Cluster)
  pub credentials : List (Text × Text)
  pub credential_workspaces : List (Text × Text)
  pub consumer_rate_limits : List (Text × ConsumerRateLimits)
  pub consumers : List (Text × List Text)

-- `a.or(b)`.
abbrev pub or_else {ℓ} : {A : Type ℓ} → Option A → Option A → Option A
or_else none b = b
or_else (some a) b = some a

-- The consumer's own limit, if it has one for the rule's route.
unfoldable pub own_limit : Config → RouteRule → Option Text → Option RateLimit
own_limit c rule caller = and_then caller (λ name.
    and_then (lookup name c.consumer_rate_limits)
      (λ limits. or_else (lookup rule.route limits.routes) limits.any))

unfoldable pub rate_limit_for : Config → RouteRule → Option Text → Option (RateLimit × Bool)
rate_limit_for c rule caller = elim (own_limit c rule caller) [
  | some limit ↦ some (limit, true)
  | none ↦ elim rule.rate_limit [ none ↦ none | some limit ↦ some (limit, false) ]
]
