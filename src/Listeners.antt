-- ===== src/Listeners.antt =====
-- Step 2 of translation, Gateway listeners: crates/gapura-core/src/translate/listeners.rs. The
-- decoder of base64 and the standard library's check of UTF-8 are parameters.
pub mod Tls
pub mod Building
pub mod Served
pub mod Certificates
pub mod Conflicts
pub mod Sound
pub mod Tests
use gapura.Prelude.{
  ℕ, ℤ, zero, suc, ◌+◌, ◌==◌, Bool, true, false, not, ◌&&◌, ◌||◌, List, [], ◌∷◌, ◌++◌, map, Option,
  none, some, Text, codes, text_eq, decimal, any, all, length, Result, ok, err, ◌>>=◌, trim,
  contains_text, to_ascii_lowercase, and_then, if◌then◌else◌,
}
use gapura.Config.{Protocol, http, https, TlsBundle, RouteRule, MatchEntry, lookup}
use gapura.Snapshot.{
  ObjectRef, RouteGroupKind, AllowedRoutes, SecretObjectReference, ListenerTls, Listener, Secret,
  Snapshot, Settings, Condition, true_, false_, gateway_group, or_text, is_some_text,
  is_none_or_text, is_http_route, permits,
}

-- A reason and a message.
abbrev pub Rejection : Type 0
Rejection = Text × Text

pub record ListenerBuild : Type 0 where
  pub name : Text
  pub port : ℕ
  pub hostname : Option Text
  pub protocol : Option Protocol
  pub allowed : Option AllowedRoutes
  pub tls : Option TlsBundle
  pub accepted : Result Rejection Unit
  pub resolved : Result Rejection Unit
  pub conflict : Option Rejection
  pub supported_kinds : List RouteGroupKind
  pub attached_routes : ℕ
  pub rules : List RouteRule
  pub table : List MatchEntry

abbrev pub is_some : {A : Type 0} → Option A → Bool
is_some none = false
is_some (some a) = true

abbrev pub is_ok : {E A : Type 0} → Result E A → Bool
is_ok (ok a) = true
is_ok (err e) = false

abbrev is_empty : {A : Type 0} → List A → Bool
is_empty [] = true
is_empty (x ∷ xs) = false

abbrev pub is_https : Option Protocol → Bool
is_https none = false
is_https (some http) = false
is_https (some https) = true

abbrev pub serves_despite : ListenerBuild → Rejection → Bool
serves_despite l e =
    text_eq e.0 (codes "InvalidRouteKinds")
    && (not (is_empty l.supported_kinds) && (not (is_https l.protocol) || is_some l.tls))

-- `ListenerBuild::serves`.
unfoldable pub serves : ListenerBuild → Bool
serves l = elim l.resolved [ ok u ↦ true | err e ↦ serves_despite l e ]

-- `ListenerBuild::programmed`.
unfoldable pub programmed : ListenerBuild → Bool
programmed l = is_ok l.accepted && (not (is_some l.conflict) && serves l)

abbrev condition : Text → Bool → Text → Text → Option ℤ → Condition
condition type_ status reason message generation = record {
  type_ = type_;
  status = if status then true_ else false_;
  reason = reason;
  message = message;
  observed_generation = generation;
}

abbrev accepted_is : Result Rejection Unit → Option ℤ → Condition
accepted_is (ok u) =
    condition (codes "Accepted") true (codes "Accepted") (codes "Listener is accepted")
accepted_is (err e) = condition (codes "Accepted") false e.0 e.1

abbrev programmed_is : Bool → Option ℤ → Condition
programmed_is true =
    condition (codes "Programmed") true (codes "Programmed") (codes "Listener is programmed")
programmed_is false =
    condition (codes "Programmed") false (codes "Invalid") (codes "Listener is not valid")

abbrev resolved_is : Result Rejection Unit → Option ℤ → Condition
resolved_is (ok u) =
    condition (codes "ResolvedRefs") true (codes "ResolvedRefs") (codes "All references resolved")
resolved_is (err e) = condition (codes "ResolvedRefs") false e.0 e.1

abbrev conflicted_is : Option Rejection → Option ℤ → Condition
conflicted_is none =
    condition (codes "Conflicted") false (codes "NoConflicts") (codes "No conflicts")
conflicted_is (some e) = condition (codes "Conflicted") true e.0 e.1

-- `ListenerBuild::conditions`.
unfoldable pub conditions : ListenerBuild → Option ℤ → Bool → List Condition
conditions l generation gateway_ok =
    accepted_is l.accepted generation
    ∷ programmed_is (gateway_ok && programmed l) generation
    ∷ resolved_is l.resolved generation
    ∷ conflicted_is l.conflict generation
    ∷ []

-- `ListenerBuild::add_route`: no hostname stands for any host.
abbrev pub hosts_of : List Text → List (Option Text)
hosts_of [] = none ∷ []
hosts_of (h ∷ hs) = map some (h ∷ hs)

abbrev pub entries_of : ℕ → RouteRule → List (Option Text) → List MatchEntry
entries_of idx rule [] = []
entries_of idx rule (host ∷ hosts) =
    map (λ m. record { hostname = host; matcher = m; rule = idx }) rule.matches
    ++ entries_of idx rule hosts

unfoldable pub add_route : List RouteRule → List Text → ListenerBuild → ListenerBuild
add_route [] hostnames l = l
add_route (rule ∷ rules) hostnames l = add_route rules hostnames (record l {
  rules = l.rules ++ rule ∷ [];
  table = l.table ++ entries_of (length l.rules) rule (hosts_of hostnames);
})

unfoldable pub protocol_of : Text → Option Protocol
protocol_of p =
    if text_eq p (codes "HTTP")
    then some http
    else if text_eq p (codes "HTTPS")
    then some https
    else none

unfoldable pub passthrough : Listener → Bool
passthrough l = elim (and_then l.tls (λ t. t.mode)) [
  | none ↦ false
  | some m ↦ not (text_eq m (codes "Terminate"))
]

unfoldable pub bound_ports : Settings → Option Protocol → List ℕ
bound_ports settings protocol =
    if is_https protocol then settings.https_ports else settings.http_ports

-- `{:?}` of a list of numbers.
abbrev more_ports : List ℕ → Text
more_ports [] = codes "]"
more_ports (p ∷ ps) = codes ", " ++ decimal p ++ more_ports ps

abbrev ports_text : List ℕ → Text
ports_text [] = codes "[]"
ports_text (p ∷ ps) = codes "[" ++ decimal p ++ more_ports ps

unfoldable pub accept_listener : Listener → Settings → Result Rejection Unit
accept_listener l settings =
    let protocol = protocol_of l.protocol in
    let bound = bound_ports settings protocol in
    if not (is_some protocol)
    then err (
      codes "UnsupportedProtocol",
      codes "protocol " ++ l.protocol ++ codes " is not supported, use HTTP or HTTPS",
    )
    else if not (any (λ p. p == l.port) bound)
    then err (
      codes "PortUnavailable",
      codes "port "
          ++ decimal l.port
          ++ codes " is not bound for "
          ++ l.protocol
          ++ codes " by this deployment, bound ports: "
          ++ ports_text bound,
    )
    else if is_https protocol && passthrough l
    then err (codes "UnsupportedProtocol", codes "TLS passthrough is not supported in v0.1")
    else ok tt

abbrev http_route_kind : RouteGroupKind
http_route_kind = record { group = some gateway_group; kind = codes "HTTPRoute" }

abbrev kinds_of : List RouteGroupKind → List RouteGroupKind × Bool
kinds_of [] = (http_route_kind ∷ [], true)
kinds_of (k ∷ kinds) = (
  if any is_http_route (k ∷ kinds) then http_route_kind ∷ [] else [],
  all is_http_route (k ∷ kinds),
)

unfoldable pub supported_kinds : Option AllowedRoutes → List RouteGroupKind × Bool
supported_kinds none = (http_route_kind ∷ [], true)
supported_kinds (some a) = kinds_of a.kinds
