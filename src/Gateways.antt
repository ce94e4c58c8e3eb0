-- ===== src/Gateways.antt =====
-- Which GatewayClasses and Gateways are translated, and what is written back of them:
-- crates/gapura-core/src/translate/gateway_class.rs, `build` of translate/listeners.rs, and the
-- patches of crates/gapura-core/src/status.rs.
pub mod Sound
use gapura.Prelude.{
  ℕ, ℤ, Bool, true, false, not, ◌&&◌, ◌||◌, List, [], ◌∷◌, ◌++◌, map, Option, none, some, Text,
  codes, text_eq, find, and_then, if◌then◌else◌,
}
use gapura.Config.{lookup, or_else}
use gapura.Snapshot.{
  ObjectRef, RouteGroupKind, GatewayClass, GatewaySpecAddress, LocalObjectReference, Listener,
  Gateway, Snapshot, Settings, Condition, true_, or_text, among,
}
use gapura.Listeners.{Rejection, ListenerBuild, is_some}
use gapura.Listeners.Building.{build_listener, detect_conflicts}

pub record ParentReference : Type 0 where
  pub group : Option Text
  pub kind : Option Text
  pub namespace : Option Text
  pub name : Text
  pub section_name : Option Text
  pub port : Option ℕ

pub record ListenerStatus : Type 0 where
  pub name : Text
  pub supported_kinds : List RouteGroupKind
  pub attached_routes : ℕ
  pub conditions : List Condition

pub record RouteParentStatus : Type 0 where
  pub parent_ref : ParentReference
  pub controller_name : Text
  pub conditions : List Condition

pub record GatewayClassStatus : Type 0 where
  pub name : Text
  pub uid : Option Text
  pub conditions : List Condition
  pub supported_features : List Text

pub record GatewayStatus : Type 0 where
  pub namespace : Text
  pub name : Text
  pub uid : Option Text
  pub addresses : List Text
  pub conditions : List Condition
  pub listeners : List ListenerStatus

pub record HttpRouteStatus : Type 0 where
  pub namespace : Text
  pub name : Text
  pub uid : Option Text
  pub parents : List RouteParentStatus

-- `StatusPatch`.
pub data StatusPatch : Type 0 where
  gateway_class : GatewayClassStatus → StatusPatch
  gateway : GatewayStatus → StatusPatch
  http_route : HttpRouteStatus → StatusPatch

abbrev pub supported_features : List Text
supported_features =
    codes "Gateway"
    ∷ codes "HTTPRoute"
    ∷ codes "HTTPRoute303RedirectStatusCode"
    ∷ codes "HTTPRoute307RedirectStatusCode"
    ∷ codes "HTTPRoute308RedirectStatusCode"
    ∷ codes "HTTPRouteRequestMirror"
    ∷ codes "PathMatchRegularExpression"
    ∷ codes "ReferenceGrant"
    ∷ []

abbrev class_status : Text → GatewayClass → StatusPatch
class_status name class = gateway_class (record {
  name = name;
  uid = class.uid;
  conditions =
      record {
        type_ = codes "Accepted";
        status = true_;
        reason = codes "Accepted";
        message = codes "Handled by Gapura";
        observed_generation = class.generation;
      }
      ∷ [];
  supported_features = supported_features;
})

-- The names of our classes, and what they are told.
unfoldable pub accept_from : Text → List (Text × GatewayClass) → List Text × List StatusPatch
accept_from controller [] = ([], [])
accept_from controller ((name, class) ∷ classes) =
    let (names, patches) = accept_from controller classes in
    if not (text_eq class.controller_name controller)
    then (names, patches)
    else (name ∷ names, class_status name class ∷ patches)

unfoldable pub accept : Snapshot → Settings → List Text × List StatusPatch
accept snap settings = accept_from settings.controller_name snap.gateway_classes

abbrev is_understood : Text → Bool
is_understood t = text_eq t (codes "IPAddress") || text_eq t (codes "Hostname")

abbrev of_parameters : LocalObjectReference → Rejection
of_parameters r = (
  codes "InvalidParameters",
  codes "spec.infrastructure.parametersRef "
      ++ or_text r.group []
      ++ codes "/"
      ++ r.kind
      ++ codes " "
      ++ r.name
      ++ codes " is not supported",
)

abbrev of_address : Text → Rejection
of_address t = (
  codes "UnsupportedAddress",
  codes "spec.addresses type " ++ t ++ codes " is not supported, use IPAddress or Hostname",
)

abbrev some_map : {A B : Type 0} → (A → B) → Option A → Option B
some_map f none = none
some_map f (some a) = some (f a)

-- Why a Gateway itself is refused.
unfoldable pub refusal_of : Gateway → Option Rejection
refusal_of gw = or_else (some_map of_parameters gw.parameters_ref) (
    some_map of_address (
      find (λ t. not (is_understood t))
        (map (λ a. or_text a.type_ (codes "IPAddress")) gw.addresses)))

pub record GatewayBuild : Type 0 where
  pub ref_ : ObjectRef
  pub uid : Option Text
  pub generation : Option ℤ
  pub listeners : List ListenerBuild
  pub rejected : Option Rejection
  pub requested_addresses : List Text

-- `{namespace}/{name}`.
abbrev pub key_text : ObjectRef → Text
key_text r = r.namespace ++ codes "/" ++ r.name

-- Whether a Gateway has addresses of its own.
abbrev pub has_override : Settings → ObjectRef → Bool
has_override settings r = is_some (lookup (key_text r) settings.gateway_address_overrides)

module _ (decode : Text → Option Text) (from_utf8 : Text → Option Text) where
  unfoldable pub build_gateway : Snapshot → Settings → ObjectRef → Gateway → GatewayBuild
  build_gateway snap settings r gw = record {
    ref_ = r;
    uid = gw.uid;
    generation = gw.generation;
    listeners =
        detect_conflicts
          (map (λ l. build_listener decode from_utf8 l r snap settings) gw.listeners);
    rejected = refusal_of gw;
    requested_addresses = map (λ a. a.value) gw.addresses;
  }

  unfoldable pub build_from :
      Snapshot → Settings → List Text → List (ObjectRef × Gateway) → List GatewayBuild
  build_from snap settings classes [] = []
  build_from snap settings classes ((r, gw) ∷ gateways) =
      let rest = build_from snap settings classes gateways in
      if not (among gw.gateway_class_name classes)
      then rest
      else build_gateway snap settings r gw ∷ rest

  -- `build`.
  unfoldable pub build : Snapshot → Settings → List Text → List GatewayBuild
  build snap settings classes = build_from snap settings classes snap.gateways
