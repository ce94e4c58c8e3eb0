-- ===== src/Snapshot.antt =====
-- The Kubernetes objects that the translation of listeners reads, and whom they admit:
-- crates/gapura-core/src/input.rs, snapshot.rs and status.rs, and the checks of
-- translate/allowed.rs and translate/grants.rs. Of an object, the fields that the translation
-- reads; a map is the list of its pairs.
pub mod Permits
use gapura.Prelude.{
  ℕ, ℤ, Bool, true, false, not, ◌&&◌, List, [], ◌∷◌, Option, none, some, Text, codes, text_eq, any,
  all, if◌then◌else◌, and_then,
}
use gapura.Config.{lookup}

pub record ObjectRef : Type 0 where
  pub namespace : Text
  pub name : Text

pub record RouteGroupKind : Type 0 where
  pub group : Option Text
  pub kind : Text

pub record LabelSelectorRequirement : Type 0 where
  pub key : Text
  pub operator : Text
  pub values : List Text

pub record LabelSelector : Type 0 where
  pub match_labels : List (Text × Text)
  pub match_expressions : List LabelSelectorRequirement

pub record RouteNamespaces : Type 0 where
  pub from : Option Text
  pub selector : Option LabelSelector

pub record AllowedRoutes : Type 0 where
  pub namespaces : Option RouteNamespaces
  pub kinds : List RouteGroupKind

pub record SecretObjectReference : Type 0 where
  pub group : Option Text
  pub kind : Option Text
  pub name : Text
  pub namespace : Option Text

pub record ListenerTls : Type 0 where
  pub mode : Option Text
  pub certificate_refs : List SecretObjectReference

pub record Listener : Type 0 where
  pub name : Text
  pub hostname : Option Text
  pub port : ℕ
  pub protocol : Text
  pub tls : Option ListenerTls
  pub allowed_routes : Option AllowedRoutes

pub record ReferenceGrantFrom : Type 0 where
  pub group : Text
  pub kind : Text
  pub namespace : Text

pub record ReferenceGrantTo : Type 0 where
  pub group : Text
  pub kind : Text
  pub name : Option Text

pub record ReferenceGrant : Type 0 where
  pub namespace : Option Text
  pub from : List ReferenceGrantFrom
  pub to : List ReferenceGrantTo

pub record Secret : Type 0 where
  pub name : Text
  pub type_ : Option Text
  pub data_ : List (Text × Text)

-- Of its metadata, the uid and the generation.
pub record GatewayClass : Type 0 where
  pub uid : Option Text
  pub generation : Option ℤ
  pub controller_name : Text

pub record GatewaySpecAddress : Type 0 where
  pub type_ : Option Text
  pub value : Text

pub record LocalObjectReference : Type 0 where
  pub group : Option Text
  pub kind : Text
  pub name : Text

pub record Gateway : Type 0 where
  pub uid : Option Text
  pub generation : Option ℤ
  pub gateway_class_name : Text
  pub listeners : List Listener
  -- The `parametersRef` of its `infrastructure`.
  pub parameters_ref : Option LocalObjectReference
  pub addresses : List GatewaySpecAddress

pub record Snapshot : Type 0 where
  pub gateway_classes : List (Text × GatewayClass)
  pub gateways : List (ObjectRef × Gateway)
  pub reference_grants : List ReferenceGrant
  -- The labels of each namespace.
  pub namespaces : List (Text × List (Text × Text))
  pub secrets : List (ObjectRef × Secret)

pub record Settings : Type 0 where
  pub controller_name : Text
  pub http_ports : List ℕ
  pub https_ports : List ℕ
  pub gateway_addresses : List Text
  pub gateway_address_overrides : List (Text × List Text)

pub data ConditionStatus : Type 0 where
  true_ false_ unknown : ConditionStatus

pub record Condition : Type 0 where
  pub type_ : Text
  pub status : ConditionStatus
  pub reason : Text
  pub message : Text
  pub observed_generation : Option ℤ

abbrev pub gateway_group : Text
gateway_group = codes "gateway.networking.k8s.io"

-- `Option<String>` against a text: `== Some(t)`, and `is_none_or(|x| x == t)`.
abbrev pub is_some_text : Option Text → Text → Bool
is_some_text none t = false
is_some_text (some x) t = text_eq x t

abbrev pub is_none_or_text : Option Text → Text → Bool
is_none_or_text none t = true
is_none_or_text (some x) t = text_eq x t

abbrev pub or_text : Option Text → Text → Text
or_text none t = t
or_text (some x) t = x

abbrev pub among : Text → List Text → Bool
among t = any (λ x. text_eq x t)

abbrev requirement_of : Option Text → LabelSelectorRequirement → Bool
requirement_of label e =
    if text_eq e.operator (codes "In")
    then elim label [ none ↦ false | some v ↦ among v e.values ]
    else if text_eq e.operator (codes "NotIn")
    then elim label [ none ↦ true | some v ↦ not (among v e.values) ]
    else if text_eq e.operator (codes "Exists")
    then elim label [ none ↦ false | some v ↦ true ]
    else if text_eq e.operator (codes "DoesNotExist")
    then elim label [ none ↦ true | some v ↦ false ]
    else false

unfoldable pub selector_matches : LabelSelector → List (Text × Text) → Bool
selector_matches sel labels =
    all (λ l. is_some_text (lookup l.0 labels) l.1) sel.match_labels
    && all (λ e. requirement_of (lookup e.key labels) e) sel.match_expressions

abbrev namespaces_of : Option AllowedRoutes → Option RouteNamespaces
namespaces_of allowed = and_then allowed (λ a. a.namespaces)

abbrev from_of : Option RouteNamespaces → Text
from_of none = codes "Same"
from_of (some n) = or_text n.from (codes "Same")

abbrev selected : Option RouteNamespaces → Text → Snapshot → Bool
selected namespaces namespace snap = elim (and_then namespaces (λ n. n.selector)) [
  | none ↦ false
  | some selector ↦ elim (lookup namespace snap.namespaces) [
    | none ↦ false
    | some labels ↦ selector_matches selector labels
  ]
]

unfoldable pub namespace_ok : Option AllowedRoutes → Text → ObjectRef → Snapshot → Bool
namespace_ok allowed gateway_namespace route snap =
    let namespaces = namespaces_of allowed in
    if text_eq (from_of namespaces) (codes "All")
    then true
    else if text_eq (from_of namespaces) (codes "Same")
    then text_eq route.namespace gateway_namespace
    else if text_eq (from_of namespaces) (codes "Selector")
    then selected namespaces route.namespace snap
    else false

unfoldable pub is_http_route : RouteGroupKind → Bool
is_http_route k = text_eq k.kind (codes "HTTPRoute") && is_none_or_text k.group gateway_group

abbrev kinds_ok : List RouteGroupKind → Bool
kinds_ok [] = true
kinds_ok (k ∷ kinds) = any is_http_route (k ∷ kinds)

unfoldable pub kind_ok : Option AllowedRoutes → Bool
kind_ok none = true
kind_ok (some a) = kinds_ok a.kinds

-- What a reference is from, and what it is to.
pub record Referrer : Type 0 where
  pub group : Text
  pub kind : Text
  pub namespace : Text

pub record Referent : Type 0 where
  pub group : Text
  pub kind : Text
  pub namespace : Text
  pub name : Text

unfoldable pub permits : Snapshot → Referrer → Referent → Bool
permits snap from to =
    any
      (λ g.
        is_some_text g.namespace to.namespace
        && (any
              (λ f.
                text_eq f.group from.group
                && (text_eq f.kind from.kind && text_eq f.namespace from.namespace))
              g.from
            && any
                (λ t.
                  text_eq t.group to.group
                  && (text_eq t.kind to.kind && is_none_or_text t.name to.name))
                g.to))
      snap.reference_grants
