-- ===== src/Assembly/Status.antt =====
-- What is written back of a Gateway: the statuses of `assemble`, `addresses_for` and
-- `note_remapped_ports` of crates/gapura-core/src/translate/mod.rs. The standard library's
-- parser of addresses and its printer of strings under `{:?}` are parameters.
use gapura.Prelude.{
  ℕ, ℤ, Bool, true, false, not, ◌&&◌, List, [], ◌∷◌, ◌++◌, map, Option, none, some, Text, codes,
  text_eq, decimal, any, all, filter_by, eq_ignore_ascii_case, if◌then◌else◌,
}
use gapura.ClientIp.{IpAddr, same_ip}
use gapura.Config.{ListenerConfig, lookup}
use gapura.Snapshot.{ObjectRef, Settings, ConditionStatus, true_, false_, unknown, Condition}
use gapura.Listeners.{ListenerBuild, is_some, programmed, conditions}
use gapura.Gateways.{
  ListenerStatus, StatusPatch, gateway_class, gateway, http_route, GatewayBuild, key_text,
}
use gapura.Assembly.Remapped.{split_id}

unfoldable pub addresses_for : Settings → ObjectRef → List Text
addresses_for settings r = elim (lookup (key_text r) settings.gateway_address_overrides) [
  | none ↦ settings.gateway_addresses
  | some addresses ↦ addresses
]

abbrev told : Text → Bool → Option ℤ → Text → Text → Condition
told type_ holds generation reason message = record {
  type_ = type_;
  status = if holds then true_ else false_;
  reason = reason;
  message = message;
  observed_generation = generation;
}

abbrev pub is_served : GatewayBuild → ListenerBuild → Bool
is_served gw l = not (is_some gw.rejected) && programmed l

abbrev pub any_programmed : GatewayBuild → Bool
any_programmed gw = any (is_served gw) gw.listeners

abbrev pub all_programmed : GatewayBuild → Bool
all_programmed gw = all (is_served gw) gw.listeners

abbrev listener_status : GatewayBuild → ListenerBuild → ListenerStatus
listener_status gw l = record {
  name = l.name;
  supported_kinds = l.supported_kinds;
  attached_routes = l.attached_routes;
  conditions = conditions l gw.generation (not (is_some gw.rejected));
}

unfoldable pub gateway_accepted : GatewayBuild → Condition
gateway_accepted gw = elim gw.rejected [
  | some (reason, message) ↦ told (codes "Accepted") false gw.generation reason message
  | none ↦
      if all_programmed gw
      then told (codes "Accepted") true gw.generation (codes "Accepted")
          (codes "Gateway is accepted")
      else if any_programmed gw
      then told (codes "Accepted") true gw.generation (codes "ListenersNotValid")
          (codes "Some listeners are not valid")
      else told (codes "Accepted") false gw.generation (codes "ListenersNotValid")
          (codes "No listener is valid")
]

-- `join(", ")`.
abbrev more_joined : List Text → Text
more_joined [] = []
more_joined (t ∷ ts) = codes ", " ++ t ++ more_joined ts

abbrev joined : List Text → Text
joined [] = []
joined (t ∷ ts) = t ++ more_joined ts

abbrev is_nil : List Text → Bool
is_nil [] = true
is_nil (t ∷ ts) = false

module _ (parse : Text → Option IpAddr) where
  unfoldable pub same_address : Text → Text → Bool
  same_address published requested = elim (parse published) [
    | none ↦ eq_ignore_ascii_case published requested
    | some p ↦ elim (parse requested) [
      | none ↦ eq_ignore_ascii_case published requested
      | some r ↦ same_ip p r
    ]
  ]

module _ (parse : Text → Option IpAddr) (debug : List Text → Text) (settings : Settings) where
  unfoldable pub unassigned : GatewayBuild → List Text
  unassigned gw =
      filter_by (λ a. not (any (λ p. same_address parse p a) (addresses_for settings gw.ref_)))
        gw.requested_addresses

  unfoldable pub gateway_programmed : GatewayBuild → Condition
  gateway_programmed gw =
      if any_programmed gw && not (is_nil (unassigned gw))
      then told (codes "Programmed") false gw.generation (codes "AddressNotAssigned") (
          codes "spec.addresses "
          ++ joined (unassigned gw)
          ++ codes
              " cannot be assigned: static addresses are not supported, the Gateway is served on "
          ++ debug (addresses_for settings gw.ref_))
      else if any_programmed gw
      then told (codes "Programmed") true gw.generation (codes "Programmed")
          (codes "Gateway is programmed")
      else told (codes "Programmed") false gw.generation (codes "Invalid")
          (codes "No listener is programmed")

  unfoldable pub gateway_status : GatewayBuild → StatusPatch
  gateway_status gw = gateway (record {
    namespace = gw.ref_.namespace;
    name = gw.ref_.name;
    uid = gw.uid;
    addresses = addresses_for settings gw.ref_;
    conditions = gateway_accepted gw ∷ gateway_programmed gw ∷ [];
    listeners = map (listener_status gw) gw.listeners;
  })

abbrev is_true : ConditionStatus → Bool
is_true true_ = true
is_true false_ = false
is_true unknown = false

unfoldable pub note_on : ℕ → ℕ → Condition → Condition
note_on effective declared c =
    if text_eq c.type_ (codes "Programmed") && is_true c.status
    then record c {
      message =
          codes "Listener is programmed on port "
          ++ decimal effective
          ++ codes ": declared port "
          ++ decimal declared
          ++ codes
              " is shared and this Gateway is individually addressed, so its Service must target port "
          ++ decimal effective;
    }
    else c

-- The first listener of the name.
unfoldable pub note_listener : Text → ℕ → ℕ → List ListenerStatus → List ListenerStatus
note_listener name effective declared [] = []
note_listener name effective declared (s ∷ statuses) =
    let rest = note_listener name effective declared statuses in
    if text_eq s.name name
    then record s { conditions = map (note_on effective declared) s.conditions } ∷ statuses
    else s ∷ rest

-- The first Gateway of the namespace and the name.
unfoldable pub note_gateway : Text × (Text × Text) → ℕ → ℕ → List StatusPatch → List StatusPatch
note_gateway id effective declared [] = []
note_gateway id effective declared (gateway_class c ∷ patches) =
    gateway_class c ∷ note_gateway id effective declared patches
note_gateway id effective declared (http_route r ∷ patches) =
    http_route r ∷ note_gateway id effective declared patches
note_gateway id effective declared (gateway g ∷ patches) =
    let rest = note_gateway id effective declared patches in
    if text_eq g.namespace id.0 && text_eq g.name id.1.0
    then gateway (record g { listeners = note_listener id.1.1 effective declared g.listeners })
      ∷ patches
    else gateway g ∷ rest

abbrev note_id : Option (Text × (Text × Text)) → ℕ → ℕ → List StatusPatch → List StatusPatch
note_id none effective declared status = status
note_id (some id) effective declared status = note_gateway id effective declared status

unfoldable pub note_remapped_ports : List ListenerConfig → List StatusPatch → List StatusPatch
note_remapped_ports [] status = status
note_remapped_ports (l ∷ ls) status = elim l.client_port [
  | none ↦ note_remapped_ports ls status
  | some declared ↦ note_remapped_ports ls (note_id (split_id l.id) l.port declared status)
]
