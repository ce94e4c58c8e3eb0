-- ===== src/Attachment/Tests.antt =====
-- Runs of the code of crates/gapura-core/src/translate/routes.rs and of `remap_targets` in
-- crates/gapura-core/src/translate/mod.rs.
use gapura.Prelude.{
  ℕ, suc, ◌≡◌, ◌≢◌, ◌↔◌, ◌⊎◌, refl, true, false, List, [], ◌∷◌, map, Option, none, some, Text,
  codes, text_eq, ok, err, ltb, In, decimal,
}
use gapura.Hostname.{matches, intersect, specificity}
use gapura.Snapshot.{true_, AllowedRoutes}
use gapura.Listeners.{ListenerBuild}
use gapura.Listeners.Tests.{gateway, settings, snap, plain, built_from}
use gapura.Gateways.{GatewayBuild, ParentReference}
use gapura.Attachment.{
  Compiled, Attaching, position_from, our_gateway, claims_from, yield_to_siblings, names_other,
  attached_to, admits, attach_listener, attach_from, attach_to_gateway,
}
use gapura.Attachment.Status.{accepted_condition, resolved_condition}
use gapura.Attachment.Ports.{
  RemapSlot, Group, group_of, same_group, target_of, free_port, remap_on, remap_targets,
  slots_of_listeners, slots_of, fill_listeners, fill_gateways, serving_ports, siblings_in,
  siblings_from, siblings,
}
use gapura.Attachment.Targets.{IsAllotment, AllMoved, IsUsedUp, remap_targets-IsAllotment}
use gapura.Attachment.{own_port}
use gapura.Attachment.Yielding.{IsOwnPort, IsYielded, yield_to_siblings-IsYielded}
use gapura.Attachment.Accepted.{
  IsTaken, AllChanged, attach_to_gateway-AllChanged, attach_to_gateway_accepted_iff,
}

unfoldable pub program : Unit {0}
unfolding gapura.Listeners.Tests.program position_from our_gateway claims_from yield_to_siblings
    names_other attached_to admits attach_listener attach_from attach_to_gateway accepted_condition
    resolved_condition same_group target_of free_port remap_on remap_targets slots_of_listeners
    slots_of fill_listeners fill_gateways serving_ports siblings_in siblings_from siblings matches
    intersect specificity gapura.Hostname.candidates gapura.Hostname.narrow gapura.Hostname.narrower
    gapura.Prelude.strip_prefix gapura.Prelude.to_lower gapura.Hostname.has_suffix
    gapura.Hostname.dedup gapura.Hostname.sort gapura.Hostname.insert_text gapura.Prelude.text_le
program = tt

abbrev open_to_all : Option AllowedRoutes
open_to_all = some (record {
  namespaces = some (record { from = some (codes "All"); selector = none });
  kinds = [];
})

-- A listener for a wildcard and one for a host under it, on one port.
abbrev wide : ListenerBuild
wide = built_from snap (record plain {
  name = codes "wide";
  hostname = some (codes "*.example");
  allowed_routes = open_to_all;
})

abbrev shop : ListenerBuild
shop = built_from snap (record plain {
  name = codes "shop";
  hostname = some (codes "shop.example");
  allowed_routes = open_to_all;
})

abbrev gateways : List GatewayBuild
gateways =
    record {
      ref_ = gateway;
      uid = none;
      generation = none;
      requested_addresses = [];
      listeners = wide ∷ shop ∷ [];
      rejected = none;
    }
    ∷ []

abbrev parent : ParentReference
parent = record {
  group = none;
  kind = none;
  namespace = some (codes "infra");
  name = codes "main";
  section_name = none;
  port = none;
}

abbrev compiled : Compiled
compiled = record {
  rules = [];
  resolved_refs = record {
    type_ = codes "ResolvedRefs";
    status = true_;
    reason = [];
    message = [];
    observed_generation = none;
  };
}

abbrev attaching : Attaching
attaching = record {
  gateway = 0;
  gateway_ref = gateway;
  siblings = siblings gateways settings;
  pref = parent;
  hostnames = codes "shop.example" ∷ codes "blog.example" ∷ [];
  rref = record { namespace = codes "apps"; name = codes "route" };
  snap = snap;
  compiled = some compiled;
}

found :
    our_gateway gateways parent (record { namespace = codes "apps"; name = codes "route" }) ≡ some 0
unfolding program
found = refl

ports : serving_ports gateways settings ≡ (some 80 ∷ some 80 ∷ []) ∷ []
unfolding program
ports = refl

-- The wildcard listener leaves the host to the listener that names it.
left_to_shop :
    yield_to_siblings
      (codes "shop.example" ∷ codes "blog.example" ∷ [])
      (0, 0)
      wide
      (siblings gateways settings)
    ≡ some (codes "blog.example" ∷ [])
unfolding program
left_to_shop = refl

counted : (attach_to_gateway attaching [] (wide ∷ shop ∷ [])).0.outcome.hostname_ok ≡ 2
unfolding program
counted = refl

attached_once :
    map
      (λ l. l.attached_routes)
      (attach_to_gateway attaching (codes "infra/main/wide" ∷ []) (wide ∷ shop ∷ [])).1
    ≡ 0 ∷ 1 ∷ []
unfolding program
attached_once = refl

abbrev slot : ℕ → RemapSlot
slot p = record { gateway = codes "infra/main"; https = false; port = p; overridden = true }

abbrev slots : List RemapSlot
slots = slot 80 ∷ slot 8080 ∷ slot 80 ∷ record (slot 9000) { overridden = false } ∷ []

moved :
    remap_targets slots (record settings { http_ports = 80 ∷ 8081 ∷ 8080 ∷ 8082 ∷ [] })
    ≡ some 8081 ∷ some 8082 ∷ some 8081 ∷ none ∷ []
unfolding program
moved = refl

used_up : remap_targets slots settings ≡ none ∷ none ∷ none ∷ none ∷ []
unfolding program
used_up = refl

yield_to_siblings-IsYielded_example :
    IsOwnPort
      (0, 0)
      wide
      (siblings gateways settings)
      (own_port (0, 0) wide (siblings gateways settings))
    × IsYielded
        (0, 0)
        wide
        (siblings gateways settings)
        (codes "shop.example" ∷ [])
        (yield_to_siblings (codes "shop.example" ∷ []) (0, 0) wide (siblings gateways settings))
yield_to_siblings-IsYielded_example =
    yield_to_siblings-IsYielded (0, 0) wide (siblings gateways settings) (codes "shop.example" ∷ [])

attach_to_gateway-AllChanged_example :
    AllChanged attaching
      (codes "infra/main/wide" ∷ [])
      0
      (wide ∷ shop ∷ [])
      (attach_to_gateway attaching (codes "infra/main/wide" ∷ []) (wide ∷ shop ∷ [])).1
      (attach_to_gateway attaching (codes "infra/main/wide" ∷ []) (wide ∷ shop ∷ [])).0.attached
attach_to_gateway-AllChanged_example =
    attach_to_gateway-AllChanged attaching (codes "infra/main/wide" ∷ []) (wide ∷ shop ∷ [])

attach_to_gateway_accepted_iff_example :
    ((accepted_condition
        (attach_to_gateway attaching [] (wide ∷ shop ∷ [])).0.outcome
        (ok compiled)
        none).status
      ≡ true_)
    ↔ IsTaken attaching 0 (wide ∷ shop ∷ [])
attach_to_gateway_accepted_iff_example =
    attach_to_gateway_accepted_iff attaching [] (wide ∷ shop ∷ []) compiled none

remap_targets-IsAllotment_example :
    (look : Group → Option ℕ) × IsAllotment settings slots look
    × AllMoved look slots (remap_targets slots settings)
    × ((s : RemapSlot)
        → In s slots
        → s.overridden ≡ true
        → look (group_of s) ≡ none
        → IsUsedUp settings slots look (group_of s))
remap_targets-IsAllotment_example = remap_targets-IsAllotment slots settings
