-- ===== src/Assembly/Tests.antt =====
-- Runs of `assemble` of crates/gapura-core/src/translate/mod.rs, and of the steps around it.
use gapura.Prelude.{
  ℕ, ◌≡◌, refl, pos, true, false, List, [], ◌∷◌, ◌++◌, map, Option, none, some, Text, codes, All,
  contains,
}
use gapura.ClientIp.{IpAddr}
use gapura.Config.{Config, prefix}
use gapura.Matcher.Tests.{rule, on}
use gapura.Precedence.{path_rank, key, entry_key, keyed, sort_port_table}
use gapura.Snapshot.{Snapshot, Settings}
use gapura.Listeners.{ListenerBuild, add_route}
use gapura.Listeners.Tests.{gateway, settings, snap, plain, secure, built_from}
use gapura.Gateways.{
  StatusPatch, GatewayBuild, accept_from, accept, refusal_of, build_gateway, build_from,
}
use gapura.Assembly.Remapped.{
  split_id, gateway_of, slots_from, move_all, remap_overridden_listeners,
}
use gapura.Assembly.Status.{
  addresses_for, same_address, unassigned, gateway_accepted, gateway_programmed, gateway_status,
  note_on, note_listener, note_gateway, note_remapped_ports,
}
use gapura.Assembly.{
  Served, listener_config, serve_listeners, serve_gateways, clusters_of_rules, used_by,
  push_entries, push_tables, sort_ports, listeners_of, config_from, assemble,
}
use gapura.Assembly.Rows.{AreRows, serving_ports-AreRows}
use gapura.Attachment.Ports.{serving_ports}

program : Unit {0}
unfolding gapura.Attachment.Tests.program accept_from accept refusal_of build_gateway build_from
    split_id gateway_of slots_from move_all remap_overridden_listeners addresses_for same_address
    unassigned gateway_accepted gateway_programmed gateway_status note_on note_listener note_gateway
    note_remapped_ports listener_config serve_listeners serve_gateways clusters_of_rules used_by
    push_entries push_tables sort_ports config_from assemble path_rank key entry_key keyed
    sort_port_table gapura.Prelude.Order.sort_keyed gapura.Prelude.Order.insert_keyed
    gapura.Prelude.Order.lex_le
program = tt

abbrev served_plain : ListenerBuild
served_plain =
    add_route (rule (codes "apps/echo") (on (prefix (codes "/"))) ∷ []) (codes "shop.example" ∷ [])
      (built_from snap plain)

-- Two Gateways on one declared port, one of them with an address of its own.
abbrev main_build : GatewayBuild
main_build = record {
  ref_ = gateway;
  uid = none;
  generation = some (pos 1);
  listeners = served_plain ∷ built_from snap secure ∷ [];
  rejected = none;
  requested_addresses = [];
}

abbrev other_build : GatewayBuild
other_build = record main_build {
  ref_ = record { namespace = codes "infra"; name = codes "other" };
  listeners = served_plain ∷ [];
}

abbrev gateways : List GatewayBuild
gateways = main_build ∷ other_build ∷ []

abbrev addressed : Settings
addressed = record settings {
  http_ports = 80 ∷ 8080 ∷ [];
  gateway_address_overrides = (codes "infra/other", codes "192.0.2.9" ∷ []) ∷ [];
}

abbrev no_address : Text → Option IpAddr
no_address t = none

abbrev no_debug : List Text → Text
no_debug ts = []

abbrev ports_of_config : Option (Config × List StatusPatch) → List (ℕ × List ℕ)
ports_of_config none = []
ports_of_config (some out) = map (λ p. (p.0, map (λ e. e.listener) p.1)) out.0.ports

-- The Gateway with its own address is moved to the free port.
moved :
    ports_of_config (assemble no_address no_debug gateways [] addressed [])
    ≡ (80, 0 ∷ []) ∷ (443, []) ∷ (8080, 2 ∷ []) ∷ []
unfolding program
moved = refl

shared :
    ports_of_config (assemble no_address no_debug gateways [] settings [])
    ≡ (80, 0 ∷ 2 ∷ []) ∷ (443, []) ∷ []
unfolding program
shared = refl

abbrev classes : Snapshot
classes = record snap {
  gateway_classes =
      (
        codes "ours",
        record { uid = none; generation = none; controller_name = codes "gapura.dev/controller" },
      )
      ∷ (codes "theirs", record { uid = none; generation = none; controller_name = codes "other" })
      ∷ [];
}

ours : (accept classes settings).0 ≡ codes "ours" ∷ []
unfolding program
ours = refl

abbrev or_nothing : Option (List Served) → List Served
or_nothing none = []
or_nothing (some served) = served

abbrev all_served : List Served
all_served = or_nothing (serve_gateways addressed gateways)

-- Both Gateways keep the names that they have.
serving_ports-AreRows_example :
    AreRows gateways (serving_ports gateways addressed) (listeners_of addressed all_served)
unfolding program contains
serving_ports-AreRows_example =
    serving_ports-AreRows addressed gateways all_served ((refl, refl), ((refl, refl), tt)) refl

same_ports : serving_ports gateways addressed ≡ (some 80 ∷ some 443 ∷ []) ∷ (some 8080 ∷ []) ∷ []
unfolding program
same_ports = refl
