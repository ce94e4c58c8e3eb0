-- ===== src/Assembly.antt =====
-- Step 4 of translation, the configuration and the statuses of Gateways: `assemble` of
-- crates/gapura-core/src/translate/mod.rs. Where the source panics the model has `none`.
pub mod Status
pub mod Remapped
pub mod Tables
pub mod Routed
pub mod Ports
pub mod Serving
pub mod Rows
pub mod Tests
use gapura.Prelude.{
  ℕ, ℤ, suc, ◌==◌, Bool, true, false, not, ◌&&◌, List, [], ◌∷◌, ◌++◌, map, Option, none, some, Text,
  codes, and_then, filter_by, ltb, if◌then◌else◌,
}
use gapura.ClientIp.{IpAddr}
use gapura.Config.{
  Protocol, RouteRule, MatchEntry, PortEntry, ListenerConfig, WeightedBackend, Cluster, Config,
}
use gapura.Precedence.{sort_port_table}
use gapura.Snapshot.{ObjectRef, Settings, among}
use gapura.Listeners.{ListenerBuild, is_some, programmed}
use gapura.Gateways.{GatewayBuild, StatusPatch, key_text, has_override}
use gapura.Assembly.Status.{gateway_status, note_remapped_ports}
use gapura.Assembly.Remapped.{remap_overridden_listeners}

-- What a listener that is served adds to `listeners_cfg`, `overridden` and `tables`.
pub record Served : Type 0 where
  pub config : ListenerConfig
  pub overridden : Bool
  pub table : List MatchEntry

abbrev pub id_of : ObjectRef → ListenerBuild → Text
id_of r l = r.namespace ++ codes "/" ++ r.name ++ codes "/" ++ l.name

-- `none` where the protocol is not supported, and `expect` panics.
unfoldable pub listener_config : ObjectRef → ListenerBuild → Option ListenerConfig
listener_config r l = and_then l.protocol (λ p. some (record {
  id = id_of r l;
  port = l.port;
  client_port = none;
  protocol = p;
  hostname = l.hostname;
  tls = l.tls;
  rules = l.rules;
}))

-- The programmed listeners of a Gateway that is not refused.
unfoldable pub serve_listeners : Settings → ObjectRef → List ListenerBuild → Option (List Served)
serve_listeners settings r [] = some []
serve_listeners settings r (l ∷ ls) = and_then (serve_listeners settings r ls) (λ rest.
    if not (programmed l)
    then some rest
    else and_then (listener_config r l) (λ config.
      some
        (record { config = config; overridden = has_override settings r; table = l.table } ∷ rest)))

unfoldable pub serve_gateways : Settings → List GatewayBuild → Option (List Served)
serve_gateways settings [] = some []
serve_gateways settings (gw ∷ gws) =
    and_then
      (if is_some gw.rejected then some [] else serve_listeners settings gw.ref_ gw.listeners)
      (λ here. and_then (serve_gateways settings gws) (λ rest. some (here ++ rest)))

abbrev clusters_of_backends : List WeightedBackend → List Text
clusters_of_backends [] = []
clusters_of_backends (b ∷ bs) = elim b.cluster [
  | none ↦ clusters_of_backends bs
  | some c ↦ c ∷ clusters_of_backends bs
]

abbrev clusters_of_rule : RouteRule → List Text
clusters_of_rule rule =
    clusters_of_backends rule.backends ++ elim rule.filters.mirror [ none ↦ [] | some c ↦ c ∷ [] ]

unfoldable pub clusters_of_rules : List RouteRule → List Text
clusters_of_rules [] = []
clusters_of_rules (rule ∷ rules) = clusters_of_rule rule ++ clusters_of_rules rules

-- `used`.
unfoldable pub used_by : List Served → List Text
used_by [] = []
used_by (s ∷ served) = clusters_of_rules s.config.rules ++ used_by served

abbrev pub entry_of : ℕ → MatchEntry → PortEntry
entry_of index e = record {
  listener = index;
  hostname = e.hostname;
  matcher = e.matcher;
  rule = e.rule;
}

-- `ports.entry(port).or_default()` with the entries pushed, in the order of ports.
unfoldable pub push_entries :
    ℕ → List PortEntry → List (ℕ × List PortEntry) → List (ℕ × List PortEntry)
push_entries port entries [] = (port, entries) ∷ []
push_entries port entries ((p, bucket) ∷ ports) =
    let rest = push_entries port entries ports in
    if port == p
    then (p, bucket ++ entries) ∷ ports
    else if ltb port p
    then (port, entries) ∷ (p, bucket) ∷ ports
    else (p, bucket) ∷ rest

-- The loop over the tables, with the listener that each belongs to.
unfoldable pub push_tables :
    ℕ
    → List ListenerConfig
    → List (List MatchEntry)
    → List (ℕ × List PortEntry)
    → List (ℕ × List PortEntry)
push_tables index (l ∷ ls) (t ∷ ts) ports =
    push_tables (suc index) ls ts (push_entries l.port (map (entry_of index) t) ports)
push_tables index [] ts ports = ports
push_tables index (l ∷ ls) [] ports = ports

unfoldable pub sort_ports :
    List ListenerConfig → List (ℕ × List PortEntry) → Option (List (ℕ × List PortEntry))
sort_ports listeners [] = some []
sort_ports listeners ((p, entries) ∷ ports) =
    and_then (sort_port_table entries listeners)
      (λ sorted. and_then (sort_ports listeners ports) (λ rest. some ((p, sorted) ∷ rest)))

abbrev pub listeners_of : Settings → List Served → List ListenerConfig
listeners_of settings served =
    remap_overridden_listeners (map (λ s. s.config) served) settings
      (map (λ s. s.overridden) served)

abbrev pub config_of :
    List ListenerConfig → List (Text × Cluster) → List Text → List (ℕ × List PortEntry) → Config
config_of listeners clusters used ports = record {
  listeners = listeners;
  ports = ports;
  clusters = filter_by (λ c. among c.0 used) clusters;
  credentials = [];
  credential_workspaces = [];
  consumer_rate_limits = [];
  consumers = [];
}

-- The configuration of what is served.
unfoldable pub config_from : Settings → List (Text × Cluster) → List Served → Option Config
config_from settings clusters served =
    let listeners = listeners_of settings served in
    and_then (sort_ports listeners (push_tables 0 listeners (map (λ s. s.table) served) []))
      (λ ports. some (config_of listeners clusters (used_by served) ports))

module _ (parse : Text → Option IpAddr) (debug : List Text → Text) where
  unfoldable pub assemble :
      List GatewayBuild
      → List (Text × Cluster)
      → Settings
      → List StatusPatch
      → Option (Config × List StatusPatch)
  assemble gateways clusters settings status =
      let told = status ++ map (gateway_status parse debug settings) gateways in
      and_then (serve_gateways settings gateways) (λ served.
        and_then (config_from settings clusters served)
          (λ config. some (config, note_remapped_ports config.listeners told)))
