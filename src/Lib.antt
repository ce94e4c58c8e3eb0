-- ===== src/Lib.antt =====
-- Verification of gapura, a Kubernetes ingress gateway written in Rust.
--
-- The core crate (crates/gapura-core) turns Kubernetes resources into one `Config` and holds the
-- pure decisions on it; the data plane (crates/gapura) serves requests by that `Config`; the
-- control plane (crates/gapura-control) stores and hands out configuration behind a console. A
-- request passes the parts in this order: its path is normalised, its client's address is found,
-- the port's sorted table is searched for the first entry that applies, the rule's policies are
-- asked, a backend and one of its endpoints are picked, and the outcome is recorded for the
-- endpoint.
--
-- - Prelude: shared names, bytes and text (a `str` is the list of its UTF-8 bytes), lists,
--   stable sorting by a key.
-- - Path models `normalize_path` and `without_path_params` of crates/gapura-core/src/path.rs.
-- - Hostname models `matches`, `intersect` and `specificity` of
--   crates/gapura-core/src/hostname.rs.
-- - ClientIp models `Cidr::from_str`, its `Display`, `Cidr::contains` and `client_ip` of
--   crates/gapura-core/src/client_ip.rs. An address is the number that its 32 or 128 bits stand
--   for.
-- - Config models the data of crates/gapura-core/src/config.rs and `Config::rate_limit_for`;
--   Config/Policy the policies with their decisions (`IpRestrictionPolicy::refusal`,
--   `AclPolicy::refusal`, `CorsPolicy::allowed`, `Plugin::phases`).
-- - Precedence models `key` and `sort_port_table` of
--   crates/gapura-core/src/translate/precedence.rs: the order of a port's table.
-- - Matcher models `match_port_with` and `tls_for` of crates/gapura-core/src/matcher.rs, which
--   read the table that Precedence sorts.
-- - Regexes models `compile_regexes` of the same file: the map that Matcher reads.
-- - Select models `pick_backend` and `pick_endpoint` of crates/gapura/src/proxy/select.rs, and
--   Redirects its `rewrite_path` and `redirect_location`.
-- - RateLimit models the windows of crates/gapura/src/proxy/rate_limit.rs: `check_at`, the sweep
--   of ended windows, and the cap on windows that count by a header's value.
-- - Outlier models a health record of crates/gapura/src/proxy/outlier.rs: `Health::record`, each
--   call one step, since the source holds the record's lock throughout. Outlier/Registry models
--   `Registry::sync` and `ejected_at` of the same file: the records that clusters share.
-- - Throttle models the counters of crates/gapura-control/src/throttle.rs, which limit failed
--   sign-ins and sign-ups: `Counter`, `counter`, `reserve_at` and `settle_in`.
-- - Durations models `parse_millis` of crates/gapura-core/src/duration.rs.
-- - Snapshot models the objects of crates/gapura-core/src/input.rs, snapshot.rs and status.rs
--   that the modelled translation reads, and whom they admit: translate/allowed.rs and
--   translate/grants.rs.
-- - Listeners models `build_listener`, `resolve_tls`, `detect_conflicts` and the methods of
--   `ListenerBuild` of crates/gapura-core/src/translate/listeners.rs, which ask Snapshot about
--   grants.
-- - Gateways models `accept` of crates/gapura-core/src/translate/gateway_class.rs, `build` of
--   translate/listeners.rs and the status patches of crates/gapura-core/src/status.rs.
-- - Attachment models `our_gateway`, `attach_to_gateway`, `yield_to_siblings`, `siblings` and
--   the conditions of crates/gapura-core/src/translate/routes.rs, which change the listeners that
--   Listeners builds; Attachment/Ports the ports that they serve on, `remap_targets` and
--   `serving_ports` of crates/gapura-core/src/translate/mod.rs.
-- - Assembly models `assemble` of crates/gapura-core/src/translate/mod.rs, which turns what
--   Gateways builds and Attachment adds to into the `Config` of Config: its tables in Assembly,
--   the statuses with `note_remapped_ports` and `addresses_for` in Assembly/Status, and
--   `remap_overridden_listeners` in Assembly/Remapped.
-- - SameOrigin models `verdict` of crates/gapura-control/src/same_origin.rs, which refuses what
--   another site's page may have sent to the console.
-- - Leader models crates/gapura/src/source/kubernetes/leader.rs: `decide`, `step`,
--   `step_budget`, `publish` and the passes of the loop in `run`, with the API server's answers as
--   arguments.
-- - Access models the roles of crates/gapura-control/src/access.rs (`Rows::effective`,
--   `grantable`, `waiting`, `access_in`), Grants the changes of them in
--   crates/gapura-control/src/grants.rs (`authorise`, `direct_changes`, `parse_role_changes`,
--   `parse_mapping`), which ask Access who may make them, and Scope models `visible` of
--   crates/gapura-control/src/scope.rs.
--
-- The modelled functions recurse on their input, but for the digits of a number in text, which are
-- on fuel: the number itself, which is at least as many as it has digits (decimal-value), and the
-- loop of `parse_millis`, on fuel of five passes, its most (parse_on-enough). Numbers are natural
-- numbers; where the source's width matters (the saturating counters and times) the bound is
-- written out. Code outside the repository is a parameter: the standard library's parser and
-- printer of addresses, the compiler of regular expressions, the random roll, and the digest of a
-- header's value. Maps are association lists in which the first entry of a key counts. Indexing
-- that panics in Rust when it is out of range gives `none` in the model.
--
-- Not modelled: of the translation from Kubernetes resources, the compilation of a route's rules
-- and backends (translate/rules.rs, backends.rs, backend_tls.rs) and the outer loop of `attach`,
-- which compiles each route before it attaches it; the proxy's own request loop and its plugins,
-- metrics and logs, the sources of configuration, and the rest of the control plane
-- (crates/gapura-control) with its database and HTTP interface.
pub mod Access
pub mod Assembly
pub mod Attachment
pub mod ClientIp
pub mod Config
pub mod Durations
pub mod Gateways
pub mod Grants
pub mod Hostname
pub mod Leader
pub mod Listeners
pub mod Matcher
pub mod Outlier
pub mod Path
pub mod Precedence
pub mod Prelude
pub mod RateLimit
pub mod Redirects
pub mod Regexes
pub mod SameOrigin
pub mod Scope
pub mod Select
pub mod Snapshot
pub mod Throttle
