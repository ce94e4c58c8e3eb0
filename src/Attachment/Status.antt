-- ===== src/Attachment/Status.antt =====
-- What a route is told about a parent: `accepted_condition` and `resolved_condition` of
-- crates/gapura-core/src/translate/routes.rs.
use gapura.Prelude.{
  ℤ, ◌==◌, Bool, true, false, Option, Text, codes, ltb, Result, ok, err, if◌then◌else◌,
}
use gapura.Snapshot.{Condition, true_, false_}
use gapura.Attachment.{Outcome, Compiled}

abbrev route_condition : Text → Bool → Text → Text → Option ℤ → Condition
route_condition type_ holds reason message generation = record {
  type_ = type_;
  status = if holds then true_ else false_;
  reason = reason;
  message = message;
  observed_generation = generation;
}

abbrev by_outcome : Outcome → Option ℤ → Condition
by_outcome o =
    if ltb 0 o.hostname_ok
    then route_condition (codes "Accepted") true (codes "Accepted") (codes "Route is accepted")
    else if o.matching_listeners == 0
    then route_condition (codes "Accepted") false (codes "NoMatchingParent")
        (codes "No listener matches the parentRef sectionName/port")
    else if o.allowed == 0
    then route_condition (codes "Accepted") false (codes "NotAllowedByListeners")
        (codes "Route is not allowed by any matching listener (namespace or kind)")
    else if ltb 0 o.claimed
    then route_condition (codes "Accepted") false (codes "NoMatchingListenerHostname") (
        codes
          "Every route hostname belongs to a more specific listener on the same port, of this Gateway or another one sharing the port; a request is served by the most specific matching listener only")
    else route_condition (codes "Accepted") false (codes "NoMatchingListenerHostname")
        (codes "No listener hostname intersects the route hostnames")

-- The error is the message of `rules::Unsupported`.
unfoldable pub accepted_condition : Outcome → Result Text Compiled → Option ℤ → Condition
accepted_condition o (err message) generation =
    route_condition (codes "Accepted") false (codes "UnsupportedValue") message generation
accepted_condition o (ok c) generation = by_outcome o generation

unfoldable pub resolved_condition : Result Text Compiled → Option ℤ → Condition
resolved_condition (ok c) generation = c.resolved_refs
resolved_condition (err message) generation =
    route_condition (codes "ResolvedRefs") true (codes "ResolvedRefs")
      (codes "References not evaluated because the route was rejected") generation
