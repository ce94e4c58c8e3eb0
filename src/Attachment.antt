-- ===== src/Attachment.antt =====
-- Step 3 of translation, routes to listeners: crates/gapura-core/src/translate/routes.rs. What a
-- route was compiled to is an argument, as it is of `attach_to_gateway`.
pub mod Status
pub mod Ports
pub mod Allotment
pub mod Targets
pub mod Yielding
pub mod Attached
pub mod Added
pub mod Accepted
pub mod Sound
pub mod Tests
use gapura.Prelude.{
  ℕ, suc, ◌+◌, ◌%◌, ◌^◌, ◌==◌, Bool, true, false, not, ◌&&◌, ◌||◌, List, [], ◌∷◌, ◌++◌, map, Option,
  none, some, Text, codes, text_eq, any, find, filter_by, ltb, Result, ok, err, and_then,
  if◌then◌else◌,
}
use gapura.Config.{Protocol, RouteRule}
use gapura.Hostname.{matches, intersect, specificity}
use gapura.Snapshot.{
  ObjectRef, Snapshot, Condition, true_, false_, gateway_group, or_text, is_some_text,
  is_none_or_text, among, namespace_ok, kind_ok,
}
use gapura.Gateways.{GatewayBuild, ParentReference}
use gapura.Listeners.{Rejection, ListenerBuild, programmed, add_route}
use gapura.Listeners.Building.{protocol_eq}

-- `rules::Compiled`.
pub record Compiled : Type 0 where
  pub rules : List RouteRule
  pub resolved_refs : Condition

abbrev is_gateway : ParentReference → Bool
is_gateway pref =
    text_eq (or_text pref.group gateway_group) gateway_group
    && text_eq (or_text pref.kind (codes "Gateway")) (codes "Gateway")

-- `position`.
unfoldable pub position_from : ℕ → Text → Text → List GatewayBuild → Option ℕ
position_from i namespace name [] = none
position_from i namespace name (g ∷ gs) =
    let rest = position_from (suc i) namespace name gs in
    if text_eq g.ref_.namespace namespace && text_eq g.ref_.name name then some i else rest

unfoldable pub our_gateway : List GatewayBuild → ParentReference → ObjectRef → Option ℕ
our_gateway gateways pref rref =
    if is_gateway pref
    then position_from 0 (or_text pref.namespace rref.namespace) pref.name gateways
    else none

pub record Outcome : Type 0 where
  pub matching_listeners : ℕ
  pub allowed : ℕ
  pub hostname_ok : ℕ
  pub claimed : ℕ

pub record Sibling : Type 0 where
  pub at : ℕ × ℕ
  pub port : ℕ
  pub protocol : Protocol
  pub hostname : Option Text

abbrev pub same_place : ℕ × ℕ → ℕ × ℕ → Bool
same_place a b = a.0 == b.0 && a.1 == b.1

abbrev pub own_port : ℕ × ℕ → ListenerBuild → List Sibling → ℕ
own_port at own siblings = elim (find (λ s. same_place s.at at) siblings) [
  | none ↦ own.port
  | some s ↦ s.port
]

-- The order of the derived pairs.
abbrev pub above : ℕ × ℕ → ℕ × ℕ → Bool
above a b = ltb b.0 a.0 || a.0 == b.0 && ltb b.1 a.1

abbrev pub covers : Option Text → Text → Bool
covers none h = false
covers (some pattern) h = matches pattern h

-- A sibling that a hostname belongs to rather than to the listener at `at`.
unfoldable pub claims_from : ℕ × ℕ → ℕ → ListenerBuild → Text → Sibling → Bool
claims_from at port own h s =
    not (same_place s.at at)
    && (s.port == port
        && (protocol_eq (some s.protocol) own.protocol
            && (above (specificity s.hostname) (specificity own.hostname) && covers s.hostname h)))

abbrev pub claimed_by_any : ℕ × ℕ → ListenerBuild → List Sibling → Text → Bool
claimed_by_any at own siblings h = any (claims_from at (own_port at own siblings) own h) siblings

abbrev pub none_if_empty : List Text → Option (List Text)
none_if_empty [] = none
none_if_empty (h ∷ hs) = some (h ∷ hs)

unfoldable pub yield_to_siblings :
    List Text → ℕ × ℕ → ListenerBuild → List Sibling → Option (List Text)
yield_to_siblings [] at own siblings = some []
yield_to_siblings (h ∷ hosts) at own siblings =
    none_if_empty (filter_by (λ x. not (claimed_by_any at own siblings x)) (h ∷ hosts))

-- What the loop over a Gateway's listeners keeps.
pub record Progress : Type 0 where
  pub outcome : Outcome
  pub attached : List Text

abbrev pub no_outcome : Outcome
no_outcome = record { matching_listeners = 0; allowed = 0; hostname_ok = 0; claimed = 0 }

abbrev other_port : Option ℕ → ℕ → Bool
other_port none p = false
other_port (some q) p = not (q == p)

abbrev other_section : Option Text → Text → Bool
other_section none name = false
other_section (some s) name = not (text_eq s name)

unfoldable pub names_other : ParentReference → ListenerBuild → Bool
names_other pref l = other_section pref.section_name l.name || other_port pref.port l.port

-- What the attachment of one route needs to know.
pub record Attaching : Type 0 where
  pub gateway : ℕ
  pub gateway_ref : ObjectRef
  pub siblings : List Sibling
  pub pref : ParentReference
  pub hostnames : List Text
  pub rref : ObjectRef
  pub snap : Snapshot
  pub compiled : Option Compiled

-- `{gw_id}/{name}`, with `Display` of an `ObjectRef`.
abbrev pub key_of : Attaching → ListenerBuild → Text
key_of x l = x.gateway_ref.namespace ++ codes "/" ++ x.gateway_ref.name ++ codes "/" ++ l.name

abbrev pub with_rules : Option Compiled → List Text → ListenerBuild → ListenerBuild
with_rules none hosts l = l
with_rules (some c) hosts l = if programmed l then add_route c.rules hosts l else l

-- Counted, and served if the route was compiled and the listener is programmed.
unfoldable pub attached_to : Attaching → List Text → ListenerBuild → ListenerBuild
attached_to x hosts l =
    with_rules x.compiled hosts (record l { attached_routes = (l.attached_routes + 1) % 2 ^ 32 })

unfoldable pub admits : Attaching → ListenerBuild → Bool
admits x l = namespace_ok l.allowed x.gateway_ref.namespace x.rref x.snap && kind_ok l.allowed

abbrev pub join : Attaching → List Text → Progress → ListenerBuild → Progress × ListenerBuild
join x hosts p l =
    if among (key_of x l) p.attached
    then (p, l)
    else (record p { attached = key_of x l ∷ p.attached }, attached_to x hosts l)

abbrev pub count : Progress → ℕ → ℕ → ℕ → ℕ → Progress
count p matching allowed hostname_ok claimed = record p {
  outcome = record {
    matching_listeners = p.outcome.matching_listeners + matching;
    allowed = p.outcome.allowed + allowed;
    hostname_ok = p.outcome.hostname_ok + hostname_ok;
    claimed = p.outcome.claimed + claimed;
  };
}

abbrev pub joined_or_claimed :
    Attaching → Option (List Text) → Progress → ListenerBuild → Progress × ListenerBuild
joined_or_claimed x none p l = (count p 1 1 0 1, l)
joined_or_claimed x (some hosts) p l = join x hosts (count p 1 1 1 0) l

abbrev pub with_hosts :
    Attaching → ℕ → Option (List Text) → Progress → ListenerBuild → Progress × ListenerBuild
with_hosts x listener none p l = (count p 1 1 0 0, l)
with_hosts x listener (some hosts) p l =
    joined_or_claimed x (yield_to_siblings hosts (x.gateway, listener) l x.siblings) p l

-- One pass of the loop.
unfoldable pub attach_listener : Attaching → ℕ → Progress → ListenerBuild → Progress × ListenerBuild
attach_listener x listener p l =
    if names_other x.pref l
    then (p, l)
    else if not (admits x l)
    then (count p 1 0 0 0, l)
    else with_hosts x listener (intersect l.hostname x.hostnames) p l

unfoldable pub attach_from :
    Attaching → ℕ → Progress → List ListenerBuild → Progress × List ListenerBuild
attach_from x listener p [] = (p, [])
attach_from x listener p (l ∷ ls) =
    let (p', l') = attach_listener x listener p l in
    let (p'', ls') = attach_from x (suc listener) p' ls in (p'', l' ∷ ls')

unfoldable pub attach_to_gateway :
    Attaching → List Text → List ListenerBuild → Progress × List ListenerBuild
attach_to_gateway x attached listeners =
    attach_from x 0 (record { outcome = no_outcome; attached = attached }) listeners
