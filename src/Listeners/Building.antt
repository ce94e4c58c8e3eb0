-- ===== src/Listeners/Building.antt =====
-- A listener as it is built, and the conflicts between the listeners of one Gateway:
-- `build_listener` and `detect_conflicts` of crates/gapura-core/src/translate/listeners.rs.
use gapura.Prelude.{
  ℕ, zero, suc, ◌==◌, Bool, true, false, not, ◌&&◌, List, [], ◌∷◌, ◌++◌, Option, none, some, Text,
  codes, text_eq, decimal, length, Result, ok, err, to_ascii_lowercase, if◌then◌else◌,
}
use gapura.Config.{Protocol, http, https, TlsBundle}
use gapura.Snapshot.{ObjectRef, RouteGroupKind, Listener, Snapshot, Settings}
use gapura.Listeners.{
  Rejection, ListenerBuild, is_https, protocol_of, passthrough, accept_listener, supported_kinds,
}
use gapura.Listeners.Tls.{resolve_tls}

abbrev pub bundle : Result Rejection TlsBundle → Option TlsBundle
bundle (ok b) = some b
bundle (err e) = none

abbrev pub tls_error : Result Rejection TlsBundle → Result Rejection Unit
tls_error (ok b) = ok tt
tls_error (err e) = err e

-- `ResolvedRefs` carries one reason: an unknown kind goes before a broken reference.
abbrev pub resolved_of : Bool → Result Rejection Unit → Result Rejection Unit
resolved_of true e = e
resolved_of false e =
    err (codes "InvalidRouteKinds", codes "only HTTPRoute is supported in allowedRoutes.kinds")

abbrev pub kinds_for : Option Protocol → List RouteGroupKind → List RouteGroupKind
kinds_for none kinds = []
kinds_for (some p) kinds = kinds

abbrev lower : Option Text → Option Text
lower none = none
lower (some h) = some (to_ascii_lowercase h)

-- Whether there is a certificate to resolve, and the rest of the listener by it.
abbrev pub with_tls : Listener → Settings → Option TlsBundle → Result Rejection Unit → ListenerBuild
with_tls l settings tls error = record {
  name = l.name;
  port = l.port;
  hostname = lower l.hostname;
  protocol = protocol_of l.protocol;
  allowed = l.allowed_routes;
  tls = tls;
  accepted = accept_listener l settings;
  resolved = resolved_of (supported_kinds l.allowed_routes).1 error;
  conflict = none;
  supported_kinds = kinds_for (protocol_of l.protocol) (supported_kinds l.allowed_routes).0;
  attached_routes = 0;
  rules = [];
  table = [];
}

module _ (decode : Text → Option Text) (from_utf8 : Text → Option Text) where
  unfoldable pub build_listener : Listener → ObjectRef → Snapshot → Settings → ListenerBuild
  build_listener l gw_ref snap settings =
      let resolved = resolve_tls decode from_utf8 l gw_ref snap in
      if is_https (protocol_of l.protocol) && not (passthrough l)
      then with_tls l settings (bundle resolved) (tls_error resolved)
      else with_tls l settings none (ok tt)

abbrev pub protocol_eq : Option Protocol → Option Protocol → Bool
protocol_eq none none = true
protocol_eq none (some q) = false
protocol_eq (some p) none = false
protocol_eq (some http) (some http) = true
protocol_eq (some http) (some https) = false
protocol_eq (some https) (some http) = false
protocol_eq (some https) (some https) = true

abbrev pub hostname_eq : Option Text → Option Text → Bool
hostname_eq none none = true
hostname_eq none (some b) = false
hostname_eq (some a) none = false
hostname_eq (some a) (some b) = text_eq a b

abbrev hostname_text : Option Text → Text
hostname_text none = codes "(none)"
hostname_text (some h) = h

abbrev pair_text : ListenerBuild → ListenerBuild → Text
pair_text a b =
    codes "listeners "
    ++ a.name
    ++ codes " and "
    ++ b.name
    ++ codes " share port "
    ++ decimal a.port

-- Why two listeners of one Gateway cannot both be served.
unfoldable pub clash : ListenerBuild → ListenerBuild → Option Rejection
clash a b =
    if not (a.port == b.port)
    then none
    else if not (protocol_eq a.protocol b.protocol)
    then some (codes "ProtocolConflict", pair_text a b ++ codes " with different protocols")
    else if hostname_eq a.hostname b.hostname
    then some (
      codes "HostnameConflict",
      pair_text a b ++ codes " and hostname " ++ hostname_text a.hostname,
    )
    else none

-- `conflict.get_or_insert_with(..)`.
unfoldable pub insert_conflict : Rejection → ListenerBuild → ListenerBuild
insert_conflict r l = record l {
  conflict = elim l.conflict [ none ↦ some r | some old ↦ some old ];
}

abbrev pub mark_pair :
    Option Rejection → ListenerBuild → ListenerBuild → ListenerBuild × ListenerBuild
mark_pair none a b = (a, b)
mark_pair (some r) a b = (insert_conflict r a, insert_conflict r b)

-- The inner loop: the listener at `i` against each one behind it.
unfoldable pub mark_with : ListenerBuild → List ListenerBuild → ListenerBuild × List ListenerBuild
mark_with a [] = (a, [])
mark_with a (b ∷ bs) =
    let (a', b') = mark_pair (clash a b) a b in let (a'', bs') = mark_with a' bs in (a'', b' ∷ bs')

-- The outer loop, on fuel: there are as many passes as listeners.
unfoldable pub detect_on : ℕ → List ListenerBuild → List ListenerBuild
detect_on fuel [] = []
detect_on zero (a ∷ bs) = a ∷ bs
detect_on (suc fuel) (a ∷ bs) =
    let (a', bs') = mark_with a bs in let rest = detect_on fuel bs' in a' ∷ rest

abbrev pub detect_conflicts : List ListenerBuild → List ListenerBuild
detect_conflicts listeners = detect_on (length listeners) listeners
