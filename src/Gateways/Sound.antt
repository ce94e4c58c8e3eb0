-- ===== src/Gateways/Sound.antt =====
-- That the listeners of every Gateway are in order: `build` of
-- crates/gapura-core/src/translate/listeners.rs.
use gapura.Prelude.{
  inl, inr, sym, subst, not, List, [], ◌∷◌, Option, Text, All, Bool-cases, if_true, if_false, ap,
}
use gapura.Snapshot.{ObjectRef, Gateway, Snapshot, Settings, among}
use gapura.Listeners.Sound.{IsSound, detect_conflicts-IsSound}
use gapura.Gateways.{GatewayBuild, build_gateway, build_from, build}

abbrev pub AllSound : List GatewayBuild → Type 0
AllSound = All (λ gw. All IsSound gw.listeners)

module _ (decode : Text → Option Text) (from_utf8 : Text → Option Text) (snap : Snapshot)
    (settings : Settings) (classes : List Text) where
  build_gateway-IsSound :
      (r : ObjectRef) (gw : Gateway)
      → All IsSound (build_gateway decode from_utf8 snap settings r gw).listeners
  unfolding build_gateway
  build_gateway-IsSound r gw =
      detect_conflicts-IsSound decode from_utf8 r snap settings gw.listeners

  build_from-AllSound :
      (gateways : List (ObjectRef × Gateway))
      → AllSound (build_from decode from_utf8 snap settings classes gateways)
  unfolding build_from
  build_from-AllSound [] = tt
  build_from-AllSound ((r, gw) ∷ gateways) =
      let rest = build_from-AllSound gateways in
      elim (Bool-cases (among gw.gateway_class_name classes)) [
        | inr e ↦ subst AllSound (sym (if_true _ _ (ap not e))) rest
        | inl e ↦ subst AllSound (sym (if_false _ _ (ap not e))) (build_gateway-IsSound r gw, rest)
      ]

  -- Every listener of every Gateway that is built points to its own rules, and is accepted only
  -- with a protocol that is served.
  pub build-AllSound : AllSound (build decode from_utf8 snap settings classes)
  unfolding build
  build-AllSound = build_from-AllSound snap.gateways
