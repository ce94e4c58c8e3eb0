-- ===== src/Assembly/Serving.antt =====
-- What is served of all Gateways: the first loop of `assemble` and `serving_ports` of
-- crates/gapura-core/src/translate/mod.rs.
use mathlib.Core.Option.{some-injective}
use gapura.Prelude.{
  ℕ, ◌≡◌, inl, inr, refl, ap, ap₂, sym, ◌∙◌, subst, true, false, List, [], ◌∷◌, ◌++◌, length,
  Option, some, All, arith, Bool-cases, if_true, if_false, if◌then◌else◌,
}
use gapura.Snapshot.{Settings}
use gapura.Listeners.{is_some, is_https}
use gapura.Gateways.{GatewayBuild}
use gapura.Attachment.Ports.{RemapSlot, Group, slots_of}
use gapura.Attachment.Targets.{AllMoved}
use gapura.Assembly.Remapped.{gateway_of, slots_from}
use gapura.Assembly.{Served, serve_listeners, serve_gateways}
use gapura.Assembly.Ports.{
  IsNamed, slots_served, and_then→, IsServing, serve_listeners-IsServing, IsServing-slots,
}

abbrev slot_of : Served → RemapSlot
slot_of s = record {
  gateway = gateway_of s.config.id;
  https = is_https (some s.config.protocol);
  port = s.config.port;
  overridden = s.overridden;
}

module _ (settings : Settings) where
  -- The Gateways and what is served of them.
  pub data AreServing : List GatewayBuild → List Served → Type 0 where
    all_done : AreServing [] []
    refused_one :
        (gw : GatewayBuild) (gws : List GatewayBuild) (ss : List Served)
        → is_some gw.rejected ≡ true
        → AreServing gws ss
        → AreServing (gw ∷ gws) ss
    served_one :
        (gw : GatewayBuild) (gws : List GatewayBuild) (here ss : List Served)
        → is_some gw.rejected ≡ false
        → IsServing settings gw.ref_ gw.listeners here
        → AreServing gws ss
        → AreServing (gw ∷ gws) (here ++ ss)

  pub serve_gateways-AreServing :
      (gws : List GatewayBuild) (ss : List Served)
      → serve_gateways settings gws ≡ some ss
      → AreServing gws ss
  unfolding serve_gateways
  serve_gateways-AreServing [] ss h = subst (AreServing []) (some-injective _ _ h) all_done
  serve_gateways-AreServing (gw ∷ gws) ss h =
      let (here, e, f) =
        and_then→
          (if is_some gw.rejected then some [] else serve_listeners settings gw.ref_ gw.listeners) _
          ss h in
      let (rest, k, q) = and_then→ (serve_gateways settings gws) _ ss f in
      let below = serve_gateways-AreServing gws rest k in
      let joined : here ++ rest ≡ ss = some-injective _ _ q in
      elim (Bool-cases (is_some gw.rejected)) [
        | inl g ↦
            let nothing : [] ≡ here = some-injective _ _ (sym (if_true _ _ g) ∙ e) in
            refused_one gw gws ss g
              (subst (AreServing gws) (ap (λ x. x ++ rest) nothing ∙ joined) below)
        | inr g ↦
            let some_here =
              serve_listeners-IsServing settings gw.ref_ gw.listeners here
                (sym (if_false _ _ g) ∙ e) in
            subst (AreServing (gw ∷ gws)) joined (served_one gw gws here rest g some_here below)
      ]

  slots_served-append :
      (xs ys : List Served) → slots_served (xs ++ ys) ≡ slots_served xs ++ slots_served ys
  unfolding slots_from
  slots_served-append [] ys = refl
  slots_served-append (x ∷ xs) ys = ap (λ rest. slot_of x ∷ rest) (slots_served-append xs ys)

  pub AreServing-slots :
      {gws : List GatewayBuild} {ss : List Served}
      → All (λ gw. IsNamed gw.ref_) gws
      → AreServing gws ss
      → slots_of settings gws ≡ slots_served ss
  unfolding slots_of slots_from
  AreServing-slots n all_done = refl
  AreServing-slots n (refused_one gw gws ss g x) = if_true _ _ g ∙ AreServing-slots n.1 x
  AreServing-slots n (served_one gw gws here ss g s x) =
      if_false _ _ g
      ∙ ap₂ (λ a b. a ++ b) (IsServing-slots settings gw.ref_ n.0 s) (AreServing-slots n.1 x)
      ∙ sym (slots_served-append here ss)

pub AllMoved-length :
    (look : Group → Option ℕ) (slots : List RemapSlot) (ts : List (Option ℕ))
    → AllMoved look slots ts
    → length ts ≡ length slots
AllMoved-length look [] [] h = refl
AllMoved-length look [] (t ∷ ts) h = absurd h
AllMoved-length look (s ∷ slots) [] h = absurd h
AllMoved-length look (s ∷ slots) (t ∷ ts) h = ground (arith, AllMoved-length look slots ts h.1)

pub slots_served-length : (ss : List Served) → length (slots_served ss) ≡ length ss
unfolding slots_from
slots_served-length [] = refl
slots_served-length (s ∷ ss) = ground (arith, slots_served-length ss)
