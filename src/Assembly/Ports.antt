-- ===== src/Assembly/Ports.antt =====
-- What is served of one Gateway, and on which ports: `serving_ports` and
-- `remap_overridden_listeners` of crates/gapura-core/src/translate/mod.rs.
use mathlib.Core.Option.{some-injective}
use gapura.Prelude.{
  ℕ, zero, suc, ◌+◌, ◌≤◌, ◌≡◌, inl, inr, refl, ap, ap₂, sym, ◌∙◌, subst, true, false, not, List, [],
  ◌∷◌, ◌++◌, map, length, append_assoc, Option, none, some, codes, contains, split_once,
  split_once-append, arith, Bool-cases, if_true, if_false, and_then,
}
use gapura.Config.{ListenerConfig}
use gapura.Snapshot.{ObjectRef, Settings}
use gapura.Listeners.{ListenerBuild, is_https, programmed}
use gapura.Gateways.{key_text, has_override}
use gapura.Attachment.Ports.{RemapSlot, slots_of_listeners}
use gapura.Assembly.Remapped.{split_id, gateway_part, gateway_of, slots_from}
use gapura.Assembly.{Served, id_of, listener_config, serve_listeners}

-- Names of Kubernetes objects hold no slash.
abbrev pub IsNamed : ObjectRef → Type 0
IsNamed r = (contains b'/' r.namespace ≡ false) × (contains b'/' r.name ≡ false)

gateway_of-id_of :
    (r : ObjectRef) (l : ListenerBuild) → IsNamed r → gateway_of (id_of r l) ≡ key_text r
unfolding gateway_of split_id
gateway_of-id_of r l (n, m) =
    let rest = r.name ++ b'/' ∷ l.name in
    let joined : id_of r l ≡ r.namespace ++ b'/' ∷ rest =
      append_assoc (r.namespace ++ codes "/" ++ r.name) (codes "/") l.name
      ∙ append_assoc (r.namespace ++ codes "/") r.name (codes "/" ++ l.name)
      ∙ append_assoc r.namespace (codes "/") rest in
    let first : split_once b'/' (id_of r l) ≡ some (r.namespace, rest) =
      ap (split_once b'/') joined ∙ split_once-append b'/' r.namespace rest n in
    let second = split_once-append b'/' r.name l.name m in
    let parts : split_id (id_of r l) ≡ some (r.namespace, (r.name, l.name)) =
      ap (λ o. and_then o (λ a. and_then (split_once b'/' a.1) (λ b. some (a.0, (b.0, b.1))))) first
      ∙ ap (λ o. and_then o (λ b. some (r.namespace, (b.0, b.1)))) second in
    ap (gateway_part (id_of r l)) parts

-- The slots of what is served.
abbrev pub slots_served : List Served → List RemapSlot
slots_served served = slots_from (map (λ s. s.config) served) (map (λ s. s.overridden) served)

-- What a successful `and_then` went through.
pub and_then→ :
    {A B : Type 0} (o : Option A) (f : A → Option B) (b : B)
    → and_then o f ≡ some b
    → (a : A) × (o ≡ some a) × (f a ≡ some b)
and_then→ none f b h = absurd (ground (arith, h))
and_then→ (some a) f b h = (a, refl, h)

module _ (settings : Settings) where
  -- The configuration of a listener, under its own name and as it declares itself.
  pub record IsConfigOf (r : ObjectRef) (l : ListenerBuild) (c : ListenerConfig) : Type 0 where
    pub id_is : c.id ≡ id_of r l
    pub port_is : c.port ≡ l.port
    pub unmoved : c.client_port ≡ none
    pub protocol_is : l.protocol ≡ some c.protocol
    pub hostname_is : c.hostname ≡ l.hostname
    pub tls_is : c.tls ≡ l.tls
    pub rules_are : c.rules ≡ l.rules

  listener_config-IsConfigOf :
      (r : ObjectRef) (l : ListenerBuild) (c : ListenerConfig)
      → listener_config r l ≡ some c
      → IsConfigOf r l c
  unfolding listener_config
  listener_config-IsConfigOf r l c h =
      let (p, e, f) = and_then→ l.protocol _ c h in
      let same = some-injective _ _ f in
      record {
        id_is = sym (ap (λ x. x.id) same);
        port_is = sym (ap (λ x. x.port) same);
        unmoved = sym (ap (λ x. x.client_port) same);
        protocol_is = e ∙ ap (λ x. some x.protocol) same;
        hostname_is = sym (ap (λ x. x.hostname) same);
        tls_is = sym (ap (λ x. x.tls) same);
        rules_are = sym (ap (λ x. x.rules) same);
      }

  pub listener_slot :
      (r : ObjectRef) (l : ListenerBuild) (c : ListenerConfig)
      → IsConfigOf r l c
      → (c.id ≡ id_of r l) × (c.port ≡ l.port) × (is_https (some c.protocol) ≡ is_https l.protocol)
  listener_slot r l c h = (h.id_is, h.port_is, sym (ap is_https h.protocol_is))

  abbrev serving : ObjectRef → ListenerBuild → ListenerConfig → Served
  serving r l c = record { config = c; overridden = has_override settings r; table = l.table }

  -- The listeners of one Gateway and what is served of them.
  pub data IsServing (r : ObjectRef) : List ListenerBuild → List Served → Type 0 where
    done : IsServing r [] []
    left_out :
        (l : ListenerBuild) (ls : List ListenerBuild) (ss : List Served)
        → programmed l ≡ false
        → IsServing r ls ss
        → IsServing r (l ∷ ls) ss
    taken_in :
        (l : ListenerBuild) (ls : List ListenerBuild) (c : ListenerConfig) (ss : List Served)
        → programmed l ≡ true
        → IsConfigOf r l c
        → IsServing r ls ss
        → IsServing r (l ∷ ls) (serving r l c ∷ ss)

  pub serve_listeners-IsServing :
      (r : ObjectRef) (ls : List ListenerBuild) (ss : List Served)
      → serve_listeners settings r ls ≡ some ss
      → IsServing r ls ss
  unfolding serve_listeners
  serve_listeners-IsServing r [] ss h = subst (IsServing r []) (some-injective _ _ h) done
  serve_listeners-IsServing r (l ∷ ls) ss h =
      let (rest, e, f) = and_then→ (serve_listeners settings r ls) _ ss h in
      let below = serve_listeners-IsServing r ls rest e in
      elim (Bool-cases (programmed l)) [
        | inr g ↦
            let same = some-injective _ _ (sym (if_true _ _ (ap not g)) ∙ f) in
            left_out l ls ss g (subst (IsServing r ls) same below)
        | inl g ↦
            let (c, p, q) =
              and_then→ (listener_config r l) _ ss (sym (if_false _ _ (ap not g)) ∙ f) in
            subst (IsServing r (l ∷ ls)) (some-injective _ _ q)
              (taken_in l ls c rest g (listener_config-IsConfigOf r l c p) below)
      ]

  pub IsServing-slots :
      (r : ObjectRef) {ls : List ListenerBuild} {ss : List Served}
      → IsNamed r
      → IsServing r ls ss
      → slots_of_listeners (key_text r) (has_override settings r) ls ≡ slots_served ss
  unfolding slots_of_listeners slots_from
  IsServing-slots r n done = refl
  IsServing-slots r n (left_out l ls ss g x) = if_false _ _ g ∙ IsServing-slots r n x
  IsServing-slots r n (taken_in l ls c ss g p x) =
      let (id, port, secure) = listener_slot r l c p in
      let key = ap gateway_of id ∙ gateway_of-id_of r l n in
      if_true _ _ g
      ∙ ap₂ (λ s rest. s ∷ rest)
          (ap
              (λ k. record {
                gateway = k;
                https = is_https l.protocol;
                port = l.port;
                overridden = has_override settings r;
              })
              (sym key)
            ∙ ap₂
                (λ b q. record {
                  gateway = gateway_of c.id;
                  https = b;
                  port = q;
                  overridden = has_override settings r;
                })
                (sym secure) (sym port))
          (IsServing-slots r n x)

  abbrev pub drop : ℕ → List (Option ℕ) → List (Option ℕ)
  drop zero ts = ts
  drop (suc n) [] = []
  drop (suc n) (t ∷ ts) = drop n ts

  pub drop-length :
      (n : ℕ) (m : ℕ) (ts : List (Option ℕ)) → n + m ≤ length ts → m ≤ length (drop n ts)
  drop-length zero m ts h = ground (arith, h)
  drop-length (suc n) m [] h = absurd (ground (arith, h))
  drop-length (suc n) m (t ∷ ts) h = drop-length n m ts (ground (arith, h))
