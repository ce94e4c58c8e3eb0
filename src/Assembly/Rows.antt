-- ===== src/Assembly/Rows.antt =====
-- That the ports that routes are attached by are the ports that are served on: `serving_ports`
-- and `remap_overridden_listeners` of crates/gapura-core/src/translate/mod.rs.
use gapura.Prelude.{
  ℕ, ◌+◌, ◌≤◌, ◌≡◌, refl, ap, sym, ◌∙◌, subst, true, false, List, [], ◌∷◌, ◌++◌, map, length,
  length-append, Option, none, some, All, arith, if_true, if_false,
}
use gapura.Config.{ListenerConfig}
use gapura.Snapshot.{ObjectRef, Settings}
use gapura.Listeners.{ListenerBuild, is_some, programmed}
use gapura.Gateways.{GatewayBuild}
use gapura.Attachment.Ports.{
  served_port, remap_targets, fill_listeners, fill_gateways, serving_ports,
}
use gapura.Attachment.Targets.{remap_targets-IsAllotment}
use gapura.Assembly.Remapped.{move, move_all, remap_overridden_listeners}
use gapura.Assembly.{Served, id_of, serve_gateways, listeners_of}
use gapura.Assembly.Ports.{
  IsNamed, slots_served, listener_slot, IsServing, done, left_out, taken_in, drop, drop-length,
}
use gapura.Assembly.Serving.{
  AreServing, all_done, refused_one, served_one, serve_gateways-AreServing, AreServing-slots,
  AllMoved-length, slots_served-length,
}

-- The listeners of a Gateway, their row of ports, and the listeners of the configuration, from the
-- Gateway's first one on and after its last one. A programmed listener has the port that the
-- configuration's listener of its name serves on, and any other has none.
pub data IsRow (r : ObjectRef)
    : List ListenerBuild
      → List (Option ℕ)
      → List ListenerConfig
      → List ListenerConfig
      → Type 0 where
  row_ended : (cs : List ListenerConfig) → IsRow r [] [] cs cs
  without_port :
      (l : ListenerBuild) (ls : List ListenerBuild) (ps : List (Option ℕ))
      (cs rest : List ListenerConfig)
      → programmed l ≡ false
      → IsRow r ls ps cs rest
      → IsRow r (l ∷ ls) (none ∷ ps) cs rest
  with_port :
      (l : ListenerBuild) (ls : List ListenerBuild) (p : ℕ) (ps : List (Option ℕ))
      (c : ListenerConfig) (cs rest : List ListenerConfig)
      → programmed l ≡ true
      → c.id ≡ id_of r l
      → p ≡ c.port
      → IsRow r ls ps cs rest
      → IsRow r (l ∷ ls) (some p ∷ ps) (c ∷ cs) rest

-- The Gateways, their rows, and the listeners of the configuration, none of which is left over. A
-- Gateway that is refused has no port at all.
pub data AreRows : List GatewayBuild → List (List (Option ℕ)) → List ListenerConfig → Type 0 where
  rows_ended : AreRows [] [] []
  refused_row :
      (gw : GatewayBuild) (gws : List GatewayBuild) (rows : List (List (Option ℕ)))
      (cs : List ListenerConfig)
      → is_some gw.rejected ≡ true
      → AreRows gws rows cs
      → AreRows (gw ∷ gws) (map (λ l. none) gw.listeners ∷ rows) cs
  served_row :
      (gw : GatewayBuild) (gws : List GatewayBuild) (row : List (Option ℕ))
      (rows : List (List (Option ℕ))) (cs rest : List ListenerConfig)
      → is_some gw.rejected ≡ false
      → IsRow gw.ref_ gw.listeners row cs rest
      → AreRows gws rows rest
      → AreRows (gw ∷ gws) (row ∷ rows) cs

move-id : (t : Option ℕ) (c : ListenerConfig) → (move t c).id ≡ c.id
move-id none c = refl
move-id (some p) c = refl

move-port : (t : Option ℕ) (c : ListenerConfig) → (move t c).port ≡ served_port t c.port
move-port none c = refl
move-port (some p) c = refl

abbrev moved : List Served → List (Option ℕ) → List ListenerConfig
moved ss ts = move_all (map (λ s. s.config) ss) ts

module _ (settings : Settings) where
  -- What filling a row comes to, where the listeners of `later` follow.
  abbrev Filled :
      ObjectRef
      → List ListenerBuild
      → List Served
      → List Served
      → List (Option ℕ)
      → List (Option ℕ) × List (Option ℕ)
      → Type 0
  Filled r ls ss later ts filled =
      IsRow r ls filled.0 (moved (ss ++ later) ts) (moved later (drop settings (length ss) ts))
      × (filled.1 ≡ drop settings (length ss) ts)

  fill_listeners-Filled :
      (r : ObjectRef) (later : List Served) {ls : List ListenerBuild} {ss : List Served}
      (ts : List (Option ℕ))
      → IsServing settings r ls ss
      → length ss ≤ length ts
      → Filled r ls ss later ts (fill_listeners ls ts)
  unfolding fill_listeners move_all
  fill_listeners-Filled r later ts done h = (row_ended _, refl)
  fill_listeners-Filled r later [] (left_out l ls ss g x) h =
      let (row, left) = fill_listeners-Filled r later [] x h in
      (without_port l ls _ _ _ g row, left)
  fill_listeners-Filled r later (t ∷ ts) (left_out l ls ss g x) h =
      let (row, left) = fill_listeners-Filled r later (t ∷ ts) x h in
      rw
        (if_false {A = List (Option ℕ) × List (Option ℕ)}
          (some (served_port t l.port) ∷ (fill_listeners ls ts).0, (fill_listeners ls ts).1)
          (none ∷ (fill_listeners ls (t ∷ ts)).0, (fill_listeners ls (t ∷ ts)).1) g)
        (without_port l ls _ _ _ g row, left)
  fill_listeners-Filled r later [] (taken_in l ls c ss g p x) h = absurd (ground (arith, h))
  fill_listeners-Filled r later (t ∷ ts) (taken_in l ls c ss g p x) h =
      let (row, left) = fill_listeners-Filled r later ts x (ground (arith, h)) in
      let (id, port, _) = listener_slot settings r l c p in
      let there = sym (ap (served_port t) port) ∙ sym (move-port t c) in
      rw
        (if_true {A = List (Option ℕ) × List (Option ℕ)}
          (some (served_port t l.port) ∷ (fill_listeners ls ts).0, (fill_listeners ls ts).1)
          (none ∷ (fill_listeners ls (t ∷ ts)).0, (fill_listeners ls (t ∷ ts)).1) g)
        (with_port l ls _ _ (move t c) _ _ g (move-id t c ∙ id) there row, left)

  fill_gateways-AreRows :
      {gws : List GatewayBuild} {ss : List Served} (ts : List (Option ℕ))
      → AreServing settings gws ss
      → length ss ≤ length ts
      → AreRows gws (fill_gateways gws ts) (moved ss ts)
  unfolding fill_gateways move_all
  fill_gateways-AreRows ts all_done h = rows_ended
  fill_gateways-AreRows ts (refused_one gw gws ss g x) h =
      subst (λ rows. AreRows (gw ∷ gws) rows (moved ss ts)) (sym (if_true _ _ g))
        (refused_row gw gws _ _ g (fill_gateways-AreRows ts x h))
  fill_gateways-AreRows ts (served_one gw gws here ss g s x) h =
      let long : length here + length ss ≤ length ts = ground (arith, h, length-append here ss) in
      let (row, left) = fill_listeners-Filled gw.ref_ ss ts s (ground (arith, long)) in
      let rest =
        fill_gateways-AreRows (drop settings (length here) ts) x
          (drop-length settings (length here) (length ss) ts long) in
      let below =
        subst (λ us. AreRows gws (fill_gateways gws us) (moved ss (drop settings (length here) ts)))
          (sym left) rest in
      subst (λ rows. AreRows (gw ∷ gws) rows (moved (here ++ ss) ts)) (sym (if_false _ _ g))
        (served_row gw gws _ _ _ _ g row below)

-- The ports by which routes yield to other listeners are those that the listeners serve on once
-- the configuration is assembled, one listener after the other, if no namespace or name of a
-- Gateway holds a slash: a programmed listener of a Gateway that is not refused has the port of
-- the configuration's listener of its name, and every other listener has none.
pub serving_ports-AreRows :
    (settings : Settings) (gateways : List GatewayBuild) (served : List Served)
    → All (λ gw. IsNamed gw.ref_) gateways
    → serve_gateways settings gateways ≡ some served
    → AreRows gateways (serving_ports gateways settings) (listeners_of settings served)
unfolding serving_ports remap_overridden_listeners
serving_ports-AreRows settings gateways served n h =
    let x = serve_gateways-AreServing settings gateways served h in
    let ts = remap_targets (slots_served served) settings in
    let (look, _, all_moved, _) = remap_targets-IsAllotment (slots_served served) settings in
    let long =
      AllMoved-length look (slots_served served) ts all_moved ∙ slots_served-length served in
    subst
      (λ slots.
        AreRows gateways (fill_gateways gateways (remap_targets slots settings)) (moved served ts))
      (sym (AreServing-slots settings n x))
      (fill_gateways-AreRows settings ts x (ground (arith, long)))
