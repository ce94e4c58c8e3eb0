-- ===== src/Attachment/Ports.antt =====
-- The ports that listeners serve on: `remap_targets` and `serving_ports` of
-- crates/gapura-core/src/translate/mod.rs. Sets and maps that are only looked up in are lists.
use gapura.Prelude.{
  ℕ, suc, ◌==◌, Bool, true, false, not, ◌&&◌, List, [], ◌∷◌, ◌++◌, map, Option, none, some, Text,
  text_eq, any, find, if◌then◌else◌,
}
use gapura.Snapshot.{Settings}
use gapura.Listeners.{ListenerBuild, is_https, is_some, programmed}
use gapura.Gateways.{GatewayBuild, has_override, key_text}
use gapura.Attachment.{Sibling}

pub record RemapSlot : Type 0 where
  pub gateway : Text
  pub https : Bool
  pub port : ℕ
  pub overridden : Bool

-- What one allocation is for: a Gateway, a protocol and a declared port.
pub record Group : Type 0 where
  pub gateway : Text
  pub https : Bool
  pub port : ℕ

abbrev pub group_of : RemapSlot → Group
group_of s = record { gateway = s.gateway; https = s.https; port = s.port }

abbrev pub same_bool : Bool → Bool → Bool
same_bool true b = b
same_bool false b = not b

unfoldable pub same_group : Group → Group → Bool
same_group a b = text_eq a.gateway b.gateway && (same_bool a.https b.https && a.port == b.port)

-- `groups.get(..)`.
unfoldable pub target_of : Group → List (Group × Option ℕ) → Option (Option ℕ)
target_of g [] = none
target_of g ((k, t) ∷ groups) =
    let rest = target_of g groups in if same_group k g then some t else rest

abbrev pub pool_for : Settings → Bool → List ℕ
pool_for settings secure = if secure then settings.https_ports else settings.http_ports

abbrev pub is_taken : List ℕ → ℕ → Bool
is_taken taken p = any (λ q. p == q) taken

unfoldable pub free_port : Settings → List ℕ → Bool → Option ℕ
free_port settings taken secure = find (λ p. not (is_taken taken p)) (pool_for settings secure)

abbrev pub take_port : Option ℕ → List ℕ → List ℕ
take_port none taken = taken
take_port (some p) taken = p ∷ taken

-- The loop, with the groups at its end.
unfoldable pub remap_on :
    Settings
    → List ℕ
    → List (Group × Option ℕ)
    → List RemapSlot
    → List (Option ℕ) × List (Group × Option ℕ)
remap_on settings taken groups [] = ([], groups)
remap_on settings taken groups (s ∷ slots) =
    let kept = remap_on settings taken groups slots in
    let free = free_port settings taken s.https in
    let opened = remap_on settings (take_port free taken) ((group_of s, free) ∷ groups) slots in
    if not s.overridden then (none ∷ kept.0, kept.1) else elim (target_of (group_of s) groups) [
      | none ↦ (free ∷ opened.0, opened.1)
      | some t ↦
          let again = remap_on settings (take_port t taken) groups slots in (t ∷ again.0, again.1)
    ]

unfoldable pub remap_targets : List RemapSlot → Settings → List (Option ℕ)
remap_targets slots settings = (remap_on settings (map (λ s. s.port) slots) [] slots).0

unfoldable pub slots_of_listeners : Text → Bool → List ListenerBuild → List RemapSlot
slots_of_listeners key overridden [] = []
slots_of_listeners key overridden (l ∷ ls) =
    let rest = slots_of_listeners key overridden ls in
    if programmed l
    then record {
      gateway = key;
      https = is_https l.protocol;
      port = l.port;
      overridden = overridden;
    }
      ∷ rest
    else rest

unfoldable pub slots_of : Settings → List GatewayBuild → List RemapSlot
slots_of settings [] = []
slots_of settings (gw ∷ gws) =
    let rest = slots_of settings gws in
    if is_some gw.rejected
    then rest
    else slots_of_listeners (key_text gw.ref_) (has_override settings gw.ref_) gw.listeners ++ rest

-- Each programmed listener takes the next target: `target.unwrap_or(port)`.
abbrev pub served_port : Option ℕ → ℕ → ℕ
served_port none port = port
served_port (some p) port = p

unfoldable pub fill_listeners :
    List ListenerBuild → List (Option ℕ) → List (Option ℕ) × List (Option ℕ)
fill_listeners [] targets = ([], targets)
fill_listeners (l ∷ ls) [] = let (ports, left) = fill_listeners ls [] in (none ∷ ports, left)
fill_listeners (l ∷ ls) (t ∷ targets) =
    let skipped = fill_listeners ls (t ∷ targets) in
    let filled = fill_listeners ls targets in
    if programmed l
    then (some (served_port t l.port) ∷ filled.0, filled.1)
    else (none ∷ skipped.0, skipped.1)

unfoldable pub fill_gateways : List GatewayBuild → List (Option ℕ) → List (List (Option ℕ))
fill_gateways [] targets = []
fill_gateways (gw ∷ gws) targets =
    let filled = fill_listeners gw.listeners targets in
    let skipped = fill_gateways gws targets in
    let rest = fill_gateways gws filled.1 in
    if is_some gw.rejected then map (λ l. none) gw.listeners ∷ skipped else filled.0 ∷ rest

unfoldable pub serving_ports : List GatewayBuild → Settings → List (List (Option ℕ))
serving_ports gateways settings =
    fill_gateways gateways (remap_targets (slots_of settings gateways) settings)

-- The siblings among the listeners of one Gateway, from the `li`-th on.
unfoldable pub siblings_in : ℕ → ℕ → List ListenerBuild → List (Option ℕ) → List Sibling
siblings_in gi li [] ports = []
siblings_in gi li (l ∷ ls) [] = []
siblings_in gi li (l ∷ ls) (none ∷ ports) = siblings_in gi (suc li) ls ports
siblings_in gi li (l ∷ ls) (some port ∷ ports) =
    let rest = siblings_in gi (suc li) ls ports in
    elim l.protocol [
      | none ↦ rest
      | some protocol ↦
          record { at = (gi, li); port = port; protocol = protocol; hostname = l.hostname } ∷ rest
    ]

unfoldable pub siblings_from : ℕ → List GatewayBuild → List (List (Option ℕ)) → List Sibling
siblings_from gi [] ports = []
siblings_from gi (gw ∷ gws) [] = []
siblings_from gi (gw ∷ gws) (row ∷ ports) =
    siblings_in gi 0 gw.listeners row ++ siblings_from (suc gi) gws ports

unfoldable pub siblings : List GatewayBuild → Settings → List Sibling
siblings gateways settings = siblings_from 0 gateways (serving_ports gateways settings)
