-- ===== src/Assembly/Remapped.antt =====
-- The listeners of overridden Gateways on the ports that they are moved to:
-- `remap_overridden_listeners` and `gateway_of` of crates/gapura-core/src/translate/mod.rs.
use gapura.Prelude.{
  ℕ, Bool, List, [], ◌∷◌, ◌++◌, Option, none, some, Text, codes, split_once, and_then,
}
use gapura.Config.{ListenerConfig}
use gapura.Snapshot.{Settings}
use gapura.Listeners.{is_https}
use gapura.Attachment.Ports.{RemapSlot, remap_targets}

-- The parts of an id "namespace/name/listener".
unfoldable pub split_id : Text → Option (Text × (Text × Text))
split_id id =
    and_then (split_once b'/' id)
      (λ a. and_then (split_once b'/' a.1) (λ b. some (a.0, (b.0, b.1))))

abbrev pub gateway_part : Text → Option (Text × (Text × Text)) → Text
gateway_part id none = id
gateway_part id (some parts) = parts.0 ++ codes "/" ++ parts.1.0

unfoldable pub gateway_of : Text → Text
gateway_of id = gateway_part id (split_id id)

unfoldable pub slots_from : List ListenerConfig → List Bool → List RemapSlot
slots_from (l ∷ ls) (o ∷ os) =
    record {
      gateway = gateway_of l.id;
      https = is_https (some l.protocol);
      port = l.port;
      overridden = o;
    }
    ∷ slots_from ls os
slots_from [] os = []
slots_from (l ∷ ls) [] = []

abbrev pub move : Option ℕ → ListenerConfig → ListenerConfig
move none l = l
move (some p) l = record l { client_port = some l.port; port = p }

unfoldable pub move_all : List ListenerConfig → List (Option ℕ) → List ListenerConfig
move_all (l ∷ ls) (t ∷ ts) = move t l ∷ move_all ls ts
move_all [] ts = []
move_all (l ∷ ls) [] = l ∷ ls

unfoldable pub remap_overridden_listeners :
    List ListenerConfig → Settings → List Bool → List ListenerConfig
remap_overridden_listeners listeners settings overridden =
    move_all listeners (remap_targets (slots_from listeners overridden) settings)
