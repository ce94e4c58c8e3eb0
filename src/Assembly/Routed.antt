-- ===== src/Assembly/Routed.antt =====
-- What the configuration routes: `assemble` of crates/gapura-core/src/translate/mod.rs.
use gapura.Prelude.{ℕ, ◌≡◌, ◌↔◌, List, [], ◌∷◌, map, none, All}
use gapura.Config.{Protocol, MatchEntry, PortEntry, ListenerConfig, Config}
use gapura.Precedence.Whole.{IsIndexed}
use gapura.Snapshot.{ObjectRef, Settings}
use gapura.Listeners.{ListenerBuild}
use gapura.Listeners.Sound.{HasRule}
use gapura.Assembly.{Served, id_of, listeners_of}
use gapura.Assembly.Tables.{IsIn, IsOf}

-- The entries of each table point to rules of its listener.
abbrev AllIndexed : List ListenerConfig → List (List MatchEntry) → Type 0
AllIndexed [] ts = Unit
AllIndexed (l ∷ ls) [] = Unit
AllIndexed (l ∷ ls) (t ∷ ts) = All (HasRule l.rules) t × AllIndexed ls ts

abbrev IsWhole : Served → Type 0
IsWhole s = All (HasRule s.config.rules) s.table

module _ (settings : Settings) where
  -- What is configured: the tables hold the entries of the listeners, and all indexes are in range.
  pub record IsRouted (served : List Served) (c : Config) : Type 0 where
    pub listed : c.listeners ≡ listeners_of settings served
    pub routed :
        (p : ℕ) (e : PortEntry)
        → IsIn p e c.ports ↔ IsOf 0 c.listeners (map (λ s. s.table) served) p e
    pub indexed : (p : ℕ) (e : PortEntry) → IsIn p e c.ports → IsIndexed c.listeners e

  abbrev configured : ObjectRef → ListenerBuild → Protocol → ListenerConfig
  configured r l p = record {
    id = id_of r l;
    port = l.port;
    client_port = none;
    protocol = p;
    hostname = l.hostname;
    tls = l.tls;
    rules = l.rules;
  }
