-- ===== src/Matcher.antt =====
-- Request matching over a translated configuration: crates/gapura-core/src/matcher.rs. The regular
-- expressions of the `regex` crate are a parameter: a compiled one is the test that it makes.
pub mod Winner
pub mod Paths
pub mod Certificates
pub mod Tests
use gapura.Prelude.{
  and_then, ℕ, ◌≡◌, Bool, true, false, not, ◌&&◌, ◌||◌, Option, none, some, List, [], ◌∷◌,
  if◌then◌else◌, ◌==◌, leb, ltb, length, get_elem?, any, all, find, filter_by, Text, codes, text_eq,
  strip_prefix, eq_ignore_ascii_case,
}
use gapura.Hostname.{specificity}
use gapura.Hostname
use gapura.Config.{
  Config, ListenerConfig, PortEntry, PathMatch, exact, prefix, regex, KvMatch, RouteMatch,
  RouteRule, TlsBundle, lookup,
}

-- The compiled patterns of a configuration.
abbrev pub RegexMap : Type 0
RegexMap = List (Text × (Text → Bool))

pub record RequestAttrs : Type 0 where
  pub host : Text
  pub path : Text
  pub method : Text
  pub headers : List (Text × Text)
  pub query : List (Text × Text)

pub record PortMatch : Type 0 where
  pub listener_index : ℕ
  pub listener : ListenerConfig
  pub entry : PortEntry
  pub rule : RouteRule

-- `path.starts_with(p) && path.as_bytes().get(p.len()) == Some(&b'/')`.
unfoldable pub goes_on_with_slash : Text → Text → Bool
goes_on_with_slash p path = elim (strip_prefix p path) [
  | none ↦ false
  | some rest ↦ elim rest [ [] ↦ false | c ∷ s ↦ c == b'/' ]
]

unfoldable pub path_matches : PathMatch → Text → RegexMap → Bool
path_matches (exact p) path regexes = text_eq path p
path_matches (prefix p) path regexes =
    text_eq p (codes "/") || (text_eq path p || goes_on_with_slash p path)
path_matches (regex p) path regexes = elim (lookup p regexes) [ none ↦ false | some re ↦ re path ]

-- The first pair with an equal name has the value.
unfoldable pub first_value_is : (Text → Text → Bool) → List (Text × Text) → KvMatch → Bool
first_value_is same pairs kv = elim (find (λ p. same p.0 kv.name) pairs) [
  | none ↦ false
  | some p ↦ text_eq p.1 kv.value
]

abbrev pub method_ok : Option Text → Text → Bool
method_ok none actual = true
method_ok (some method) actual = eq_ignore_ascii_case method actual

unfoldable pub matches : RouteMatch → RequestAttrs → RegexMap → Bool
matches m req regexes =
    path_matches m.path req.path regexes
    && (method_ok m.method req.method
        && (all (first_value_is eq_ignore_ascii_case req.headers) m.headers
            && all (first_value_is text_eq req.query) m.query))

abbrev pub host_ok : Option Text → Text → Bool
host_ok none host = true
host_ok (some h) host = Hostname.matches h host

-- The test of the search through a table.
unfoldable pub applies : RequestAttrs → RegexMap → PortEntry → Bool
applies req regexes e = host_ok e.hostname req.host && matches e.matcher req regexes

-- `ports.get(&port)`.
unfoldable pub table_of : ℕ → List (ℕ × List PortEntry) → Option (List PortEntry)
table_of port [] = none
table_of port ((p, entries) ∷ ports) = if p == port then some entries else table_of port ports

unfoldable pub match_port_with : Config → ℕ → RequestAttrs → RegexMap → Option PortMatch
match_port_with c port req regexes = and_then (table_of port c.ports) (λ entries.
    and_then (find (applies req regexes) entries) (λ e.
      and_then (get_elem? c.listeners e.listener) (λ l. and_then (get_elem? l.rules e.rule) (λ rule.
        some (record { listener_index = e.listener; listener = l; entry = e; rule = rule })))))

abbrev pub has_tls : ListenerConfig → Bool
has_tls l = elim l.tls [ none ↦ false | some t ↦ true ]

abbrev pub on_port : ℕ → List ListenerConfig → List ListenerConfig
on_port port = filter_by (λ l. l.port == port && has_tls l)

abbrev pub has_hostname_for : Text → ListenerConfig → Bool
has_hostname_for name l = elim l.hostname [ none ↦ false | some h ↦ Hostname.matches h name ]

-- `<=` of two specificities, as pairs.
abbrev pub specificity_le : Option Text → Option Text → Bool
specificity_le a b =
    ltb (specificity a).0 (specificity b).0
    || (specificity a).0 == (specificity b).0 && leb (specificity a).1 (specificity b).1

-- `max_by_key`: the last of those with the greatest key.
unfoldable pub most_specific : List ListenerConfig → Option ListenerConfig
most_specific [] = none
most_specific (l ∷ ls) = elim (most_specific ls) [
  | none ↦ some l
  | some m ↦ if specificity_le l.hostname m.hostname then some m else some l
]

abbrev pub lacks_hostname : ListenerConfig → Bool
lacks_hostname l = elim l.hostname [ none ↦ true | some h ↦ false ]

abbrev pub first : List ListenerConfig → Option ListenerConfig
first [] = none
first (l ∷ ls) = some l

-- A listener without a hostname, else the first on the port.
unfoldable pub default_listener : List ListenerConfig → Option ListenerConfig
default_listener ls = elim (find lacks_hostname ls) [ some l ↦ some l | none ↦ first ls ]

unfoldable pub listener_for : Config → ℕ → Option Text → Option ListenerConfig
listener_for c port none = default_listener (on_port port c.listeners)
listener_for c port (some name) =
    elim (most_specific (filter_by (has_hostname_for name) (on_port port c.listeners))) [
      | some l ↦ some l
      | none ↦ default_listener (on_port port c.listeners)
    ]

unfoldable pub tls_for : Config → ℕ → Option Text → Option TlsBundle
tls_for c port sni = and_then (listener_for c port sni) (λ l. l.tls)
