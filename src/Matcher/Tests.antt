-- ===== src/Matcher/Tests.antt =====
-- A configuration of two listeners on one port, for crates/gapura-core/src/matcher.rs and
-- crates/gapura-core/src/translate/precedence.rs.
use mathlib.Core.List.{Perm}
use gapura.Prelude.{
  ◌≡◌, refl, true, some, none, Option, List, [], ◌∷◌, In, Text, codes, text_eq, text_le, to_lower,
  strip_prefix, get_elem?,
}
use gapura.Prelude.Order.{lex_le, insert_keyed, sort_keyed}
use gapura.Hostname.{has_suffix, specificity}
use gapura.Hostname
use gapura.Config.{
  Config, ListenerConfig, PortEntry, PathMatch, exact, prefix, RouteMatch, RouteRule, HeaderOps,
  https, lookup,
}
use gapura.Precedence.{path_rank, key, entry_key, keyed, sort_port_table}
use gapura.Precedence.Sorted.{Beats}
use gapura.Precedence.Before.{AllPrecede, sort_port_table-AllPrecede}
use gapura.Matcher.{
  RequestAttrs, PortMatch, goes_on_with_slash, path_matches, first_value_is, matches, applies,
  table_of, match_port_with, most_specific, default_listener, listener_for, tls_for, specificity_le,
  has_hostname_for,
}
use gapura.Matcher.Winner.{match_port_with-Best}
use gapura.Matcher.Certificates.{Offers, listener_for-Greatest}

program : Unit {0}
unfolding text_eq text_le to_lower strip_prefix lex_le insert_keyed sort_keyed has_suffix
    specificity Hostname.matches lookup path_rank key entry_key keyed sort_port_table
    goes_on_with_slash path_matches first_value_is matches applies table_of match_port_with
    most_specific default_listener listener_for tls_for
program = tt

abbrev pub no_headers : HeaderOps
no_headers = record { set = []; add = []; remove = [] }

abbrev pub rule : Text → RouteMatch → RouteRule
rule name m = record {
  route = name;
  rule_index = 0;
  creation_timestamp = codes "2026-01-01T00:00:00Z";
  matches = m ∷ [];
  filters = record {
    request_headers = no_headers;
    response_headers = no_headers;
    redirect = none;
    rewrite = none;
    mirror = none;
  };
  backends = [];
  timeouts = record { request_ms = none; backend_request_ms = none; connect_ms = none };
  rate_limit = none;
  plugins = [];
}

abbrev pub on : PathMatch → RouteMatch
on path = record { path = path; headers = []; query = []; method = none }

abbrev listener : Text → Option Text → RouteRule → ListenerConfig
listener id hostname r = record {
  id = id;
  port = 443;
  client_port = none;
  protocol = https;
  hostname = hostname;
  tls = some (record { secret = id; cert_pem = []; key_pem = [] });
  rules = r ∷ [];
}

abbrev wild : ListenerConfig
wild =
    listener (codes "b/gw/wild") (some (codes "*.ex.com"))
      (rule (codes "apps/wild") (on (prefix (codes "/a"))))

abbrev open_to_all : ListenerConfig
open_to_all = listener (codes "a/gw/any") none (rule (codes "apps/any") (on (exact (codes "/a/b"))))

abbrev wild_entry : PortEntry
wild_entry = record {
  listener = 0;
  hostname = some (codes "*.ex.com");
  matcher = on (prefix (codes "/a"));
  rule = 0;
}

abbrev any_entry : PortEntry
any_entry = record { listener = 1; hostname = none; matcher = on (exact (codes "/a/b")); rule = 0 }

abbrev entries : List PortEntry
entries = any_entry ∷ wild_entry ∷ []

abbrev table : List PortEntry
table = wild_entry ∷ any_entry ∷ []

abbrev config : Config
config = record {
  listeners = wild ∷ open_to_all ∷ [];
  ports = (443, table) ∷ [];
  clusters = [];
  credentials = [];
  credential_workspaces = [];
  consumer_rate_limits = [];
  consumers = [];
}

abbrev request : Text → RequestAttrs
request path = record {
  host = codes "s.ex.com";
  path = path;
  method = codes "GET";
  headers = [];
  query = [];
}

abbrev by_wild : PortMatch
by_wild = record {
  listener_index = 0;
  listener = wild;
  entry = wild_entry;
  rule = rule (codes "apps/wild") (on (prefix (codes "/a")));
}

sort_port_table-AllPrecede_example : Perm table entries × AllPrecede config.listeners table
unfolding program
sort_port_table-AllPrecede_example = sort_port_table-AllPrecede entries table config.listeners refl

match_port_with-Best_example :
    (applies (request (codes "/a/b")) [] wild_entry ≡ true)
    × In wild_entry table
    × ((f : PortEntry)
        → In f entries
        → applies (request (codes "/a/b")) [] f ≡ true
        → Beats config.listeners wild_entry f)
    × (get_elem? config.listeners 0 ≡ some wild)
    × (get_elem? wild.rules 0 ≡ some by_wild.rule)
unfolding program
match_port_with-Best_example =
    match_port_with-Best config 443 (request (codes "/a/b")) [] entries table by_wild refl refl refl

listener_for-Greatest_example :
    Offers config 443 wild
    × ((m : ListenerConfig)
        → Offers config 443 m
        → has_hostname_for (codes "s.ex.com") m ≡ true
        → (has_hostname_for (codes "s.ex.com") wild ≡ true)
          × (specificity_le m.hostname wild.hostname ≡ true))
unfolding program
listener_for-Greatest_example = listener_for-Greatest config 443 (codes "s.ex.com") wild refl
