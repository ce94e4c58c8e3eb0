-- ===== src/ClientIp.antt =====
-- Networks of addresses, and the address that a request really came from:
-- crates/gapura-core/src/client_ip.rs. The standard library's parser of addresses is a parameter,
-- so what is proved holds of every parser.
pub mod Networks
pub mod Chain
pub mod Reading
pub mod Tests
use mathlib.Core.List.{reverse}
use gapura.Prelude.{
  Result, ok, err, ◌>>=◌, ◌++◌, split_once, parse_unsigned, decimal, ℕ, ◌+◌, ◌-◌, ◌*◌, ◌/◌, ◌%◌,
  ◌^◌, ◌≤◌, ◌<◌, ◌≡◌, ◌↔◌, arith, ==_iff, Bool, true, false, ◌&&◌, ◌||◌, Option, none, some, List,
  [], ◌∷◌, leb, ◌==◌, if◌then◌else◌, any, Text, split, trim,
}

-- `std::net::IpAddr`: the value of the 32 or 128 bits.
pub data IpAddr : Type 0 where
  v4 : ℕ → IpAddr
  v6 : ℕ → IpAddr

-- `==`.
abbrev pub same_ip : IpAddr → IpAddr → Bool
same_ip (v4 a) (v4 b) = a == b
same_ip (v4 a) (v6 b) = false
same_ip (v6 a) (v4 b) = false
same_ip (v6 a) (v6 b) = a == b

-- Equality of addresses is that of their numbers, in one family.
pub same_ip_iff : (a b : IpAddr) → (same_ip a b ≡ true) ↔ (a ≡ b)
same_ip_iff (v4 a) (v4 b) = ground (arith, ==_iff a b)
same_ip_iff (v4 a) (v6 b) = ground arith
same_ip_iff (v6 a) (v4 b) = ground arith
same_ip_iff (v6 a) (v6 b) = ground (arith, ==_iff a b)

-- `Ipv4Addr::to_ipv6_mapped`: ::ffff:a.b.c.d.
unfoldable pub to_ipv6_mapped : ℕ → ℕ
to_ipv6_mapped n = 0xffff * 2 ^ 32 + n

-- `Ipv6Addr::to_ipv4_mapped`.
unfoldable pub to_ipv4_mapped : ℕ → Option ℕ
to_ipv4_mapped n = if n / 2 ^ 32 == 0xffff then some (n % 2 ^ 32) else none

unfoldable pub to_canonical : IpAddr → IpAddr
to_canonical (v4 n) = v4 n
to_canonical (v6 n) = elim (to_ipv4_mapped n) [ some m ↦ v4 m | none ↦ v6 n ]

pub record Cidr : Type 0 where
  pub addr : IpAddr
  pub bits : ℕ

-- `a >> (width - bits)` of a value below `2 ^ width`.
unfoldable pub same_prefix : ℕ → ℕ → ℕ → ℕ → Bool
same_prefix a b bits width = bits == 0 || a / 2 ^ (width - bits) == b / 2 ^ (width - bits)

unfoldable pub contains_exactly : IpAddr → ℕ → IpAddr → Bool
contains_exactly (v4 net) bits (v4 ip) = same_prefix net ip bits 32
contains_exactly (v4 net) bits (v6 ip) = false
contains_exactly (v6 net) bits (v4 ip) = false
contains_exactly (v6 net) bits (v6 ip) = same_prefix net ip bits 128

abbrev is_some : Option ℕ → Bool
is_some none = false
is_some (some n) = true

-- The match of `contains`, over a canonical address.
unfoldable pub contains_canonical : IpAddr → ℕ → IpAddr → Bool
contains_canonical (v6 net) bits (v4 ip) =
    leb 96 bits
    && (is_some (to_ipv4_mapped net) && contains_exactly (v6 net) bits (v6 (to_ipv6_mapped ip)))
contains_canonical (v6 net) bits (v6 ip) = contains_exactly (v6 net) bits (v6 ip)
contains_canonical (v4 net) bits ip = contains_exactly (v4 net) bits ip

unfoldable pub contains : Cidr → IpAddr → Bool
contains c ip = contains_canonical c.addr c.bits (to_canonical ip)

unfoldable pub trusts : List Cidr → IpAddr → Bool
trusts trusted ip = any (λ net. contains net ip) trusted

-- `unwrap_or`.
abbrev pub or_address : Option IpAddr → IpAddr → IpAddr
or_address none ip = ip
or_address (some named) ip = named

module _ (parse : Text → Option IpAddr) where
  -- `text.trim().parse::<IpAddr>().map(|ip| ip.to_canonical())`.
  unfoldable pub parse_address : Text → Option IpAddr
  parse_address text = elim (parse (trim text)) [ none ↦ none | some ip ↦ some (to_canonical ip) ]

  unfoldable pub named_header_ip : Option Text → Option IpAddr
  named_header_ip none = none
  named_header_ip (some text) = parse_address text

  -- The loop over the hops, from the right; `leftmost` is the last trusted hop seen.
  unfoldable pub walk : List Cidr → IpAddr → Option IpAddr → List Text → IpAddr
  walk trusted fallback leftmost [] = or_address leftmost fallback
  walk trusted fallback leftmost (hop ∷ hops) = elim (parse_address hop) [
    | none ↦ walk trusted fallback leftmost hops
    | some ip ↦ if trusts trusted ip then walk trusted fallback (some ip) hops else ip
  ]

  unfoldable pub client_ip : IpAddr → Option Text → List Cidr → Option Text → IpAddr
  client_ip peer forwarded_for trusted named =
      let peer' = to_canonical peer in
      let fallback = or_address (named_header_ip named) peer' in
      if trusts trusted peer'
      then elim forwarded_for [
        | none ↦ fallback
        | some chain ↦ walk trusted fallback none (reverse (split b',' chain))
      ]
      else peer'

-- The `Err` results of `Cidr::from_str`, with what their messages quote.
pub data CidrError : Type 0 where
  not_an_address : Text → CidrError
  not_a_prefix_length : Text → IpAddr → CidrError

abbrev pub width_of : IpAddr → ℕ
width_of (v4 n) = 32
width_of (v6 n) = 128

unfoldable pub read_bits : IpAddr → Option Text → Result CidrError ℕ
read_bits addr none = ok (width_of addr)
read_bits addr (some b) = elim (parse_unsigned (2 ^ 32) b) [
  | none ↦ err (not_a_prefix_length b addr)
  | some n ↦ if leb n (width_of addr) then ok n else err (not_a_prefix_length b addr)
]

module _ (parse : Text → Option IpAddr) where
  unfoldable pub read_parts : Text → Option Text → Result CidrError Cidr
  read_parts text bits = elim (parse text) [
    | none ↦ err (not_an_address text)
    | some addr ↦ read_bits addr bits >>= λ n. ok (record { addr = addr; bits = n })
  ]

  -- `Cidr::from_str`.
  unfoldable pub from_str : Text → Result CidrError Cidr
  from_str s = elim (split_once b'/' s) [
    | none ↦ read_parts s none
    | some x ↦ read_parts x.0 (some x.1)
  ]

-- `Display` of a `Cidr`, by that of an address.
unfoldable pub to_text : (IpAddr → Text) → Cidr → Text
to_text show c = show c.addr ++ b'/' ∷ decimal c.bits
