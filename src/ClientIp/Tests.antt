-- ===== src/ClientIp/Tests.antt =====
-- Runs of the code of crates/gapura-core/src/client_ip.rs, with a parser of small IPv4 addresses.
use gapura.ClientIp.Reading.{from_str-to_text}
use gapura.ClientIp.Chain.{client_ip-append}
use gapura.Prelude.{
  ok, err, ◌≤◌, ◌==◌, split_once, parse_unsigned, digits_value, List, ◌++◌, inl, arith, ◌≡◌, refl,
  some, none, true, false, [], ◌∷◌, codes, text_eq, split, trim, Text, Option, if◌then◌else◌, ◌+◌,
}
use gapura.ClientIp.{
  not_a_prefix_length, width_of, read_bits, read_parts, from_str, to_text, IpAddr, v4, v6, Cidr,
  to_ipv6_mapped, to_ipv4_mapped, to_canonical, same_prefix, contains_exactly, contains_canonical,
  contains, trusts, parse_address, named_header_ip, walk, client_ip,
}

program : Unit {0}
unfolding split_once parse_unsigned digits_value read_bits read_parts from_str to_text text_eq split
    trim to_ipv6_mapped to_ipv4_mapped to_canonical same_prefix contains_exactly contains_canonical
    contains trusts parse_address named_header_ip walk client_ip
program = tt

-- Two addresses, by their text.
parse : Text → Option IpAddr
parse text =
    if text_eq text (codes "10.0.0.5")
    then some (v4 0x0a000005)
    else if text_eq text (codes "8.8.8.8")
    then some (v4 0x08080808)
    else none

abbrev ten : Cidr
ten = record { addr = v4 0x0a000000; bits = 8 }

spoofed :
    client_ip parse (v4 0x0a000001) (some (codes "10.0.0.5, 8.8.8.8 ,10.0.0.5")) (ten ∷ []) none
    ≡ v4 0x08080808
unfolding program parse
spoofed = refl

mapped_peer : contains ten (v6 (to_ipv6_mapped 0x0a000001)) ≡ true
unfolding program
mapped_peer = refl

short_network : contains (record { addr = v6 0; bits = 0 }) (v4 0x0a000001) ≡ false
unfolding program
short_network = refl

from_a_stranger :
    client_ip parse (v4 0x08080808) (some (codes "10.0.0.5")) (ten ∷ []) none ≡ v4 0x08080808
unfolding program parse
from_a_stranger = refl

client_ip-append_example :
    client_ip parse
      (v4 0x0a000001)
      (some (codes "1.2.3.4" ++ b',' ∷ codes "8.8.8.8, 10.0.0.5"))
      (ten ∷ [])
      none
    ≡ client_ip parse (v4 0x0a000001) (some (codes "8.8.8.8, 10.0.0.5")) (ten ∷ []) none
unfolding program parse
client_ip-append_example =
    client_ip-append parse (v4 0x0a000001) (codes "1.2.3.4") (codes "8.8.8.8, 10.0.0.5") (ten ∷ [])
      none refl refl

-- The printer of the same two addresses.
abbrev show : IpAddr → Text
show (v4 n) = if n == 0x0a000005 then codes "10.0.0.5" else codes "8.8.8.8"
show (v6 n) = []

abbrev five : Cidr
five = record { addr = v4 0x0a000005; bits = 32 }

plus_sign : from_str parse (codes "10.0.0.5/+032") ≡ ok five
unfolding program parse
plus_sign = refl

too_long :
    from_str parse (codes "10.0.0.5/33") ≡ err (not_a_prefix_length (codes "33") (v4 0x0a000005))
unfolding program parse
too_long = refl

from_str-to_text_example :
    (five.bits ≤ width_of five.addr) × (from_str parse (to_text show five) ≡ ok five)
unfolding program parse gapura.Prelude.contains
from_str-to_text_example = from_str-to_text parse show (codes "10.0.0.5") five refl refl refl
