-- ===== src/ClientIp/Networks.antt =====
-- What `Cidr::contains` of crates/gapura-core/src/client_ip.rs holds an address to.
use gapura.Prelude.{
  ℕ, ◌+◌, ◌-◌, ◌*◌, ◌/◌, ◌^◌, ◌≤◌, ◌<◌, ◌≡◌, refl, sym, ap, ◌∙◌, false, ◌&&◌, ◌||◌, some, leb, ◌==◌,
  arith, pow-pos, pow-add, add-mul-div, inl, inr, ◌⊎◌, ◌≢◌, zero, suc,
}
use gapura.ClientIp.{
  v4, v6, to_ipv6_mapped, to_ipv4_mapped, to_canonical, Cidr, same_prefix, contains_exactly,
  contains_canonical, contains,
}

to_ipv4_mapped-to_ipv6_mapped : (n : ℕ) → n < 2 ^ 32 → to_ipv4_mapped (to_ipv6_mapped n) ≡ some n
unfolding to_ipv4_mapped to_ipv6_mapped
to_ipv4_mapped-to_ipv6_mapped n h = ground arith

to_canonical-to_ipv6_mapped : (n : ℕ) → n < 2 ^ 32 → to_canonical (v6 (to_ipv6_mapped n)) ≡ v4 n
unfolding to_canonical
to_canonical-to_ipv6_mapped n h = rw (to_ipv4_mapped-to_ipv6_mapped n h, to_canonical)

to_canonical-v4 : (n : ℕ) → to_canonical (v4 n) ≡ v4 n
unfolding to_canonical
to_canonical-v4 n = refl

-- An IPv4 address that is written as IPv6 is in the same networks as the address it stands for.
pub contains-to_ipv6_mapped :
    (c : Cidr) (n : ℕ) → n < 2 ^ 32 → contains c (v6 (to_ipv6_mapped n)) ≡ contains c (v4 n)
unfolding contains
contains-to_ipv6_mapped c n h =
    ap (contains_canonical c.addr c.bits)
      (to_canonical-to_ipv6_mapped n h ∙ sym (to_canonical-v4 n))

shift_mapped : (n k j : ℕ) → k + j ≡ 32 → to_ipv6_mapped n / 2 ^ j ≡ 0xffff * 2 ^ k + n / 2 ^ j
unfolding to_ipv6_mapped
shift_mapped n k j e =
    let parts : 2 ^ 32 ≡ 2 ^ k * 2 ^ j = sym (ap (λ (m : ℕ). 2 ^ m) e) ∙ pow-add k j in
    let whole : 0xffff * 2 ^ 32 ≡ 0xffff * 2 ^ k * 2 ^ j = omega arith in
    ap (λ (m : ℕ). (m + n) / 2 ^ j) whole ∙ add-mul-div (0xffff * 2 ^ k) n (2 ^ j) (pow-pos j)

test_shifted : (a x y : ℕ) → (a + x == a + y) ≡ (x == y)
test_shifted a x y = ground arith

same_prefix-mapped :
    (net ip k j : ℕ)
    → k + j ≡ 32
    → net < 2 ^ 32
    → ip < 2 ^ 32
    → same_prefix (to_ipv6_mapped net) (to_ipv6_mapped ip) (96 + k) 128 ≡ same_prefix net ip k 32
unfolding same_prefix
same_prefix-mapped net ip k j e hn hi =
    let long : 128 - (96 + k) ≡ j = omega arith in
    let short : 32 - k ≡ j = omega arith in
    rw (long, short, shift_mapped net k j e, shift_mapped ip k j e, test_shifted) (whole k j e)
  where
    whole :
        (k j : ℕ)
        → k + j ≡ 32
        → (96 + k == 0 || net / 2 ^ j == ip / 2 ^ j) ≡ (k == 0 || net / 2 ^ j == ip / 2 ^ j)
    whole zero j e = let all : j ≡ 32 = omega arith in rw all (ground arith)
    whole (suc k) j e = ground arith

mapped_is_mapped :
    (net bits ip : ℕ)
    → net < 2 ^ 32
    → ip < 2 ^ 32
    → contains (record { addr = v6 (to_ipv6_mapped net); bits = bits }) (v4 ip)
      ≡ (leb 96 bits && same_prefix (to_ipv6_mapped net) (to_ipv6_mapped ip) bits 128)
unfolding contains contains_canonical contains_exactly to_canonical
mapped_is_mapped net bits ip hn hi = rw (to_ipv4_mapped-to_ipv6_mapped net hn)

-- A network of mapped addresses holds an IPv4 address exactly if the IPv4 network it stands for
-- does, at a prefix of at least 96 bits.
pub contains-mapped_network :
    (net ip k : ℕ)
    → k ≤ 32
    → net < 2 ^ 32
    → ip < 2 ^ 32
    → contains (record { addr = v6 (to_ipv6_mapped net); bits = 96 + k }) (v4 ip)
      ≡ contains (record { addr = v4 net; bits = k }) (v4 ip)
unfolding contains contains_canonical contains_exactly to_canonical
contains-mapped_network net ip k h hn hi =
    mapped_is_mapped net (96 + k) ip hn hi ∙ ground (arith, same_prefix-mapped net ip k (32 - k))

-- An IPv6 network with a shorter prefix, or outside the mapped range, holds no IPv4 address.
pub contains-v6_short :
    (net bits ip : ℕ)
    → (bits < 96) ⊎ (net / 2 ^ 32 ≢ 0xffff)
    → contains (record { addr = v6 net; bits = bits }) (v4 ip) ≡ false
unfolding contains contains_canonical to_canonical to_ipv4_mapped
contains-v6_short net bits ip (inl h) = ground arith
contains-v6_short net bits ip (inr h) = ground arith
