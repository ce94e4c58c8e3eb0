-- ===== src/ClientIp/Reading.antt =====
-- Networks as text: `from_str` and `fmt` of crates/gapura-core/src/client_ip.rs. The parser and the
-- printer of addresses are parameters.
use gapura.Prelude.{
  ℕ, ◌^◌, ◌≤◌, ◌<◌, ◌≡◌, inl, inr, refl, ◌∙◌, true, false, Option, none, some, arith, leb,
  Bool-cases, Option-cases, Text, contains, split_once, split_once-append, parse_unsigned,
  parse_unsigned-decimal, decimal, ok, went_through,
}
use gapura.ClientIp.{IpAddr, v4, v6, Cidr, width_of, read_bits, read_parts, from_str, to_text}

width_of-le : (a : IpAddr) → width_of a ≤ 128
width_of-le (v4 n) = omega arith
width_of-le (v6 n) = omega arith

read_bits-le : (a : IpAddr) (b : Option Text) (n : ℕ) → read_bits a b ≡ ok n → n ≤ width_of a
unfolding read_bits
read_bits-le a none n h = ground arith
read_bits-le a (some b) n h = elim (Option-cases (parse_unsigned (2 ^ 32) b)) [
  | inl e ↦ absurd (ground arith)
  | inr (m, e) ↦ elim (Bool-cases (leb m (width_of a))) [
    | inl q ↦ ground arith
    | inr q ↦ absurd (ground arith)
  ]
]

read_bits-decimal : (a : IpAddr) (n : ℕ) → n ≤ width_of a → read_bits a (some (decimal n)) ≡ ok n
unfolding read_bits
read_bits-decimal a n h =
    let fits : n < 2 ^ 32 = omega (arith, h, width_of-le a) in
    let small : leb n (width_of a) ≡ true = ground arith in
    rw (parse_unsigned-decimal (2 ^ 32) n fits, read_bits) (rw small refl)

module _ (parse : Text → Option IpAddr) (show : IpAddr → Text) where
  read_parts-le :
      (text : Text) (b : Option Text) (c : Cidr)
      → read_parts parse text b ≡ ok c
      → c.bits ≤ width_of c.addr
  unfolding read_parts
  read_parts-le text b c h = elim (Option-cases (parse text)) [
    | inl e ↦ absurd (ground arith)
    | inr (a, e) ↦
        let (n, q, j) =
          went_through (read_bits a b) (λ n. ok (record { addr = a; bits = n }))
            (rw (e, read_parts) at h) in
        let same : ◌≡◌ {A = Cidr} (record { addr = a; bits = n }) c = ground arith in
        rw (← same) (read_bits-le a b n q)
  ]

  from_str-le : (s : Text) (c : Cidr) → from_str parse s ≡ ok c → c.bits ≤ width_of c.addr
  unfolding from_str
  from_str-le s c h = elim (Option-cases (split_once b'/' s)) [
    | inl e ↦ read_parts-le s none c (rw (e, from_str) at h)
    | inr (x, e) ↦ read_parts-le x.0 (some x.1) c (rw (e, from_str) at h)
  ]

  from_str_at :
      (s a b : Text)
      → split_once b'/' s ≡ some (a, b)
      → from_str parse s ≡ read_parts parse a (some b)
  unfolding from_str
  from_str_at s a b h = rw (h, from_str) refl

  read_parts_ok :
      (text : Text) (b : Option Text) (a : IpAddr) (n : ℕ)
      → parse text ≡ some a
      → read_bits a b ≡ ok n
      → read_parts parse text b ≡ ok (record { addr = a; bits = n })
  unfolding read_parts
  read_parts_ok text b a n h k = rw (h, read_parts) (rw k refl)

  -- Every network that is read, in whatever spelling, is written in a form that reads as the same
  -- network, if the printer of addresses writes what their parser reads and no slash.
  pub from_str-to_text :
      (s : Text) (c : Cidr)
      → parse (show c.addr) ≡ some c.addr
      → contains b'/' (show c.addr) ≡ false
      → from_str parse s ≡ ok c
      → (c.bits ≤ width_of c.addr) × (from_str parse (to_text show c) ≡ ok c)
  from_str-to_text s c p q h =
      let valid = from_str-le s c h in
      let parts : split_once b'/' (to_text show c) ≡ some (show c.addr, decimal c.bits) =
        unfold to_text in split_once-append b'/' (show c.addr) (decimal c.bits) q in
      (
        valid,
        from_str_at (to_text show c) (show c.addr) (decimal c.bits) parts
            ∙ read_parts_ok (show c.addr) (some (decimal c.bits)) c.addr c.bits p
                (read_bits-decimal c.addr c.bits valid),
      )
