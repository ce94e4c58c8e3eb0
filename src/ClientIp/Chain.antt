-- ===== src/ClientIp/Chain.antt =====
-- How far `client_ip` of crates/gapura-core/src/client_ip.rs believes the headers of a request.
use mathlib.Core.List.{reverse, reverse-append}
use gapura.Prelude.{
  ℕ, ◌≡◌, refl, sym, ap, ◌∙◌, Bool, true, false, Option, none, some, List, [], ◌∷◌, ◌++◌, ◌==◌, ◌≢◌,
  not, ◌||◌, ==_refl, arith, Bool-cases, Option-cases, inl, inr, Text, split, extend_first,
}
use gapura.ClientIp.{
  IpAddr, to_canonical, Cidr, trusts, parse_address, named_header_ip, or_address, walk, client_ip,
}

extend_first-append :
    (c : ℕ) (xs ys : List Text) → xs ≢ [] → extend_first c (xs ++ ys) ≡ extend_first c xs ++ ys
extend_first-append c [] ys h = absurd (h refl)
extend_first-append c (x ∷ xs) ys h = refl

split-ne-nil : (sep : ℕ) (s : Text) → split sep s ≢ []
unfolding split
split-ne-nil sep [] h = cc h
split-ne-nil sep (c ∷ s) h = ground arith

split-append : (sep : ℕ) (s t : Text) → split sep (s ++ sep ∷ t) ≡ split sep s ++ split sep t
unfolding split
split-append sep [] t = rw (==_refl sep)
split-append sep (c ∷ s) t = elim (Bool-cases (c == sep)) [
  | inl e ↦ rw e (ap (◌∷◌ []) (split-append sep s t))
  | inr e ↦ rw e (
      ap (extend_first c) (split-append sep s t)
      ∙ extend_first-append c (split sep s) (split sep t) (split-ne-nil sep s))
]

-- A hop that is an address no trusted network holds.
abbrev is_untrusted : List Cidr → Option IpAddr → Bool
is_untrusted trusted none = false
is_untrusted trusted (some ip) = not (trusts trusted ip)

module _ (parse : Text → Option IpAddr) where
  -- Some hop of the chain is an untrusted address.
  abbrev pub names_untrusted : List Cidr → List Text → Bool
  names_untrusted trusted [] = false
  names_untrusted trusted (hop ∷ hops) =
      is_untrusted trusted (parse_address parse hop) || names_untrusted trusted hops

  -- Every hop that can be read is trusted.
  abbrev pub AllTrusted : List Cidr → List Text → Type 0
  AllTrusted trusted [] = Unit
  AllTrusted trusted (hop ∷ hops) =
      ((ip : IpAddr) → parse_address parse hop ≡ some ip → trusts trusted ip ≡ true)
      × AllTrusted trusted hops

  module _ (trusted : List Cidr) (fallback : IpAddr) where
    -- One round of the loop, by what the hop is.
    data Hop (hop : Text) : Type 0 where
      unreadable : parse_address parse hop ≡ none → Hop hop
      believed :
          (ip : IpAddr) → parse_address parse hop ≡ some ip → trusts trusted ip ≡ true → Hop hop
      stranger :
          (ip : IpAddr) → parse_address parse hop ≡ some ip → trusts trusted ip ≡ false → Hop hop

    Hop-cases : (hop : Text) → Hop hop
    Hop-cases hop = elim (Option-cases (parse_address parse hop)) [
      | inl n ↦ unreadable n
      | inr (ip, e) ↦ elim (Bool-cases (trusts trusted ip)) [
        | inl t ↦ believed ip e t
        | inr u ↦ stranger ip e u
      ]
    ]

    module _ (hop : Text) (hops : List Text) (leftmost : Option IpAddr) where
      walk_unreadable :
          parse_address parse hop ≡ none
          → walk parse trusted fallback leftmost (hop ∷ hops)
            ≡ walk parse trusted fallback leftmost hops
      unfolding walk
      walk_unreadable n = rw (n, walk)

      walk_believed :
          (ip : IpAddr)
          → parse_address parse hop ≡ some ip
          → trusts trusted ip ≡ true
          → walk parse trusted fallback leftmost (hop ∷ hops)
            ≡ walk parse trusted fallback (some ip) hops
      unfolding walk
      walk_believed ip e t = rw (e, walk) (rw t)

      walk_stranger :
          (ip : IpAddr)
          → parse_address parse hop ≡ some ip
          → trusts trusted ip ≡ false
          → walk parse trusted fallback leftmost (hop ∷ hops) ≡ ip
      unfolding walk
      walk_stranger ip e u = rw (e, walk) (rw u)

    -- What stands left of an untrusted hop is never read.
    walk-append :
        (leftmost : Option IpAddr) (hops rest : List Text)
        → names_untrusted trusted hops ≡ true
        → walk parse trusted fallback leftmost (hops ++ rest)
          ≡ walk parse trusted fallback leftmost hops
    walk-append leftmost [] rest h = ground arith
    walk-append leftmost (hop ∷ hops) rest h = elim (Hop-cases hop) [
      | unreadable n ↦
          walk_unreadable hop (hops ++ rest) leftmost n
          ∙ (walk-append leftmost hops rest (rw n at h) ∙ sym (walk_unreadable hop hops leftmost n))
      | believed ip e t ↦
          walk_believed hop (hops ++ rest) leftmost ip e t
          ∙ (walk-append (some ip) hops rest (rw (e, t) at h)
              ∙ sym (walk_believed hop hops leftmost ip e t))
      | stranger ip e u ↦
          walk_stranger hop (hops ++ rest) leftmost ip e u
          ∙ sym (walk_stranger hop hops leftmost ip e u)
    ]

    -- An untrusted result is a hop of the chain behind which all are trusted.
    walk-stranger :
        (leftmost : Option IpAddr) (hops : List Text)
        → names_untrusted trusted hops ≡ true
        → (near : List Text) × (hop : Text) × (far : List Text) × (hops ≡ near ++ hop ∷ far)
          × AllTrusted trusted near
          × (parse_address parse hop ≡ some (walk parse trusted fallback leftmost hops))
          × (trusts trusted (walk parse trusted fallback leftmost hops) ≡ false)
    walk-stranger leftmost [] h = absurd (ground arith)
    walk-stranger leftmost (hop ∷ hops) h = elim (Hop-cases hop) [
      | unreadable n ↦
          let (near, x, far, j, a, e, u) = walk-stranger leftmost hops (rw n at h) in
          let w = walk_unreadable hop hops leftmost n in
          (hop ∷ near, x, far, ap (◌∷◌ hop) j, ((λ ip k. absurd (cc)), a), rw w e, rw w u)
      | believed ip p t ↦
          let (near, x, far, j, a, e, u) = walk-stranger (some ip) hops (rw (p, t) at h) in
          let w = walk_believed hop hops leftmost ip p t in
          (
            hop ∷ near,
            x,
            far,
            ap (◌∷◌ hop) j,
            ((λ ip' k. rw (same hop ip' ip k p) t), a),
            rw w e,
            rw w u,
          )
      | stranger ip p u ↦
          let w = walk_stranger hop hops leftmost ip p u in
          ([], hop, hops, refl, tt, rw w p, rw w u)
    ]
      where
        same :
            (hop : Text) (a b : IpAddr)
            → parse_address parse hop ≡ some a
            → parse_address parse hop ≡ some b
            → a ≡ b
        same hop a b k p = cc

  -- The hops of a chain, the nearest first.
  abbrev pub hops_of : Text → List Text
  hops_of chain = reverse (split b',' chain)

  hops_of-append :
      (front back : Text) → hops_of (front ++ b',' ∷ back) ≡ hops_of back ++ hops_of front
  hops_of-append front back =
      ap reverse (split-append b',' front back)
      ∙ reverse-append (split b',' front) (split b',' back)

  -- A peer that no trusted network holds is the client itself, whatever the headers say.
  pub client_ip_of_stranger :
      (peer : IpAddr) (forwarded_for : Option Text) (trusted : List Cidr) (named : Option Text)
      → trusts trusted (to_canonical peer) ≡ false
      → client_ip parse peer forwarded_for trusted named ≡ to_canonical peer
  unfolding client_ip
  client_ip_of_stranger peer forwarded_for trusted named h = rw h

  client_ip-walk :
      (peer : IpAddr) (chain : Text) (trusted : List Cidr) (named : Option Text)
      → trusts trusted (to_canonical peer) ≡ true
      → client_ip parse peer (some chain) trusted named
        ≡ walk parse trusted
            (or_address (named_header_ip parse named) (to_canonical peer))
            none
            (hops_of chain)
  unfolding client_ip
  client_ip-walk peer chain trusted named h = rw h

  -- Behind a trusted peer, what a caller wrote into the header itself changes nothing: once the
  -- hops that the proxies added name one untrusted address, any text in front of them is ignored.
  pub client_ip-append :
      (peer : IpAddr) (front back : Text) (trusted : List Cidr) (named : Option Text)
      → trusts trusted (to_canonical peer) ≡ true
      → names_untrusted trusted (hops_of back) ≡ true
      → client_ip parse peer (some (front ++ b',' ∷ back)) trusted named
        ≡ client_ip parse peer (some back) trusted named
  client_ip-append peer front back trusted named h k =
      let fallback = or_address (named_header_ip parse named) (to_canonical peer) in
      client_ip-walk peer (front ++ b',' ∷ back) trusted named h
      ∙ (ap (walk parse trusted fallback none) (hops_of-append front back)
          ∙ (walk-append trusted fallback none (hops_of back) (hops_of front) k
              ∙ sym (client_ip-walk peer back trusted named h)))

  -- Behind a trusted peer, if the chain names an untrusted address at all, the result is the
  -- nearest of them: an untrusted hop, with only trusted or unreadable hops on the way to it.
  pub client_ip-nearest :
      (peer : IpAddr) (chain : Text) (trusted : List Cidr) (named : Option Text)
      → trusts trusted (to_canonical peer) ≡ true
      → names_untrusted trusted (hops_of chain) ≡ true
      → (near : List Text) × (hop : Text) × (far : List Text) × (hops_of chain ≡ near ++ hop ∷ far)
        × AllTrusted trusted near
        × (parse_address parse hop ≡ some (client_ip parse peer (some chain) trusted named))
        × (trusts trusted (client_ip parse peer (some chain) trusted named) ≡ false)
  client_ip-nearest peer chain trusted named h k =
      let fallback = or_address (named_header_ip parse named) (to_canonical peer) in
      let w = client_ip-walk peer chain trusted named h in
      let (near, hop, far, j, a, e, u) = walk-stranger trusted fallback none (hops_of chain) k in
      (near, hop, far, j, a, rw w e, rw w u)
