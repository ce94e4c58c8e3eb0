-- ===== src/RateLimit/Clients.antt =====
-- Whom a limit counts: `client` and `grouped` of crates/gapura/src/proxy/rate_limit.rs.
use gapura.Prelude.{
  ℕ, ◌*◌, ◌/◌, ◌^◌, ◌≡◌, ◌≢◌, ◌↔◌, refl, ◌∙◌, ap, true, Option, none, some, List, [], ◌∷◌, arith,
  ◌==◌, ==_iff, Text,
}
use gapura.ClientIp.{
  IpAddr, v4, v6, to_ipv4_mapped, to_canonical, same_prefix, contains_exactly, contains_canonical,
  contains,
}
use gapura.Config.{header}
use gapura.RateLimit.{by_header, values_of, named_by_header, named_client, client, grouped}

named_by_header_sound :
    (digest : Text → ℕ) (vs : List Text) (d : ℕ)
    → named_by_header digest vs ≡ some (by_header d)
    → (v : Text) × (vs ≡ v ∷ []) × (v ≢ []) × (d ≡ digest v)
unfolding named_by_header
named_by_header_sound digest [] d h = absurd (ground arith)
named_by_header_sound digest ([] ∷ []) d h = absurd (ground arith)
named_by_header_sound digest ((c ∷ s) ∷ []) d h =
    (c ∷ s, refl, (λ e. absurd (ground (arith, e))), ground arith)
named_by_header_sound digest (v ∷ w ∷ vs) d h = absurd (ground arith)

client_named :
    (digest : Text → ℕ) (name : Text) (addr : Option IpAddr) (who : Option Text)
    (headers : List (Text × Text)) (d : ℕ)
    → client digest (header name) addr who headers ≡ some (by_header d)
    → named_by_header digest (values_of name headers) ≡ some (by_header d)
unfolding client named_client
client_named digest name none who headers d h = ground arith
client_named digest name (some a) who headers d h = ground arith

named_by_header_complete :
    (digest : Text → ℕ) (v : Text)
    → v ≢ []
    → named_by_header digest (v ∷ []) ≡ some (by_header (digest v))
unfolding named_by_header
named_by_header_complete digest [] h = absurd (h refl)
named_by_header_complete digest (c ∷ s) h = refl

client_complete :
    (digest : Text → ℕ) (name : Text) (addr : Option IpAddr) (who : Option Text)
    (headers : List (Text × Text)) (v : Text)
    → values_of name headers ≡ v ∷ []
    → v ≢ []
    → client digest (header name) addr who headers ≡ some (by_header (digest v))
unfolding client named_client
client_complete digest name addr who headers v e h =
    rw (ap (named_by_header digest) e ∙ named_by_header_complete digest v h, client) refl

-- A request counts by a header's value exactly if it carries one line of that header, in any case
-- of its name, and the line is not empty: with several, no client can choose which one counts.
pub client_by_header :
    (digest : Text → ℕ) (name : Text) (addr : Option IpAddr) (who : Option Text)
    (headers : List (Text × Text)) (d : ℕ)
    → (client digest (header name) addr who headers ≡ some (by_header d))
      ↔ ((v : Text) × (values_of name headers ≡ v ∷ []) × (v ≢ []) × (d ≡ digest v))
client_by_header digest name addr who headers d = (
  λ h.
      named_by_header_sound digest (values_of name headers) d
        (client_named digest name addr who headers d h),
  λ (v, e, n, q). rw q (client_complete digest name addr who headers v e n),
)

grouped-v6 : (a : ℕ) → to_ipv4_mapped a ≡ none → grouped (v6 a) ≡ v6 (a / 2 ^ 64 * 2 ^ 64)
unfolding grouped to_canonical
grouped-v6 a h = rw (h, grouped) refl

contains-v6 :
    (a b : ℕ)
    → to_ipv4_mapped b ≡ none
    → contains (record { addr = v6 a; bits = 64 }) (v6 b) ≡ (a / 2 ^ 64 == b / 2 ^ 64)
unfolding contains to_canonical contains_canonical contains_exactly same_prefix
contains-v6 a b h = rw (h, to_canonical) refl

-- Two IPv6 addresses count as one client exactly if the second is in the first's /64 network, as
-- trusted networks are decided: rotating addresses inside it opens no window.
pub grouped-contains :
    (a b : ℕ)
    → to_ipv4_mapped a ≡ none
    → to_ipv4_mapped b ≡ none
    → (grouped (v6 a) ≡ grouped (v6 b))
      ↔ (contains (record { addr = v6 a; bits = 64 }) (v6 b) ≡ true)
grouped-contains a b h k = rw (grouped-v6 a h, grouped-v6 b k, contains-v6 a b k) (same, back)
  where
    number : IpAddr → ℕ
    number (v4 n) = n
    number (v6 n) = n

    same : v6 (a / 2 ^ 64 * 2 ^ 64) ≡ v6 (b / 2 ^ 64 * 2 ^ 64) → (a / 2 ^ 64 == b / 2 ^ 64) ≡ true
    same e =
        let q : a / 2 ^ 64 * 2 ^ 64 ≡ b / 2 ^ 64 * 2 ^ 64 = ap number e in
        (==_iff _ _).1 (omega (arith, q))

    back : (a / 2 ^ 64 == b / 2 ^ 64) ≡ true → v6 (a / 2 ^ 64 * 2 ^ 64) ≡ v6 (b / 2 ^ 64 * 2 ^ 64)
    back e = let q : a / 2 ^ 64 ≡ b / 2 ^ 64 = (==_iff _ _).0 e in ap (λ n. v6 (n * 2 ^ 64)) q
