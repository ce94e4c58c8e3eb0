-- ===== src/Path/Decoding.antt =====
-- The percent-decoding loop of `normalize_path` in crates/gapura-core/src/path.rs: its results
-- are encoded canonically, and it leaves what is so encoded alone.
use gapura.Prelude.{
  went_through, ℕ, ◌+◌, ◌*◌, ◌≡◌, refl, true, false, ◌&&◌, [], ◌∷◌, ◌++◌, arith, ◌==◌, Text,
  Bool-cases, inl, inr,
}
use gapura.Path.{ok, is_char_boundary, hex_value, escape, decode, ◌>>=◌}
use gapura.Path.Canonical.{
  starts_escape, is_encoded, hex_value-to_upper, to_upper-hexdigit, to_upper_of_upper,
  unreserved_lem, percent_starts,
}

-- What an escape adds, in front of a text that is encoded and starts a character, is encoded.
abbrev IsEncodedTo : Text → Text → Type 0
IsEncodedTo s t = (is_encoded t ≡ true) × (is_char_boundary s ≡ true → is_char_boundary t ≡ true)

escape-is_encoded :
    (d e : ℕ) (v t : Text)
    → escape d e ≡ ok v
    → is_encoded t ≡ true
    → is_char_boundary t ≡ true
    → (is_encoded (v ++ t) ≡ true) × (is_char_boundary (v ++ t) ≡ true)
unfolding escape is_encoded
escape-is_encoded d e v t h k b = ground (
  arith,
  hex_value-to_upper d,
  hex_value-to_upper e,
  to_upper-hexdigit d,
  to_upper-hexdigit e,
  unreserved_lem (16 * hex_value d + hex_value e),
  percent_starts,
)

-- What a successful decoding made of its first byte.
pub record Escaped (d e : ℕ) (s t : Text) : Type 0 where
  pub value : Text
  pub out : Text
  pub escaped : escape d e ≡ ok value
  pub decoded : decode s ≡ ok out
  pub bounded : is_char_boundary s ≡ true
  pub joined : t ≡ value ++ out

pub decode-Escaped :
    (c d e : ℕ) (s t : Text) → (c == b'%') ≡ true → decode (c ∷ d ∷ e ∷ s) ≡ ok t → Escaped d e s t
unfolding decode
decode-Escaped c d e s t p h =
    elim (Bool-cases (is_char_boundary (d ∷ e ∷ s) && is_char_boundary s)) [
      | inr b ↦ absurd (ground arith)
      | inl b ↦
          let (v, hv, h₁) =
            went_through (escape d e) (λ v. decode s >>= λ out. ok (v ++ out)) (rw (p, b) at h) in
          let (out, ho, h₂) = went_through (decode s) (λ out. ok (v ++ out)) h₁ in
          record {
            value = v;
            out = out;
            escaped = hv;
            decoded = ho;
            bounded = ground arith;
            joined = ground arith;
          }
    ]

pub decode-plain :
    (c d e : ℕ) (s t : Text)
    → (c == b'%') ≡ false
    → decode (c ∷ d ∷ e ∷ s) ≡ ok t
    → (out : Text) × (decode (d ∷ e ∷ s) ≡ ok out) × (t ≡ c ∷ out)
unfolding decode
decode-plain c d e s t q h =
    let (out, ho, h₂) = went_through (decode (d ∷ e ∷ s)) (λ out. ok (c ∷ out)) (rw q at h) in
    (out, ho, ground arith)

plain-IsEncodedTo :
    (c : ℕ) (s t : Text) → (c == b'%') ≡ false → IsEncodedTo s t → IsEncodedTo (c ∷ s) (c ∷ t)
unfolding is_encoded
plain-IsEncodedTo c s t q h = ground arith

pub decode-is_encoded : (s t : Text) → decode s ≡ ok t → IsEncodedTo s t
decode-is_encoded [] t h = unfold decode is_encoded in ground arith
decode-is_encoded (c ∷ []) t h = unfold decode is_encoded in ground arith
decode-is_encoded (c ∷ d ∷ []) t h =
    unfold decode is_encoded in ground (arith, decode-is_encoded (d ∷ []))
decode-is_encoded (c ∷ d ∷ e ∷ s) t h = elim (Bool-cases (c == b'%')) [
  | inl p ↦
      let x = decode-Escaped c d e s t p h in
      let ih = decode-is_encoded s x.out x.decoded in
      let (k, b) = escape-is_encoded d e x.value x.out x.escaped ih.0 (ih.1 x.bounded) in
      rw x.joined (k, λ _. b)
  | inr q ↦
      let (out, ho, j) = decode-plain c d e s t q h in
      rw j (plain-IsEncodedTo c (d ∷ e ∷ s) out q (decode-is_encoded (d ∷ e ∷ s) out ho))
]

starts_escape-escape :
    (d e : ℕ) (s : Text)
    → starts_escape (d ∷ e ∷ s) ≡ true
    → (escape d e ≡ ok (b'%' ∷ d ∷ e ∷ []))
      × ((d == b'%') ≡ false)
      × ((e == b'%') ≡ false)
      × (is_char_boundary (d ∷ e ∷ s) ≡ true)
      × (is_char_boundary s ≡ true)
unfolding escape
starts_escape-escape d e s h = ground (arith, to_upper_of_upper d, to_upper_of_upper e)

-- Decoding leaves an encoded text alone.
pub decode_of_is_encoded : (s : Text) → is_encoded s ≡ true → decode s ≡ ok s
unfolding is_encoded decode
decode_of_is_encoded [] h = refl
decode_of_is_encoded (c ∷ []) h = ground arith
decode_of_is_encoded (c ∷ d ∷ []) h = ground (arith, decode_of_is_encoded (d ∷ []))
decode_of_is_encoded (c ∷ d ∷ e ∷ s) h = elim (Bool-cases (c == b'%')) [
  | inl p ↦
      let (x, nd, ne, b, b') = starts_escape-escape d e s (ground arith) in
      rw (p, b, b', x, decode_of_is_encoded s (ground arith)) (ground arith)
  | inr q ↦ rw (q, decode_of_is_encoded (d ∷ e ∷ s) (ground arith))
]
