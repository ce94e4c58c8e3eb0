-- ===== src/Path/Spelling.antt =====
-- Two spellings of one path are normalised alike. Code: crates/gapura-core/src/path.rs.
use gapura.Prelude.{
  went_through, ℕ, ◌+◌, ◌*◌, ◌≡◌, refl, sym, true, false, [], ◌∷◌, ◌++◌, arith, ◌==◌, Text,
  Bool-cases, inl, inr, ◌&&◌, is_ascii_hexdigit, append_assoc, ap, ◌∙◌,
}
use gapura.Path.{
  PathError, Result, ok, err, ◌>>=◌, is_char_boundary, hex_value, is_unreserved, escape, decode,
  is_continuation, normalize_path,
}
use gapura.Path.Canonical.{starts_slash, unreserved_lem, percent_starts}
use gapura.Path.Decoding.{decode-Escaped, decode-plain}
use gapura.Path.Normal.{normalize_path_steps}

starts_slash-append_left : (a b : Text) → starts_slash a ≡ true → starts_slash (a ++ b) ≡ true
starts_slash-append_left [] b h = ground arith
starts_slash-append_left (c ∷ a) b h = h

starts_slash-append :
    (a b c : Text) → starts_slash a ≡ true → starts_slash (a ++ b) ≡ starts_slash (a ++ c)
starts_slash-append a b c h = starts_slash-append_left a b h ∙ sym (starts_slash-append_left a c h)

boundary-append :
    (s b : Text)
    → is_char_boundary s ≡ true
    → is_char_boundary b ≡ true
    → is_char_boundary (s ++ b) ≡ true
boundary-append [] b h k = k
boundary-append (c ∷ s) b h k = h

>>=-assoc_ok :
    (m : Result PathError Text) (v w : Text)
    → (m >>= λ out. ok ((v ++ w) ++ out)) ≡ ((m >>= λ out. ok (w ++ out)) >>= λ out. ok (v ++ out))
>>=-assoc_ok (ok a) v w = ap ok (append_assoc v w a)
>>=-assoc_ok (err e) v w = refl

decode_percent :
    (c d e : ℕ) (s v : Text)
    → (c == b'%') ≡ true
    → is_char_boundary (d ∷ e ∷ s) ≡ true
    → is_char_boundary s ≡ true
    → escape d e ≡ ok v
    → decode (c ∷ d ∷ e ∷ s) ≡ (decode s >>= λ out. ok (v ++ out))
unfolding decode
decode_percent c d e s v p b b' h = rw (p, b, b', h)

decode_other :
    (c : ℕ) (s : Text) → (c == b'%') ≡ false → decode (c ∷ s) ≡ (decode s >>= λ out. ok (c ∷ out))
unfolding decode
decode_other c [] q = rw q
decode_other c (d ∷ []) q = rw q
decode_other c (d ∷ e ∷ s) q = rw q

escape_boundary : (d e : ℕ) (v s : Text) → escape d e ≡ ok v → is_char_boundary (d ∷ e ∷ s) ≡ true
unfolding escape is_ascii_hexdigit is_continuation
escape_boundary d e v s h = ground arith

>>=-ok_nil : (m : Result PathError Text) → (m >>= λ out. ok out) ≡ m
>>=-ok_nil (ok a) = refl
>>=-ok_nil (err e) = refl

decode_last : (c : ℕ) (t : Text) → decode (c ∷ []) ≡ ok t → ((c == b'%') ≡ false) × (t ≡ c ∷ [])
unfolding decode
decode_last c t h = ground arith

decode_last_two :
    (c d : ℕ) (t : Text)
    → decode (c ∷ d ∷ []) ≡ ok t
    → ((c == b'%') ≡ false) × ((out : Text) × (decode (d ∷ []) ≡ ok out) × (t ≡ c ∷ out))
unfolding decode
decode_last_two c d t h = elim (Bool-cases (c == b'%')) [
  | inl p ↦ absurd (ground arith)
  | inr q ↦
      let (out, ho, j) =
        went_through (decode (d ∷ [])) (λ out. ok (c ∷ out)) {end = t} (ground arith) in
      (q, (out, ho, ground arith))
]

-- Decoding goes on where a text that decodes ends.
decode-append :
    (a b a' : Text)
    → decode a ≡ ok a'
    → is_char_boundary b ≡ true
    → decode (a ++ b) ≡ (decode b >>= λ out. ok (a' ++ out))
decode-append [] b a' h k =
    let e : a' ≡ [] = unfold decode in ground arith in rw e (sym (>>=-ok_nil (decode b)))
decode-append (c ∷ []) b a' h k = let (q, j) = decode_last c a' h in rw j (decode_other c b q)
decode-append (c ∷ d ∷ []) b a' h k =
    let (q, (out, ho, j)) = decode_last_two c d a' h in
    rw j (
      decode_other c (d ∷ b) q
      ∙ rw (decode-append (d ∷ []) b out ho k) (sym (>>=-assoc_ok (decode b) (c ∷ []) out)))
decode-append (c ∷ d ∷ e ∷ s) b a' h k = elim (Bool-cases (c == b'%')) [
  | inl p ↦
      let x = decode-Escaped c d e s a' p h in
      rw x.joined (
        decode_percent c d e (s ++ b) x.value p (escape_boundary d e x.value (s ++ b) x.escaped)
          (boundary-append s b x.bounded k) x.escaped
        ∙ rw (decode-append s b x.out x.decoded k) (sym (>>=-assoc_ok (decode b) x.value x.out)))
  | inr q ↦
      let (out, ho, j) = decode-plain c d e s a' q h in
      rw j (
        decode_other c (d ∷ e ∷ s ++ b) q
        ∙ rw (decode-append (d ∷ e ∷ s) b out ho k) (sym (>>=-assoc_ok (decode b) (c ∷ []) out)))
]

escape_unreserved :
    (d e : ℕ)
    → (is_ascii_hexdigit d && is_ascii_hexdigit e) ≡ true
    → is_unreserved (16 * hex_value d + hex_value e) ≡ true
    → escape d e ≡ ok ((16 * hex_value d + hex_value e) ∷ [])
unfolding escape
escape_unreserved d e h u = rw (h, u)

normalize_path_of_decode :
    (p q : Text)
    → starts_slash p ≡ starts_slash q
    → decode p ≡ decode q
    → starts_slash p ≡ true
    → normalize_path p ≡ normalize_path q
normalize_path_of_decode p q s h k =
    normalize_path_steps p k ∙ rw h (sym (normalize_path_steps q (sym s ∙ k)))

-- Writing an unreserved byte of a path as a percent escape, in either case of the digits, changes
-- nothing where the part in front, `a`, decodes and starts with a slash and the part behind, `b`,
-- starts a character: both spellings are refused alike, or give the same path.
pub normalize_path-escape :
    (a b a' : Text) (d e : ℕ)
    → starts_slash a ≡ true
    → decode a ≡ ok a'
    → is_char_boundary b ≡ true
    → (is_ascii_hexdigit d && is_ascii_hexdigit e) ≡ true
    → is_unreserved (16 * hex_value d + hex_value e) ≡ true
    → normalize_path (a ++ b'%' ∷ d ∷ e ∷ b)
      ≡ normalize_path (a ++ (16 * hex_value d + hex_value e) ∷ b)
normalize_path-escape a b a' d e s h k x u =
    let v = 16 * hex_value d + hex_value e in
    let esc = escape_unreserved d e x u in
    let (plain, starts) = unreserved_lem v u in
    let left : decode (b'%' ∷ d ∷ e ∷ b) ≡ decode (v ∷ b) =
      decode_percent b'%' d e b (v ∷ []) refl (escape_boundary d e (v ∷ []) b esc) k esc
      ∙ sym (decode_other v b plain) in
    let same : decode (a ++ b'%' ∷ d ∷ e ∷ b) ≡ decode (a ++ v ∷ b) =
      decode-append a (b'%' ∷ d ∷ e ∷ b) a' h (rw percent_starts)
      ∙ rw left (sym (decode-append a (v ∷ b) a' h (rw starts))) in
    normalize_path_of_decode (a ++ b'%' ∷ d ∷ e ∷ b) (a ++ v ∷ b) (starts_slash-append a _ _ s) same
      (starts_slash-append_left a _ s)
