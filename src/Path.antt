-- ===== src/Path.antt =====
-- The path a request is matched on: `normalize_path` and `without_path_params` of
-- crates/gapura-core/src/path.rs. Both `while` loops walk the bytes of their text once, so they
-- are recursions on the text; what they push on `decoded` and `out` is what the recursion builds.
pub mod Canonical
pub mod Decoding
pub mod Merging
pub mod Segments
pub mod Normal
pub mod Spelling
pub mod Params
pub mod Tests
pub use gapura.Prelude.{Result, ok, err, ◌>>=◌}
use gapura.Prelude.{
  ℕ, ◌+◌, ◌-◌, ◌*◌, ◌≡◌, Bool, true, false, not, ◌&&◌, ◌||◌, Option, none, some, List, [], ◌∷◌,
  ◌++◌, map, ltb, leb, ◌==◌, if◌then◌else◌, any, Text, codes, text_eq, is_ascii_digit,
  is_ascii_uppercase, is_ascii_alphanumeric, is_ascii_hexdigit, to_upper, split, before, contains,
}

-- The messages of the `Err` results.
pub data PathError : Type 0 where
  not_absolute truncated_escape invalid_escape dot_segment : PathError

-- A continuation byte of UTF-8: no character starts at it.
unfoldable pub is_continuation : ℕ → Bool
is_continuation c = leb 128 c && ltb c 192

-- `is_char_boundary` at the start of what is left of a text.
abbrev pub is_char_boundary : Text → Bool
is_char_boundary [] = true
is_char_boundary (c ∷ s) = not (is_continuation c)

-- The value of a hexadecimal digit.
unfoldable pub hex_value : ℕ → ℕ
hex_value c = if is_ascii_digit c then c - 48 else if is_ascii_uppercase c then c - 55 else c - 87

-- The characters that RFC 3986 calls unreserved.
unfoldable pub is_unreserved : ℕ → Bool
is_unreserved v = is_ascii_alphanumeric v || (v == b'-' || v == b'.' || v == b'_' || v == b'~')

-- What one percent escape with these digits adds to the decoded text.
unfoldable pub escape : ℕ → ℕ → Result PathError Text
escape d e =
    if is_ascii_hexdigit d && is_ascii_hexdigit e
    then (let v = 16 * hex_value d + hex_value e in
        if is_unreserved v then ok (v ∷ []) else ok (b'%' ∷ to_upper d ∷ to_upper e ∷ []))
    else err invalid_escape

-- The first loop. `raw.get(i + 1..i + 3)` fails past the end and off a character boundary.
unfoldable pub decode : Text → Result PathError Text
decode [] = ok []
decode (c ∷ []) = if c == b'%' then err truncated_escape else ok (c ∷ [])
decode (c ∷ d ∷ []) =
    let rest = decode (d ∷ []) in
    if c == b'%' then err truncated_escape else rest >>= λ out. ok (c ∷ out)
decode (c ∷ d ∷ e ∷ s) =
    let skipped = decode s in
    let rest = decode (d ∷ e ∷ s) in
    if c == b'%'
    then (if is_char_boundary (d ∷ e ∷ s) && is_char_boundary s
        then (escape d e >>= λ v. skipped >>= λ out. ok (v ++ out))
        else err truncated_escape)
    else rest >>= λ out. ok (c ∷ out)

-- The second loop; `ends` is `out.ends_with('/')`.
unfoldable pub merge_slashes : Bool → Text → Text
merge_slashes ends [] = []
merge_slashes ends (c ∷ s) =
    let rest = merge_slashes (c == b'/') s in if c == b'/' && ends then rest else c ∷ rest

abbrev pub without_params : Text → Text
without_params = before b';'

abbrev pub is_dot : Text → Bool
is_dot seg = text_eq seg (codes ".") || text_eq seg (codes "..")

abbrev pub has_dot_segment : Text → Bool
has_dot_segment out = any is_dot (map without_params (split b'/' out))

-- From the decoded text on.
abbrev pub check_segments : Text → Result PathError Text
check_segments out = if has_dot_segment out then err dot_segment else ok out

unfoldable pub normalize_path : Text → Result PathError Text
normalize_path [] = ok (codes "/")
normalize_path (c ∷ s) =
    if c == b'/'
    then (decode (c ∷ s) >>= λ decoded. check_segments (merge_slashes false decoded))
    else err not_absolute

-- The loop of `without_path_params` after its first segment: what is still pushed on `out`.
-- `ends` is `out.ends_with('/')`. A segment holds no slash, so after one that is pushed `out`
-- ends with a slash exactly if the segment is empty.
unfoldable pub join_segments : Bool → List Text → Text
join_segments ends [] = []
join_segments ends (seg ∷ segs) =
    let rest = join_segments (text_eq seg []) segs in
    if ends then seg ++ rest else b'/' ∷ seg ++ rest

unfoldable pub join_first : List Text → Text
join_first [] = []
join_first (seg ∷ segs) = seg ++ join_segments false segs

unfoldable pub without_path_params : Text → Option Text
without_path_params path =
    if contains b';' path then some (join_first (map without_params (split b'/' path))) else none
