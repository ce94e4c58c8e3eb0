-- ===== src/Path/Tests.antt =====
-- The repository's own cases for crates/gapura-core/src/path.rs.
use gapura.Path.Normal.{IsCanonical, normalize_path-IsCanonical, normalize_path_idempotent}
use gapura.Path.Spelling.{normalize_path-escape}
use gapura.Path.Params.{Names, without_path_params-Names}
use gapura.Prelude.{
  ◌+◌, ◌*◌, ◌∷◌, ◌++◌, ◌↔◌, false, map, Text, is_ascii_hexdigit, ◌≡◌, refl, some, none, codes,
  text_eq, to_upper, split, before, contains,
}
use gapura.Path.{
  ok, err, truncated_escape, invalid_escape, dot_segment, not_absolute, escape, decode,
  is_continuation, hex_value, is_unreserved, merge_slashes, normalize_path, join_segments,
  join_first, without_path_params,
}

program : Unit {0}
unfolding is_ascii_hexdigit is_continuation hex_value is_unreserved text_eq to_upper split before
    contains escape decode merge_slashes normalize_path join_segments join_first without_path_params
program = tt

decoded_path : normalize_path (codes "/%61dmin//a%2fb") ≡ ok (codes "/admin/a%2Fb")
unfolding program
decoded_path = refl

hidden_dots : normalize_path (codes "/public/.%2E;x=1/admin") ≡ err dot_segment
unfolding program
hidden_dots = refl

plain_dots : normalize_path (codes "/v1.2/..x/x..") ≡ ok (codes "/v1.2/..x/x..")
unfolding program
plain_dots = refl

cut_escape : normalize_path (codes "/a%2") ≡ err truncated_escape
unfolding program
cut_escape = refl

signed_escape : normalize_path (codes "/a%+1") ≡ err invalid_escape
unfolding program
signed_escape = refl

absolute_form : normalize_path (codes "http://x/admin") ≡ err not_absolute
unfolding program
absolute_form = refl

stripped : without_path_params (codes "/;x/admin;y=1;z/") ≡ some (codes "/admin/")
unfolding program
stripped = refl

bare_parameter : without_path_params (codes "/;") ≡ some (codes "/")
unfolding program
bare_parameter = refl

no_parameter : without_path_params (codes "/admin/secret") ≡ none
unfolding program
no_parameter = refl

normalize_path-IsCanonical_example : IsCanonical (codes "/admin/a%2Fb")
unfolding program
normalize_path-IsCanonical_example =
    normalize_path-IsCanonical (codes "/%61dmin//a%2fb") (codes "/admin/a%2Fb") refl

normalize_path_idempotent_example :
    normalize_path (codes "/admin/a%2Fb") ≡ ok (codes "/admin/a%2Fb")
unfolding program
normalize_path_idempotent_example =
    normalize_path_idempotent (codes "/%61dmin//a%2fb") (codes "/admin/a%2Fb") refl

normalize_path-escape_example :
    normalize_path (codes "/x%2F" ++ b'%' ∷ b'6' ∷ b'1' ∷ codes "dmin")
    ≡ normalize_path (codes "/x%2F" ++ (16 * hex_value b'6' + hex_value b'1') ∷ codes "dmin")
unfolding program
normalize_path-escape_example =
    normalize_path-escape (codes "/x%2F") (codes "dmin") (codes "/x%2F") b'6' b'1' refl refl refl
      refl refl

without_path_params-Names_example :
    ((without_path_params (codes "/a;x") ≡ none) ↔ (contains b';' (codes "/a;x") ≡ false))
    × ((q : Text)
        → without_path_params (codes "/a;x") ≡ some q
        → Names (map (before b';') (split b'/' (codes "/a;x"))) q)
without_path_params-Names_example = without_path_params-Names (codes "/a;x")
