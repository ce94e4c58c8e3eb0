-- ===== src/Redirects/Tests.antt =====
-- Rewrites and redirects at concrete paths, for crates/gapura/src/proxy/select.rs.
use gapura.Prelude.{
  decimal_on, ◌≡◌, ◌≢◌, refl, true, some, none, [], Text, codes, text_eq, strip_prefix, arith,
}
use gapura.Config.{prefix, regex, replace_prefix_match, Redirect}
use gapura.Path.{is_continuation}
use gapura.Path.Canonical.{starts_slash}
use gapura.Matcher.{goes_on_with_slash, path_matches}
use gapura.Redirects.{
  trim_end_slashes, get_from, rest_after, replace_prefix, rewrite_path, location_port, port_part,
  location_path, redirect_location,
}
use gapura.Redirects.Rewriting.{rewrite_path-absolute}

program : Unit {0}
unfolding text_eq strip_prefix is_continuation goes_on_with_slash path_matches trim_end_slashes
    get_from rest_after replace_prefix rewrite_path decimal_on location_port port_part location_path
    redirect_location
program = tt

nested :
    rewrite_path (replace_prefix_match (codes "/bar")) (codes "/foo/bar") (prefix (codes "/foo"))
    ≡ some (codes "/bar/bar")
unfolding program
nested = refl

whole :
    rewrite_path (replace_prefix_match (codes "/")) (codes "/foo") (prefix (codes "/foo"))
    ≡ some (codes "/")
unfolding program
whole = refl

all_slashes :
    rewrite_path (replace_prefix_match (codes "//")) (codes "/foo") (prefix (codes "/foo"))
    ≡ some (codes "/")
unfolding program
all_slashes = refl

abbrev to_https : Redirect
to_https = record {
  scheme = some (codes "https");
  hostname = none;
  port = none;
  status = 301;
  path = none;
}

upgraded :
    redirect_location to_https
      (codes "http")
      (codes "ex.com")
      8080
      (codes "/a")
      (some (codes "q=1"))
      (prefix (codes "/"))
    ≡ some (codes "https://ex.com/a?q=1")
unfolding program
upgraded = refl

kept_port :
    redirect_location
      (record to_https { scheme = none })
      (codes "http")
      (codes "ex.com")
      8080
      (codes "/a")
      none
      (prefix (codes "/"))
    ≡ some (codes "http://ex.com:8080/a")
unfolding program
kept_port = refl

not_a_regex : (q : Text) → prefix (codes "/foo") ≢ regex q
not_a_regex q e = absurd (ground arith)

rewrite_path-absolute_example :
    (out : Text) × (rewrite_path
        (replace_prefix_match (codes "/bar"))
        (codes "/foo/x")
        (prefix (codes "/foo"))
      ≡ some out)
    × (starts_slash out ≡ true)
unfolding program
rewrite_path-absolute_example =
    rewrite_path-absolute (replace_prefix_match (codes "/bar")) (codes "/foo/x")
      (prefix (codes "/foo")) [] refl refl refl not_a_regex
