-- ===== src/Redirects/Locations.antt =====
-- What a redirect's location depends on: `redirect_location` of
-- crates/gapura/src/proxy/select.rs.
use gapura.Prelude.{ℕ, ◌≡◌, refl, Option, some, Text}
use gapura.Config.{PathMatch, Redirect}
use gapura.Redirects.{location_port, redirect_location}

-- A redirect that sets a scheme leads to the same location whatever scheme and port the request
-- came in on.
pub redirect_location-scheme :
    (r : Redirect) (s scheme scheme' host path : Text) (port port' : ℕ) (query : Option Text)
    (matched : PathMatch)
    → r.scheme ≡ some s
    → redirect_location r scheme host port path query matched
      ≡ redirect_location r scheme' host port' path query matched
unfolding redirect_location location_port
redirect_location-scheme r s scheme scheme' host path port port' query matched h = rw h refl
