-- ===== src/SameOrigin/Tests.antt =====
-- Runs of `verdict` of crates/gapura-control/src/same_origin.rs.
use gapura.Prelude.{
  ◌≡◌, ◌↔◌, refl, true, false, List, [], ◌∷◌, Option, none, some, Text, codes, text_eq, starts_with,
  strip_prefix, before, trim, to_lower,
}
use gapura.Config.{lookup}
use gapura.Config.Policy.{strip_suffix}
use gapura.SameOrigin.{
  pass, cross_site, not_json, Request, without_default_port, split_at_text, is_json, named_by,
  forwarded_host, host_of, from_this_origin, is_api, verdict,
}
use gapura.SameOrigin.Guarded.{IsOwn, IsFine, verdict-IsVerdict}

program : Unit {0}
unfolding strip_suffix without_default_port split_at_text is_json named_by forwarded_host host_of
    from_this_origin verdict text_eq starts_with strip_prefix before trim to_lower lookup
program = tt

abbrev plain : Text → Option Text
plain t = some t

abbrev post : Text → List (Text × Text) → Request
post path headers = record {
  method = codes "POST";
  path = path;
  authority = none;
  headers = headers;
}

abbrev json : Text × Text
json = (codes "content-type", codes "Application/JSON; charset=utf-8")

abbrev own_page : Request
own_page = post (codes "/api/routes") (
    json
    ∷ (codes "origin", codes "https://console.example")
    ∷ (codes "host", codes "console.example:443")
    ∷ [])

from_own_page : verdict plain own_page ≡ pass
unfolding program
from_own_page = refl

from_other_page :
    verdict plain (
      post (codes "/API/routes") (
        (codes "origin", codes "https://other.example")
        ∷ (codes "host", codes "console.example")
        ∷ []))
    ≡ cross_site
unfolding program
from_other_page = refl

from_sandboxed_frame :
    verdict plain (post (codes "/auth/login") ((codes "origin", codes "null") ∷ [])) ≡ cross_site
unfolding program
from_sandboxed_frame = refl

from_sibling :
    verdict plain (post (codes "/auth/login") ((codes "sec-fetch-site", codes "same-site") ∷ []))
    ≡ cross_site
unfolding program
from_sibling = refl

without_json : verdict plain (post (codes "/api/routes") []) ≡ not_json
unfolding program
without_json = refl

verdict-IsVerdict_example :
    ((verdict plain own_page ≡ pass) ↔ IsFine plain own_page)
    × (verdict plain own_page ≡ not_json
        → IsOwn plain own_page × (is_api own_page ≡ true) × (is_json plain own_page ≡ false))
verdict-IsVerdict_example = verdict-IsVerdict plain own_page
