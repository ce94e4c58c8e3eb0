-- ===== src/Config/Tests.antt =====
-- Runs of the policies of crates/gapura-core/src/config.rs.
use gapura.Prelude.{
  ◌≡◌, ◌≢◌, ◌⊎◌, refl, false, some, none, [], ◌∷◌, In, Text, codes, text_eq, strip_prefix,
}
use gapura.ClientIp.{v4}
use gapura.Config.Policy.{
  IpRestrictionPolicy, AclPolicy, CorsPolicy, acl_refusal, split_wildcard, strip_suffix,
  wildcard_label, origin_matches, cors_allowed, denied,
}
use gapura.Config.Policy.{Plugin, request_size_limit}
use gapura.Config.Origins.{Named, cors_allowed-Named}

program : Unit {0}
unfolding text_eq strip_prefix acl_refusal split_wildcard strip_suffix wildcard_label origin_matches
    cors_allowed
program = tt

abbrev private_only : IpRestrictionPolicy
private_only = record { allow = record { addr = v4 0x0a000000; bits = 8 } ∷ []; deny = [] }

abbrev staff : AclPolicy
staff = record { allow = codes "staff" ∷ []; deny = codes "blocked" ∷ [] }

abbrev shops : CorsPolicy
shops = record {
  origins = codes "https://*.shop.test" ∷ [];
  methods = [];
  headers = [];
  expose_headers = [];
  credentials = false;
  max_age = none;
  preflight_continue = false;
}

blocked_staff : acl_refusal staff (some (codes "staff" ∷ codes "blocked" ∷ [])) ≡ some denied
unfolding program
blocked_staff = refl

one_label : cors_allowed shops (codes "https://eu.shop.test") ≡ some (codes "https://eu.shop.test")
unfolding program
one_label = refl

two_labels : cors_allowed shops (codes "https://a.b.shop.test") ≡ none
unfolding program
two_labels = refl

cors_allowed-Named_example :
    (codes "https://eu.shop.test" ≢ codes "null")
    × ((codes "https://eu.shop.test" ≡ codes "*") × In (codes "*") shops.origins
        ⊎ (codes "https://eu.shop.test" ≡ codes "https://eu.shop.test")
          × ((entry : Text) × In entry shops.origins × Named entry (codes "https://eu.shop.test")))
unfolding program
cors_allowed-Named_example =
    cors_allowed-Named shops (codes "https://eu.shop.test") (codes "https://eu.shop.test") refl

abbrev size_limit : Plugin
size_limit = request_size_limit (record { max_bytes = 1024 })
