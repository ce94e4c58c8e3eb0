-- ===== src/Config/Bodies.antt =====
-- How the plugins of crates/gapura-core/src/config.rs read bodies, and when they run.
use gapura.Prelude.{ℕ, ◌≡◌, ◌≢◌, ◌↔◌, inl, inr, refl, In, arith}
use gapura.Config.Policy.{
  Plugin, jwt, key_auth, ip_restriction, request_size_limit, request_transformer,
  response_transformer, cors, auth, acl, request_body, phases, stream, buffered, body,
}

-- A plugin reads a body as it streams exactly if it declares the phase that feeds one, and no
-- plugin asks for a body that no phase feeds yet, so none makes its rule refuse every request.
pub body-phases :
    (p : Plugin)
    → ((body p ≡ stream) ↔ In request_body (phases p)) × ((max : ℕ) → body p ≢ buffered max)
unfolding body phases
body-phases (jwt p) = (ground arith, λ m e. ground (arith, e))
body-phases (key_auth p) = (ground arith, λ m e. ground (arith, e))
body-phases (ip_restriction p) = (ground arith, λ m e. ground (arith, e))
body-phases (request_size_limit p) = ((λ e. inr (inl refl), λ i. refl), λ m e. ground (arith, e))
body-phases (request_transformer p) = (ground arith, λ m e. ground (arith, e))
body-phases (response_transformer p) = (ground arith, λ m e. ground (arith, e))
body-phases (cors p) = (ground arith, λ m e. ground (arith, e))
body-phases (auth p) = (ground arith, λ m e. ground (arith, e))
body-phases (acl p) = (ground arith, λ m e. ground (arith, e))
