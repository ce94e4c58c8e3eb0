-- ===== src/SameOrigin/Guarded.antt =====
-- Which requests pass: crates/gapura-control/src/same_origin.rs.
use gapura.Prelude.{
  ◌≡◌, ◌↔◌, ◌⊎◌, inl, inr, refl, ap, sym, ◌∙◌, Bool, true, false, not, ◌&&◌, Option, none, some,
  Text, codes, text_eq_iff, text_eq_refl, any→In, In→any, In, arith, Option-cases, if◌then◌else◌,
}
use gapura.Config.{lookup}
use gapura.SameOrigin.{
  Verdict, pass, cross_site, not_json, Request, present, is_json, named_by, forwarded_host, host_of,
  names_host, origin_named, by_origin, by_site, from_this_origin, is_read, is_api, is_auth, verdict,
}

-- The decision by the tests that it makes.
abbrev verdict_of : Bool → Bool → Bool → Bool → Bool → Verdict
verdict_of read api auth own json =
    if read
    then pass
    else if not api && not auth
    then pass
    else if not own
    then cross_site
    else if api && not json
    then not_json
    else pass

abbrev MayPass : Bool → Bool → Bool → Bool → Bool → Type 0
MayPass read api auth own json =
    (read ≡ true) ⊎ ((api ≡ false) × (auth ≡ false)) ⊎ ((own ≡ true) × (api ≡ true → json ≡ true))

pass_sound :
    (read api auth own json : Bool)
    → verdict_of read api auth own json ≡ pass
    → MayPass read api auth own json
pass_sound true api auth own json h = inl refl
pass_sound false false false own json h = inr (inl (refl, refl))
pass_sound false false true true json h = inr (inr (refl, λ e. absurd (ground (arith, e))))
pass_sound false false true false json h = absurd (ground (arith, h))
pass_sound false true auth true true h = inr (inr (refl, λ e. refl))
pass_sound false true auth true false h = absurd (ground (arith, h))
pass_sound false true auth false json h = absurd (ground (arith, h))

pass_complete :
    (read api auth own json : Bool)
    → MayPass read api auth own json
    → verdict_of read api auth own json ≡ pass
pass_complete true api auth own json h = refl
pass_complete false api auth own json (inl e) = absurd (ground (arith, e))
pass_complete false api auth own json (inr (inl (e, f))) = ground (arith, e, f)
pass_complete false true auth own json (inr (inr (e, f))) = ground (arith, e, f refl)
pass_complete false false true own json (inr (inr (e, f))) = ground (arith, e)
pass_complete false false false own json (inr (inr (e, f))) = refl

not_json_sound :
    (read api auth own json : Bool)
    → verdict_of read api auth own json ≡ not_json
    → (own ≡ true) × (api ≡ true) × (json ≡ false)
not_json_sound true api auth own json h = absurd (ground (arith, h))
not_json_sound false true auth true false h = (refl, refl, refl)
not_json_sound false true auth true true h = absurd (ground (arith, h))
not_json_sound false true auth false json h = absurd (ground (arith, h))
not_json_sound false false true true json h = absurd (ground (arith, h))
not_json_sound false false true false json h = absurd (ground (arith, h))
not_json_sound false false false own json h = absurd (ground (arith, h))

module _ (to_str : Text → Option Text) (r : Request) where
  -- `Origin` names a host that the request was sent to.
  abbrev pub IsNamed : Text → Type 0
  IsNamed origin =
      (named : Text) × (host : Text) × (named_by to_str origin ≡ some named)
      × In host (present (forwarded_host to_str r) (host_of to_str r))
      × (names_host to_str named host ≡ true)

  -- The request comes from this origin's own pages, or from no browser.
  pub data IsOwn : Type 0 where
    says_so : lookup (codes "sec-fetch-site") r.headers ≡ some (codes "same-origin") → IsOwn
    no_browser :
        lookup (codes "sec-fetch-site") r.headers ≡ none
        → lookup (codes "origin") r.headers ≡ none
        → IsOwn
    named_here :
        (origin : Text)
        → lookup (codes "sec-fetch-site") r.headers ≡ none
        → lookup (codes "origin") r.headers ≡ some origin
        → IsNamed origin
        → IsOwn

  origin_named-IsNamed :
      (origin : Text) → origin_named to_str (named_by to_str origin) r ≡ true → IsNamed origin
  origin_named-IsNamed origin h = elim (Option-cases (named_by to_str origin)) [
    | inl e ↦ absurd (ground (arith, ap (λ o. origin_named to_str o r) (sym e) ∙ h))
    | inr (named, e) ↦
        let (host, i, f) =
          any→In (names_host to_str named) _ (ap (λ o. origin_named to_str o r) (sym e) ∙ h) in
        (named, host, e, i, f)
  ]

  IsNamed-origin_named :
      (origin : Text) → IsNamed origin → origin_named to_str (named_by to_str origin) r ≡ true
  IsNamed-origin_named origin (named, host, e, i, f) =
      ap (λ o. origin_named to_str o r) e ∙ In→any (names_host to_str named) host _ i f

  by_origin-IsOwn :
      (o : Option Text)
      → lookup (codes "sec-fetch-site") r.headers ≡ none
      → lookup (codes "origin") r.headers ≡ o
      → by_origin to_str o r ≡ true
      → IsOwn
  by_origin-IsOwn none e f h = no_browser e f
  by_origin-IsOwn (some origin) e f h = named_here origin e f (origin_named-IsNamed origin h)

  by_site-IsOwn :
      (o : Option Text)
      → lookup (codes "sec-fetch-site") r.headers ≡ o
      → by_site to_str o r ≡ true
      → IsOwn
  by_site-IsOwn none e h = by_origin-IsOwn (lookup (codes "origin") r.headers) e refl h
  by_site-IsOwn (some site) e h =
      says_so (e ∙ ap some ((text_eq_iff site (codes "same-origin")).0 h))

  IsOwn-from_this_origin : IsOwn → from_this_origin to_str r ≡ true
  unfolding from_this_origin
  IsOwn-from_this_origin (says_so e) =
      ap (λ o. by_site to_str o r) e ∙ text_eq_refl (codes "same-origin")
  IsOwn-from_this_origin (no_browser e f) =
      ap (λ o. by_site to_str o r) e ∙ ap (λ o. by_origin to_str o r) f
  IsOwn-from_this_origin (named_here origin e f n) =
      ap (λ o. by_site to_str o r) e
      ∙ ap (λ o. by_origin to_str o r) f
      ∙ IsNamed-origin_named origin n

  from_this_origin_iff : (from_this_origin to_str r ≡ true) ↔ IsOwn
  unfolding from_this_origin
  from_this_origin_iff =
      (by_site-IsOwn (lookup (codes "sec-fetch-site") r.headers) refl, IsOwn-from_this_origin)

  -- Why a request may pass.
  abbrev pub IsFine : Type 0
  IsFine =
      (is_read r ≡ true)
      ⊎ ((is_api r ≡ false) × (is_auth r ≡ false))
      ⊎ (IsOwn × (is_api r ≡ true → is_json to_str r ≡ true))

  -- A request passes just where it only reads, or is to neither /api/ nor /auth/, or shows that it
  -- comes from this origin's own pages or no browser and, if it is to /api/, is JSON; one that is
  -- refused as not JSON shows where it comes from, and is to /api/.
  pub verdict-IsVerdict :
      ((verdict to_str r ≡ pass) ↔ IsFine)
      × (verdict to_str r ≡ not_json → IsOwn × (is_api r ≡ true) × (is_json to_str r ≡ false))
  unfolding verdict
  verdict-IsVerdict =
      let own = from_this_origin_iff in
      (
        (
          λ h.
              elim (pass_sound (is_read r) (is_api r) (is_auth r) (from_this_origin to_str r)
                (is_json to_str r) h) [
                  | inl e ↦ inl e
                  | inr (inl e) ↦ inr (inl e)
                  | inr (inr (e, f)) ↦ inr (inr (own.0 e, f))
                ],
          λ x.
              pass_complete (is_read r) (is_api r) (is_auth r) (from_this_origin to_str r)
                (is_json to_str r)
                (elim x [
                  | inl e ↦ inl e
                  | inr (inl e) ↦ inr (inl e)
                  | inr (inr (e, f)) ↦ inr (inr (own.1 e, f))
                ]),
        ),
        λ h.
            let (e, f, g) =
              not_json_sound (is_read r) (is_api r) (is_auth r) (from_this_origin to_str r)
                (is_json to_str r) h in
            (own.0 e, f, g),
      )
