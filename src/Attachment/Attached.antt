-- ===== src/Attachment/Attached.antt =====
-- Which listeners take a route: `attach_to_gateway` and `accepted_condition` of
-- crates/gapura-core/src/translate/routes.rs.
use gapura.Prelude.{
  ℕ, ◌≡◌, inl, inr, ap, sym, ◌∙◌, subst, true, false, not, List, none, some, Text, Bool-cases,
  Option-cases, if_true, if_false,
}
use gapura.Hostname.{intersect}
use gapura.Listeners.{ListenerBuild}
use gapura.Attachment.{
  Progress, Attaching, count, names_other, admits, join, joined_or_claimed, with_hosts,
  yield_to_siblings, attach_listener,
}

module _ (x : Attaching) where
  -- A listener that takes the route, and under which hostnames.
  pub record Takes (i : ℕ) (l : ListenerBuild) (kept : List Text) : Type 0 where
    pub named : names_other x.pref l ≡ false
    pub admitted : admits x l ≡ true
    pub hosts : List Text
    pub shared : intersect l.hostname x.hostnames ≡ some hosts
    pub yielded : yield_to_siblings hosts (x.gateway, i) l x.siblings ≡ some kept

  -- What one pass comes to.
  pub data Passed (i : ℕ) (p : Progress) (l : ListenerBuild)
      : Progress × ListenerBuild → Type 0 where
    other : names_other x.pref l ≡ true → Passed i p l (p, l)
    refused : names_other x.pref l ≡ false → admits x l ≡ false → Passed i p l (count p 1 0 0 0, l)
    apart :
        names_other x.pref l ≡ false
        → admits x l ≡ true
        → intersect l.hostname x.hostnames ≡ none
        → Passed i p l (count p 1 1 0 0, l)
    left :
        (hosts : List Text)
        → intersect l.hostname x.hostnames ≡ some hosts
        → yield_to_siblings hosts (x.gateway, i) l x.siblings ≡ none
        → Passed i p l (count p 1 1 0 1, l)
    taken : (kept : List Text) → Takes i l kept → Passed i p l (join x kept (count p 1 1 1 0) l)

  passes :
      (i : ℕ) (p : Progress) (l : ListenerBuild)
      → names_other x.pref l ≡ false
      → admits x l ≡ true
      → attach_listener x i p l ≡ with_hosts x i (intersect l.hostname x.hostnames) p l
  unfolding attach_listener
  passes i p l e f = if_false _ _ e ∙ if_false _ _ (ap not f)

  pub attach_listener-Passed :
      (i : ℕ) (p : Progress) (l : ListenerBuild) → Passed i p l (attach_listener x i p l)
  unfolding attach_listener
  attach_listener-Passed i p l = elim (Bool-cases (names_other x.pref l)) [
    | inl e ↦ rw (if_true _ _ e) (other e)
    | inr e ↦ elim (Bool-cases (admits x l)) [
      | inr f ↦ rw (if_false _ _ e, if_true _ _ (ap not f)) (refused e f)
      | inl f ↦ elim (Option-cases (intersect l.hostname x.hostnames)) [
        | inl g ↦
            subst (Passed i p l) (sym (passes i p l e f ∙ ap (λ o. with_hosts x i o p l) g))
              (apart e f g)
        | inr (hosts, g) ↦
            elim (Option-cases (yield_to_siblings hosts (x.gateway, i) l x.siblings)) [
              | inl h ↦
                  subst (Passed i p l)
                    (sym (
                      passes i p l e f
                      ∙ ap (λ o. with_hosts x i o p l) g
                      ∙ ap (λ o. joined_or_claimed x o p l) h))
                    (left hosts g h)
              | inr (kept, h) ↦
                  subst (Passed i p l)
                    (sym (
                      passes i p l e f
                      ∙ ap (λ o. with_hosts x i o p l) g
                      ∙ ap (λ o. joined_or_claimed x o p l) h))
                    (taken kept
                      (record { named = e; admitted = f; hosts = hosts; shared = g; yielded = h }))
            ]
      ]
    ]
  ]
