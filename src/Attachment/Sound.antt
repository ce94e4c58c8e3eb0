-- ===== src/Attachment/Sound.antt =====
-- That attachment keeps listeners in order: `attach_to_gateway` of
-- crates/gapura-core/src/translate/routes.rs.
use gapura.Prelude.{
  ℕ, suc, inl, inr, sym, subst, ◌+◌, ◌%◌, ◌^◌, List, [], ◌∷◌, Option, none, some, Text, All,
  Bool-cases, if_true, if_false,
}
use gapura.Listeners.{ListenerBuild, programmed}
use gapura.Listeners.Sound.{IsSound, add_route-IsSound}
use gapura.Snapshot.{among}
use gapura.Attachment.{
  Compiled, Attaching, Progress, no_outcome, with_rules, attached_to, key_of, join, count,
  attach_listener, attach_from, attach_to_gateway,
}
use gapura.Attachment.Attached.{Passed, other, refused, apart, left, taken, attach_listener-Passed}

with_rules-IsSound :
    (compiled : Option Compiled) (hosts : List Text) (l : ListenerBuild)
    → IsSound l
    → IsSound (with_rules compiled hosts l)
with_rules-IsSound none hosts l s = s
with_rules-IsSound (some c) hosts l s = elim (Bool-cases (programmed l)) [
  | inl e ↦ subst IsSound (sym (if_true _ _ e)) (add_route-IsSound c.rules hosts l s)
  | inr e ↦ subst IsSound (sym (if_false _ _ e)) s
]

attached_to-IsSound :
    (x : Attaching) (hosts : List Text) (l : ListenerBuild)
    → IsSound l
    → IsSound (attached_to x hosts l)
unfolding attached_to
attached_to-IsSound x hosts l s =
    with_rules-IsSound x.compiled hosts
      (record l { attached_routes = (l.attached_routes + 1) % 2 ^ 32 })
      (record { indexed = s.indexed; served = s.served })

join-IsSound :
    (x : Attaching) (hosts : List Text) (p : Progress) (l : ListenerBuild)
    → IsSound l
    → IsSound (join x hosts p l).1
join-IsSound x hosts p l s = elim (Bool-cases (among (key_of x l) p.attached)) [
  | inl e ↦ rw e s
  | inr e ↦ rw e (attached_to-IsSound x hosts l s)
]

Passed-IsSound :
    (x : Attaching) (i : ℕ) (p : Progress) (l : ListenerBuild) {r : Progress × ListenerBuild}
    → Passed x i p l r
    → IsSound l
    → IsSound r.1
Passed-IsSound x i p l (other e) s = s
Passed-IsSound x i p l (refused e f) s = s
Passed-IsSound x i p l (apart e f g) s = s
Passed-IsSound x i p l (left hosts g h) s = s
Passed-IsSound x i p l (taken kept t) s = join-IsSound x kept (count p 1 1 1 0) l s

attach_from-IsSound :
    (x : Attaching) (i : ℕ) (p : Progress) (ls : List ListenerBuild)
    → All IsSound ls
    → All IsSound (attach_from x i p ls).1
unfolding attach_from
attach_from-IsSound x i p [] s = tt
attach_from-IsSound x i p (l ∷ ls) s = (
  Passed-IsSound x i p l (attach_listener-Passed x i p l) s.0,
  attach_from-IsSound x (suc i) (attach_listener x i p l).0 ls s.1,
)

pub attach_to_gateway-IsSound :
    (x : Attaching) (attached : List Text) (listeners : List ListenerBuild)
    → All IsSound listeners
    → All IsSound (attach_to_gateway x attached listeners).1
unfolding attach_to_gateway
attach_to_gateway-IsSound x attached listeners s =
    attach_from-IsSound x 0 (record { outcome = no_outcome; attached = attached }) listeners s
