-- ===== src/Listeners/Sound.antt =====
-- What holds of every listener that the translation builds, so that `assemble` does not panic:
-- crates/gapura-core/src/translate/listeners.rs.
use gapura.Prelude.{
  ℕ, zero, suc, ◌≡◌, inl, inr, refl, ap, sym, ◌∙◌, subst, true, not, ◌&&◌, List, [], ◌∷◌, ◌++◌, map,
  length, Option, none, some, get_elem?, In, All, In-append, In-map_sound, All-intro, All-In, arith,
  Text, Bool-cases, if_true, if_false, Result, ok,
}
use gapura.Config.{Protocol, TlsBundle, RouteRule, MatchEntry}
use gapura.Snapshot.{ObjectRef, Listener, Snapshot, Settings}
use gapura.Listeners.{
  Rejection, ListenerBuild, is_ok, hosts_of, entries_of, add_route, protocol_of, is_https,
  passthrough,
}
use gapura.Listeners.Building.{build_listener, with_tls, detect_conflicts}
use gapura.Listeners.Conflicts.{IsMarked, detect_conflicts-AreCompatible}
use gapura.Listeners.Served.{accept_listener-ok, some_of, In-AllMarked}

abbrev pub HasRule : List RouteRule → MatchEntry → Type 0
HasRule rules e = (rule : RouteRule) × (get_elem? rules e.rule ≡ some rule)

-- Its entries point to its rules, and it is accepted only with a protocol that is served.
pub record IsSound (l : ListenerBuild) : Type 0 where
  pub indexed : All (HasRule l.rules) l.table
  pub served : is_ok l.accepted ≡ true → (p : Protocol) × (l.protocol ≡ some p)

get_elem?-append :
    (xs ys : List RouteRule) (i : ℕ) (r : RouteRule)
    → get_elem? xs i ≡ some r
    → get_elem? (xs ++ ys) i ≡ some r
get_elem?-append [] ys i r h = absurd (ground (arith, h))
get_elem?-append (x ∷ xs) ys zero r h = h
get_elem?-append (x ∷ xs) ys (suc i) r h = get_elem?-append xs ys i r h

get_elem?-length :
    (xs ys : List RouteRule) (r : RouteRule) → get_elem? (xs ++ r ∷ ys) (length xs) ≡ some r
get_elem?-length [] ys r = refl
get_elem?-length (x ∷ xs) ys r = get_elem?-length xs ys r

entries_of-rule :
    (index : ℕ) (rule : RouteRule) (hosts : List (Option Text)) (e : MatchEntry)
    → In e (entries_of index rule hosts)
    → e.rule ≡ index
entries_of-rule index rule [] e i = absurd i
entries_of-rule index rule (h ∷ hosts) e i =
    elim ((In-append e (map (λ m. record { hostname = h; matcher = m; rule = index }) rule.matches)
        _).0
      i) [
        | inl j ↦ let (m, k, same) = In-map_sound _ e rule.matches j in ap (λ x. x.rule) same
        | inr j ↦ entries_of-rule index rule hosts e j
      ]

-- The listener with one more rule.
abbrev with_rule : RouteRule → List Text → ListenerBuild → ListenerBuild
with_rule rule hostnames l = record l {
  rules = l.rules ++ rule ∷ [];
  table = l.table ++ entries_of (length l.rules) rule (hosts_of hostnames);
}

with_rule_indexed :
    (rule : RouteRule) (hostnames : List Text) (l : ListenerBuild)
    → All (HasRule l.rules) l.table
    → (e : MatchEntry) → In e (l.table ++ entries_of (length l.rules) rule (hosts_of hostnames))
    → HasRule (l.rules ++ rule ∷ []) e
with_rule_indexed rule hostnames l h e i = elim ((In-append e l.table _).0 i) [
  | inl j ↦
      let (r, p) = All-In (HasRule l.rules) e l.table h j in
      (r, get_elem?-append l.rules (rule ∷ []) e.rule r p)
  | inr j ↦
      let same = entries_of-rule (length l.rules) rule (hosts_of hostnames) e j in
      (rule, ap (get_elem? (l.rules ++ rule ∷ [])) same ∙ get_elem?-length l.rules [] rule)
]

with_rule-IsSound :
    (rule : RouteRule) (hostnames : List Text) (l : ListenerBuild)
    → IsSound l
    → IsSound (with_rule rule hostnames l)
with_rule-IsSound rule hostnames l s = record {
  indexed = All-intro _ _ (with_rule_indexed rule hostnames l s.indexed);
  served = s.served;
}

pub add_route-IsSound :
    (rules : List RouteRule) (hostnames : List Text) (l : ListenerBuild)
    → IsSound l
    → IsSound (add_route rules hostnames l)
unfolding add_route
add_route-IsSound [] hostnames l s = s
add_route-IsSound (rule ∷ rules) hostnames l s =
    add_route-IsSound rules hostnames (with_rule rule hostnames l)
      (with_rule-IsSound rule hostnames l s)

pub IsMarked-IsSound : (a b : ListenerBuild) → IsMarked a b → IsSound a → IsSound b
IsMarked-IsSound a b m s =
    subst IsSound (sym m.same) (record { indexed = s.indexed; served = s.served })

module _ (decode : Text → Option Text) (from_utf8 : Text → Option Text) where
  with_tls-IsSound :
      (l : Listener) (settings : Settings) (tls : Option TlsBundle) (error : Result Rejection Unit)
      → IsSound (with_tls l settings tls error)
  with_tls-IsSound l settings tls error = record {
    indexed = tt;
    served = λ h. some_of (protocol_of l.protocol) (accept_listener-ok l settings h).0;
  }

  pub build_listener-IsSound :
      (l : Listener) (gw_ref : ObjectRef) (snap : Snapshot) (settings : Settings)
      → IsSound (build_listener decode from_utf8 l gw_ref snap settings)
  unfolding build_listener
  build_listener-IsSound l gw_ref snap settings =
      elim (Bool-cases (is_https (protocol_of l.protocol) && not (passthrough l))) [
        | inl e ↦ subst IsSound (sym (if_true _ _ e)) (with_tls-IsSound l settings _ _)
        | inr e ↦ subst IsSound (sym (if_false _ _ e)) (with_tls-IsSound l settings none (ok tt))
      ]

  -- Every listener of a Gateway as it is built.
  pub detect_conflicts-IsSound :
      (gw_ref : ObjectRef) (snap : Snapshot) (settings : Settings) (listeners : List Listener)
      → All IsSound (
          detect_conflicts
            (map (λ l. build_listener decode from_utf8 l gw_ref snap settings) listeners))
  detect_conflicts-IsSound gw_ref snap settings listeners =
      let builds = map (λ l. build_listener decode from_utf8 l gw_ref snap settings) listeners in
      All-intro IsSound (detect_conflicts builds) (λ b i.
        let (a, j, m) = In-AllMarked builds _ b (detect_conflicts-AreCompatible builds).0 i in
        let (l, k, e) =
          In-map_sound (λ l. build_listener decode from_utf8 l gw_ref snap settings) a listeners
            j in
        IsMarked-IsSound a b m
          (subst IsSound (sym e) (build_listener-IsSound l gw_ref snap settings)))
