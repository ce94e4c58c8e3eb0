-- ===== src/Attachment/Added.antt =====
-- What a route adds to a listener: `ListenerBuild::add_route` of
-- crates/gapura-core/src/translate/listeners.rs, as `attach_to_gateway` of
-- crates/gapura-core/src/translate/routes.rs calls it.
use gapura.Prelude.{
  ℕ, zero, suc, ◌+◌, ◌%◌, ◌^◌, ◌≡◌, ◌↔◌, ◌⊎◌, inl, inr, refl, ap, sym, ◌∙◌, subst, true, false,
  List, [], ◌∷◌, ◌++◌, map, append_assoc, length, length-append, Option, none, some, get_elem?,
  Text, In, In-append, In-map, In-map_sound, arith, Bool-cases, Option-cases, if_true, if_false,
}
use gapura.Config.{RouteMatch, RouteRule, MatchEntry}
use gapura.Listeners.{ListenerBuild, hosts_of, entries_of, programmed, add_route}
use gapura.Attachment.{Compiled, Attaching, with_rules, attached_to}

-- The hostname of an entry: one of those that the route keeps, or any host where it keeps none.
abbrev pub IsHost : List Text → Option Text → Type 0
IsHost [] o = o ≡ none
IsHost (h ∷ hs) o = (k : Text) × In k (h ∷ hs) × (o ≡ some k)

-- An entry for one of the rules that are put behind `base` others, one of its matches and one of
-- the hostnames.
abbrev pub IsEntry : ℕ → List RouteRule → List Text → MatchEntry → Type 0
IsEntry base rules kept e =
    (j : ℕ) × (rule : RouteRule) × (get_elem? rules j ≡ some rule)
    × (e.rule ≡ base + j)
    × In e.matcher rule.matches
    × IsHost kept e.hostname

-- The listener with the rules and an entry for each match of them and each hostname, and no other.
pub record IsGrown (rules : List RouteRule) (kept : List Text) (l l' : ListenerBuild) : Type 0 where
  pub rules_grown : l'.rules ≡ l.rules ++ rules
  pub table_grown :
      (e : MatchEntry) → In e l'.table ↔ (In e l.table ⊎ IsEntry (length l.rules) rules kept e)
  pub rest : l' ≡ record l { rules = l'.rules; table = l'.table }

In-hosts_of : (kept : List Text) (o : Option Text) → In o (hosts_of kept) ↔ IsHost kept o
In-hosts_of [] o = (λ i. elim i [ inl e ↦ e | inr j ↦ absurd j ], λ e. inl e)
In-hosts_of (h ∷ hs) o = (
  λ i. In-map_sound some o (h ∷ hs) i,
  λ x.
      let (k, i, e) = x in subst (λ y. In y (map some (h ∷ hs))) (sym e) (In-map some k (h ∷ hs) i),
)

abbrev entry : ℕ → Option Text → RouteMatch → MatchEntry
entry index host m = record { hostname = host; matcher = m; rule = index }

module _ (index : ℕ) (rule : RouteRule) (e : MatchEntry) where
  abbrev IsEntryOf : List (Option Text) → Type 0
  IsEntryOf hosts = (e.rule ≡ index) × In e.matcher rule.matches × In e.hostname hosts

  In-entries_of :
      (hosts : List (Option Text)) → In e (entries_of index rule hosts) ↔ IsEntryOf hosts
  In-entries_of [] = (λ i. absurd i, λ x. let (a, b, c) = x in c)
  In-entries_of (h ∷ hosts) = (
    λ i. elim ((In-append e (map (entry index h) rule.matches) _).0 i) [
      | inl j ↦
          let (m, k, same) = In-map_sound (entry index h) e rule.matches j in
          (
            ap (λ x. x.rule) same,
            subst (λ x. In x rule.matches) (sym (ap (λ x. x.matcher) same)) k,
            inl (ap (λ x. x.hostname) same),
          )
      | inr j ↦ let (a, b, c) = (In-entries_of hosts).0 j in (a, b, inr c)
    ],
    λ x.
        let (a, b, c) = x in
        elim c [
          | inl same ↦
              let made : entry index h e.matcher ≡ e =
                ap (λ o. entry index o e.matcher) (sym same)
                ∙ ap (λ n. entry n e.hostname e.matcher) (sym a) in
              (In-append e (map (entry index h) rule.matches) _).1 (
                inl (
                  subst (λ y. In y (map (entry index h) rule.matches)) made
                    (In-map (entry index h) e.matcher rule.matches b)))
          | inr j ↦
              (In-append e (map (entry index h) rule.matches) _).1
                (inr ((In-entries_of hosts).1 (a, b, j)))
        ],
  )

IsEntry-cons :
    (base : ℕ) (rule : RouteRule) (rules : List RouteRule) (kept : List Text) (e : MatchEntry)
    → IsEntry base (rule ∷ rules) kept e ↔ (
        ((e.rule ≡ base) × In e.matcher rule.matches × IsHost kept e.hostname)
        ⊎ IsEntry (suc base) rules kept e)
IsEntry-cons base rule rules kept e = (
  cons_sound,
  λ h. elim h [
    | inl (a, b, c) ↦ (0, rule, refl, ground (arith, a), b, c)
    | inr (j, r, f, a, b, c) ↦ (suc j, r, f, ground (arith, a), b, c)
  ],
)
  where
    cons_sound :
        IsEntry base (rule ∷ rules) kept e
        → ((e.rule ≡ base) × In e.matcher rule.matches × IsHost kept e.hostname)
          ⊎ IsEntry (suc base) rules kept e
    cons_sound (zero, r, f, a, b, c) =
        let same : rule ≡ r = ground (arith, f) in
        inl (ground (arith, a), subst (λ x. In e.matcher x.matches) (sym same) b, c)
    cons_sound (suc j, r, f, a, b, c) = inr (j, r, f, ground (arith, a), b, c)

-- The listener with one more rule.
abbrev with_rule : RouteRule → List Text → ListenerBuild → ListenerBuild
with_rule rule kept l = record l {
  rules = l.rules ++ rule ∷ [];
  table = l.table ++ entries_of (length l.rules) rule (hosts_of kept);
}

module _ (rule : RouteRule) (rules : List RouteRule) (kept : List Text) (l : ListenerBuild)
    (e : MatchEntry) where
  longer : length (l.rules ++ rule ∷ []) ≡ suc (length l.rules)
  longer = ground (arith, length-append l.rules (rule ∷ []))

  table_grows_sound :
      In e (with_rule rule kept l).table ⊎ IsEntry (length (l.rules ++ rule ∷ [])) rules kept e
      → In e l.table ⊎ IsEntry (length l.rules) (rule ∷ rules) kept e
  table_grows_sound (inl i) = elim ((In-append e l.table _).0 i) [
    | inl j ↦ inl j
    | inr j ↦
        let (a, b, c) = (In-entries_of (length l.rules) rule e (hosts_of kept)).0 j in
        inr (
          (IsEntry-cons (length l.rules) rule rules kept e).1
            (inl (a, b, (In-hosts_of kept e.hostname).0 c)))
  ]
  table_grows_sound (inr x) = inr (
      (IsEntry-cons (length l.rules) rule rules kept e).1
        (inr (subst (λ n. IsEntry n rules kept e) longer x)))

  table_grows_complete :
      In e l.table ⊎ IsEntry (length l.rules) (rule ∷ rules) kept e
      → In e (with_rule rule kept l).table ⊎ IsEntry (length (l.rules ++ rule ∷ [])) rules kept e
  table_grows_complete (inl i) = inl ((In-append e l.table _).1 (inl i))
  table_grows_complete (inr x) = elim ((IsEntry-cons (length l.rules) rule rules kept e).0 x) [
    | inl (a, b, c) ↦ inl (
        (In-append e l.table _).1 (
          inr (
            (In-entries_of (length l.rules) rule e (hosts_of kept)).1
              (a, b, (In-hosts_of kept e.hostname).1 c))))
    | inr y ↦ inr (subst (λ n. IsEntry n rules kept e) (sym longer) y)
  ]

append_nil : (rules : List RouteRule) → rules ++ [] ≡ rules
append_nil [] = refl
append_nil (r ∷ rules) = ap (λ rs. r ∷ rs) (append_nil rules)

add_route-IsGrown :
    (rules : List RouteRule) (kept : List Text) (l : ListenerBuild)
    → IsGrown rules kept l (add_route rules kept l)
unfolding add_route
add_route-IsGrown [] kept l = record {
  rules_grown = sym (append_nil l.rules);
  table_grown = λ e.
      (λ i. inl i, λ h. elim h [ inl i ↦ i | inr (j, r, f, _, _, _) ↦ absurd (ground (arith, f)) ]);
  rest = refl;
}
add_route-IsGrown (rule ∷ rules) kept l =
    let g = add_route-IsGrown rules kept (with_rule rule kept l) in
    record {
      rules_grown = g.rules_grown ∙ append_assoc l.rules (rule ∷ []) rules;
      table_grown = λ e. (
        λ i. table_grows_sound rule rules kept l e ((g.table_grown e).0 i),
        λ h. (g.table_grown e).1 (table_grows_complete rule rules kept l e h),
      );
      rest = g.rest;
    }

-- The routes that a listener has once one is added: those of the rules where the route was
-- compiled and the listener is programmed, and otherwise those that it had.
abbrev pub HasRoutes : Attaching → List Text → ListenerBuild → ListenerBuild → Type 0
HasRoutes x kept l l' =
    ((c : Compiled) × (x.compiled ≡ some c)
      × (programmed l ≡ true)
      × (l'.rules ≡ l.rules ++ c.rules)
      × ((e : MatchEntry)
          → In e l'.table ↔ (In e l.table ⊎ IsEntry (length l.rules) c.rules kept e)))
    ⊎ (((x.compiled ≡ none) ⊎ (programmed l ≡ false)) × (l'.rules ≡ l.rules) × (l'.table ≡ l.table))

-- The listener with the route: counted once more, and otherwise as it was but for the route's
-- rules and entries.
pub record IsAdded (x : Attaching) (kept : List Text) (l l' : ListenerBuild) : Type 0 where
  pub counted : l'.attached_routes ≡ (l.attached_routes + 1) % 2 ^ 32
  pub routed : HasRoutes x kept l l'
  pub same :
      l' ≡ record l { attached_routes = l'.attached_routes; rules = l'.rules; table = l'.table }

abbrev counted_once : ListenerBuild → ListenerBuild
counted_once l = record l { attached_routes = (l.attached_routes + 1) % 2 ^ 32 }

programmed_counted : (l : ListenerBuild) → programmed (counted_once l) ≡ programmed l
unfolding programmed gapura.Listeners.serves
programmed_counted l = refl

unserved-IsAdded :
    (x : Attaching) (kept : List Text) (l : ListenerBuild)
    → (x.compiled ≡ none) ⊎ (programmed l ≡ false)
    → IsAdded x kept l (counted_once l)
unserved-IsAdded x kept l h = record { counted = refl; routed = inr (h, refl, refl); same = refl }

pub attached_to-IsAdded :
    (x : Attaching) (kept : List Text) (l : ListenerBuild) → IsAdded x kept l (attached_to x kept l)
unfolding attached_to
attached_to-IsAdded x kept l = elim (Option-cases x.compiled) [
  | inl e ↦
      subst (λ o. IsAdded x kept l (with_rules o kept (counted_once l))) (sym e)
        (unserved-IsAdded x kept l (inl e))
  | inr (c, e) ↦
      subst (λ o. IsAdded x kept l (with_rules o kept (counted_once l))) (sym e)
        (elim (Bool-cases (programmed l)) [
          | inr f ↦
              subst (IsAdded x kept l) (sym (if_false _ _ (programmed_counted l ∙ f)))
                (unserved-IsAdded x kept l (inr f))
          | inl f ↦
              let g = add_route-IsGrown c.rules kept (counted_once l) in
              subst (IsAdded x kept l) (sym (if_true _ _ (programmed_counted l ∙ f))) (record {
                counted = ap (λ b. b.attached_routes) g.rest;
                routed = inl (c, e, f, g.rules_grown, g.table_grown);
                same =
                    g.rest
                    ∙ ap
                        (λ n. record l {
                          attached_routes = n;
                          rules = (add_route c.rules kept (counted_once l)).rules;
                          table = (add_route c.rules kept (counted_once l)).table;
                        })
                        (sym (ap (λ b. b.attached_routes) g.rest));
              })
        ])
]
