-- ===== src/Grants/Requests.antt =====
-- What a request for changes of roles asks for: `parse_role_changes` of
-- crates/gapura-control/src/grants.rs.
use gapura.Prelude.{
  subst, if_true, if_false, ℕ, ◌<◌, ◌≡◌, ◌↔◌, ◌⊎◌, inl, inr, refl, ap, sym, ◌∙◌, List, [], ◌∷◌,
  Option, none, some, In, All, All-weaken, arith, Bool-cases, Text, Option-cases, ==_iff, ◌==◌, ltb,
  Result, ok, went_through, if◌then◌else◌,
}
use gapura.Access.{Role}
use gapura.Grants.{Refusal, held_at}
use gapura.Grants.Changes.{IsMap}
use gapura.Grants.Bodies.{
  Value, insert_at, workspace_id, role_asked_by, insert_new, entry_of, changes_from,
  parse_role_changes,
}

module _ {A : Type 0} (id : ℕ) (v : A) where
  insert_at-All :
      (k : ℕ) (m : List (ℕ × A))
      → k < id
      → All (λ y. k < y.0) m
      → All (λ y. k < y.0) (insert_at id v m)
  unfolding insert_at
  insert_at-All k [] h a = (h, tt)
  insert_at-All k ((l, w) ∷ m) h a = elim (Bool-cases (ltb id l)) [
    | inl e ↦ rw e (h, a)
    | inr e ↦ elim (Bool-cases (id == l)) [
      | inl f ↦ rw e (rw f (h, a.1))
      | inr f ↦ rw e (rw f (a.0, insert_at-All k m h a.1))
    ]
  ]

  insert_at-IsMap : (m : List (ℕ × A)) → IsMap m → IsMap (insert_at id v m)
  unfolding insert_at
  insert_at-IsMap [] is = (tt, tt)
  insert_at-IsMap ((l, w) ∷ m) is = elim (Bool-cases (ltb id l)) [
    | inl e ↦
        let below : id < l = ground arith in
        rw e ((below, All-weaken _ _ m (λ y h. omega (arith, below, h)) is.0), is)
    | inr e ↦ elim (Bool-cases (id == l)) [
      | inl f ↦
          let same : l ≡ id = sym ((==_iff id l).0 f) in
          rw e (rw f (All-weaken _ _ m (λ y h. omega (arith, same, h)) is.0, is.1))
      | inr f ↦ rw e (rw f (insert_at-All l m (ground arith) is.0, insert_at-IsMap m is.1))
    ]
  ]

  held_at-insert_at :
      (other : ℕ) (m : List (ℕ × A))
      → held_at other (insert_at id v m) ≡ (if id == other then some v else held_at other m)
  unfolding insert_at held_at
  held_at-insert_at other [] = refl
  held_at-insert_at other ((l, w) ∷ m) = elim (Bool-cases (ltb id l)) [
    | inl e ↦ rw e refl
    | inr e ↦ elim (Bool-cases (id == l)) [
      | inl f ↦ rw e (rw f (ground arith))
      | inr f ↦ rw e (rw f (ground (arith, held_at-insert_at other m)))
    ]
  ]

ok_injective : {A : Type 0} {a b : A} → ◌≡◌ {A = Result Refusal A} (ok a) (ok b) → a ≡ b
ok_injective h = ground arith

module _ (parse_id : Text → Option ℕ) (show_id : ℕ → Text) (debug : Text → Text) where
  -- An entry gives the role to the workspace.
  abbrev Names : Text × Value → ℕ → Option Role → Type 0
  Names e id r =
      (workspace_id parse_id show_id debug e.0 ≡ ok id)
      × (role_asked_by parse_id show_id debug id e.1 ≡ ok r)

  -- Some entry of the object does.
  abbrev pub Asks : List (Text × Value) → ℕ → Option Role → Type 0
  Asks object id r = (e : Text × Value) × In e object × Names e id r

  insert_new-ok :
      (old new : List (ℕ × Option Role)) (id : ℕ) (r : Option Role)
      → insert_new parse_id show_id debug old id r ≡ ok new
      → (held_at id old ≡ none) × (insert_at id r old ≡ new)
  unfolding insert_new
  insert_new-ok old new id r h = elim (Option-cases (held_at id old)) [
    | inl e ↦ (e, let h' = rw (e, insert_new) at h in ground (arith, h'))
    | inr (x, e) ↦ absurd (ground (arith, rw (e, insert_new) at h))
  ]

  -- What one entry does to the map.
  record IsEntered (old new : List (ℕ × Option Role)) (e : Text × Value) : Type 0 where
    pub id : ℕ
    pub role : Option Role
    pub names : Names e id role
    pub new_id : held_at id old ≡ none
    pub inserted : insert_at id role old ≡ new

  entry_of-IsEntered :
      (old new : List (ℕ × Option Role)) (e : Text × Value)
      → entry_of parse_id show_id debug old e ≡ ok new
      → IsEntered old new e
  unfolding entry_of
  entry_of-IsEntered old new (key, value) h =
      let (id, p, h₁) = went_through (workspace_id parse_id show_id debug key) _ h in
      let (role, q, h₂) = went_through (role_asked_by parse_id show_id debug id value) _ h₁ in
      let (fresh, same) = insert_new-ok old new id role h₂ in
      record { id = id; role = role; names = (p, q); new_id = fresh; inserted = same }

  -- A map that says what the old one and the entries say.
  record IsRead (old : List (ℕ × Option Role)) (object : List (Text × Value))
      (new : List (ℕ × Option Role)) : Type 0 where
    pub map : IsMap new
    pub says :
        (id : ℕ) (r : Option Role)
        → (held_at id new ≡ some r) ↔ ((held_at id old ≡ some r) ⊎ Asks object id r)

  one_entry :
      (old new : List (ℕ × Option Role)) (e : Text × Value)
      → IsEntered old new e
      → (id : ℕ) (r : Option Role)
      → (held_at id new ≡ some r) ↔ ((held_at id old ≡ some r) ⊎ Names e id r)
  one_entry old new e x id r =
      let now : held_at id new ≡ (if x.id == id then some x.role else held_at id old) =
        rw (← x.inserted) (held_at-insert_at x.id x.role id old) in
      elim (Bool-cases (x.id == id)) [
        | inl here ↦
            let same = (==_iff x.id id).0 here in
            let now' : held_at id new ≡ some x.role = now ∙ if_true _ _ here in
            (
              λ h.
                  let role : x.role ≡ r = ground (arith, now', h) in
                  inr (subst (λ i. Names e i r) same (subst (Names e x.id) role x.names)),
              λ j. elim j [
                | inl old_role ↦ absurd (
                    ground
                      (arith, x.new_id, subst (λ i. held_at i old ≡ some r) (sym same) old_role))
                | inr (p, q) ↦
                    let q' =
                      subst (λ i. role_asked_by parse_id show_id debug i e.1 ≡ ok r) (sym same) q in
                    now' ∙ ap some (ok_injective (sym x.names.1 ∙ q'))
              ],
            )
        | inr apart ↦
            let now' : held_at id new ≡ held_at id old = now ∙ if_false _ _ apart in
            (
              λ h. inl (sym now' ∙ h),
              λ j. elim j [
                | inl old_role ↦ now' ∙ old_role
                | inr (p, q) ↦
                    let same : x.id ≡ id = ok_injective (sym x.names.0 ∙ p) in
                    absurd (ground (arith, apart, (==_iff x.id id).1 same))
              ],
            )
      ]

  changes_from-IsRead :
      (old new : List (ℕ × Option Role)) (object : List (Text × Value))
      → IsMap old
      → changes_from parse_id show_id debug old object ≡ ok new
      → IsRead old object new
  unfolding changes_from
  changes_from-IsRead old new [] is h = rw (← ok_injective h) (record {
    map = is;
    says = λ id r. (λ p. inl p, λ j. elim j [ inl p ↦ p | inr x ↦ absurd x.1 ]);
  })
  changes_from-IsRead old new (e ∷ object) is h =
      let (added, first, h') = went_through (entry_of parse_id show_id debug old e) _ h in
      let x = entry_of-IsEntered old added e first in
      let rest =
        changes_from-IsRead added new object
          (subst IsMap x.inserted (insert_at-IsMap x.id x.role old is)) h' in
      record {
        map = rest.map;
        says = λ id r. (
          λ p. elim ((rest.says id r).0 p) [
            | inl q ↦ elim ((one_entry old added e x id r).0 q) [
              | inl q' ↦ inl q'
              | inr n ↦ inr (e, inl refl, n)
            ]
            | inr (f, i, n) ↦ inr (f, inr i, n)
          ],
          λ j. (rest.says id r).1 (elim j [
            | inl q ↦ inl ((one_entry old added e x id r).1 (inl q))
            | inr (f, inl same, n) ↦
                inl ((one_entry old added e x id r).1 (inr (subst (λ f. Names f id r) same n)))
            | inr (f, inr i, n) ↦ inr (f, i, n)
          ]),
        );
      }

  -- A request that is accepted is read as a map in rising order of ids, which gives a role, or
  -- none, to a workspace just where an entry of the object does.
  pub parse_role_changes-IsRead :
      (object : List (Text × Value)) (changes : List (ℕ × Option Role))
      → parse_role_changes parse_id show_id debug (some object) ≡ ok changes
      → IsMap changes
        × ((id : ℕ) (r : Option Role) → (held_at id changes ≡ some r) ↔ Asks object id r)
  unfolding parse_role_changes held_at
  parse_role_changes-IsRead object changes h =
      let read = changes_from-IsRead [] changes object tt h in
      (
        read.map,
        λ id r. (
          λ p. elim ((read.says id r).0 p) [ inl q ↦ absurd (ground arith) | inr x ↦ x ],
          λ x. (read.says id r).1 (inr x),
        ),
      )
