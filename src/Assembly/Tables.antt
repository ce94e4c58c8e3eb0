-- ===== src/Assembly/Tables.antt =====
-- The tables of the ports: the end of `assemble` of crates/gapura-core/src/translate/mod.rs.
use gapura.Prelude.{
  ℕ, suc, ◌==◌, ◌≡◌, ◌↔◌, ◌⊎◌, inl, inr, ap, sym, ◌∙◌, subst, List, [], ◌∷◌, ◌++◌, map, In,
  In-append, ==_iff, Bool-cases, if_true, if_false, ltb,
}
use gapura.Config.{MatchEntry, PortEntry, ListenerConfig}
use gapura.Assembly.{entry_of, push_entries, push_tables}

-- The entry stands in the table of the port.
abbrev pub IsIn : ℕ → PortEntry → List (ℕ × List PortEntry) → Type 0
IsIn p e ports = (es : List PortEntry) × In (p, es) ports × In e es

pub IsIn-cons :
    (p q : ℕ) (e : PortEntry) (es : List PortEntry) (ports : List (ℕ × List PortEntry))
    → IsIn p e ((q, es) ∷ ports) ↔ (((p ≡ q) × In e es) ⊎ IsIn p e ports)
IsIn-cons p q e es ports = (
  λ h.
      let (fs, i, j) = h in
      elim i [
        | inl same ↦ inl (ap (λ x. x.0) same, subst (In e) (ap (λ x. x.1) same) j)
        | inr later ↦ inr (fs, later, j)
      ],
  λ h. elim h [
    | inl (same, j) ↦ (es, inl (ap (λ x. (x, es)) same), j)
    | inr (fs, i, j) ↦ (fs, inr i, j)
  ],
)

push_entries-IsIn :
    (p port : ℕ) (e : PortEntry) (entries : List PortEntry) (ports : List (ℕ × List PortEntry))
    → IsIn p e (push_entries port entries ports) ↔ (((p ≡ port) × In e entries) ⊎ IsIn p e ports)
unfolding push_entries
push_entries-IsIn p port e entries [] = IsIn-cons p port e entries []
push_entries-IsIn p port e entries ((q, bucket) ∷ ports) = elim (Bool-cases (port == q)) [
  | inl h ↦ rw (if_true _ _ h) (
      let same = (==_iff port q).0 h in
      let out = IsIn-cons p q e (bucket ++ entries) ports in
      let old = IsIn-cons p q e bucket ports in
      (
        λ x. elim (out.0 x) [
          | inl (a, i) ↦ elim ((In-append e bucket entries).0 i) [
            | inl j ↦ inr (old.1 (inl (a, j)))
            | inr j ↦ inl (a ∙ sym same, j)
          ]
          | inr y ↦ inr (old.1 (inr y))
        ],
        λ x. elim x [
          | inl (a, i) ↦ out.1 (inl (a ∙ same, (In-append e bucket entries).1 (inr i)))
          | inr y ↦ elim (old.0 y) [
            | inl (a, i) ↦ out.1 (inl (a, (In-append e bucket entries).1 (inl i)))
            | inr z ↦ out.1 (inr z)
          ]
        ],
      ))
  | inr h ↦ elim (Bool-cases (ltb port q)) [
    | inl g ↦ rw (if_false _ _ h, if_true _ _ g) (IsIn-cons p port e entries ((q, bucket) ∷ ports))
    | inr g ↦
        rw (if_false _ _ h, if_false _ _ g)
          (let rest = push_entries-IsIn p port e entries ports in
            let out = IsIn-cons p q e bucket (push_entries port entries ports) in
            let old = IsIn-cons p q e bucket ports in
            (
              λ x. elim (out.0 x) [
                | inl y ↦ inr (old.1 (inl y))
                | inr y ↦ elim (rest.0 y) [ inl z ↦ inl z | inr z ↦ inr (old.1 (inr z)) ]
              ],
              λ x. elim x [
                | inl y ↦ out.1 (inr (rest.1 (inl y)))
                | inr y ↦ elim (old.0 y) [
                  | inl z ↦ out.1 (inl z)
                  | inr z ↦ out.1 (inr (rest.1 (inr z)))
                ]
              ],
            ))
  ]
]

-- The entry is one of the table of a listener on the port, under the listener's index.
abbrev pub IsOf : ℕ → List ListenerConfig → List (List MatchEntry) → ℕ → PortEntry → Type 0
IsOf index [] ts p e = ⊥
IsOf index (l ∷ ls) [] p e = ⊥
IsOf index (l ∷ ls) (t ∷ ts) p e =
    ((p ≡ l.port) × In e (map (entry_of index) t)) ⊎ IsOf (suc index) ls ts p e

pub push_tables-IsIn :
    (index : ℕ) (ls : List ListenerConfig) (ts : List (List MatchEntry))
    (ports : List (ℕ × List PortEntry)) (p : ℕ) (e : PortEntry)
    → IsIn p e (push_tables index ls ts ports) ↔ (IsIn p e ports ⊎ IsOf index ls ts p e)
unfolding push_tables
push_tables-IsIn index [] ts ports p e = (λ h. inl h, λ h. elim h [ inl x ↦ x | inr x ↦ absurd x ])
push_tables-IsIn index (l ∷ ls) [] ports p e =
    (λ h. inl h, λ h. elim h [ inl x ↦ x | inr x ↦ absurd x ])
push_tables-IsIn index (l ∷ ls) (t ∷ ts) ports p e =
    let rest =
      push_tables-IsIn (suc index) ls ts (push_entries l.port (map (entry_of index) t) ports) p e in
    let here = push_entries-IsIn p l.port e (map (entry_of index) t) ports in
    (
      λ h. elim (rest.0 h) [
        | inl x ↦ elim (here.0 x) [ inl y ↦ inr (inl y) | inr y ↦ inl y ]
        | inr x ↦ inr (inr x)
      ],
      λ h. elim h [
        | inl x ↦ rest.1 (inl (here.1 (inr x)))
        | inr x ↦ elim x [ inl y ↦ rest.1 (inl (here.1 (inl y))) | inr y ↦ rest.1 (inr y) ]
      ],
    )
