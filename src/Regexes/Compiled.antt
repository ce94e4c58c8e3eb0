-- ===== src/Regexes/Compiled.antt =====
-- What the map of compiled expressions holds: `compile_regexes` of
-- crates/gapura-core/src/matcher.rs.
use gapura.Prelude.{
  ℕ, ◌≡◌, ◌⊎◌, inl, inr, refl, sym, ◌∙◌, ap, Bool, true, false, ◌||◌, Option, none, some, List, [],
  ◌∷◌, ◌++◌, arith, if◌then◌else◌, Bool-cases, Option-cases, any, In, Text, text_eq, text_eq_iff,
  text_eq_refl,
}
use gapura.Config.{lookup, Config, PortEntry, PathMatch, exact, prefix, regex}
use gapura.Matcher.{RegexMap}
use gapura.Regexes.{
  is_found, has_pattern, is_skipped, add_pattern, compile_path, compile_entries, compile_ports,
  compile_regexes,
}

abbrev State : Type 0
State = RegexMap × List Text

any-snoc : (p : Text → Bool) (xs : List Text) (y : Text) → any p (xs ++ y ∷ []) ≡ (any p xs || p y)
any-snoc p [] y = ground arith
any-snoc p (x ∷ xs) y = ground (arith, any-snoc p xs y)

lookup-cons :
    (p q : Text) (re : Text → Bool) (out : RegexMap)
    → lookup p ((q, re) ∷ out) ≡ (if text_eq q p then some re else lookup p out)
unfolding lookup
lookup-cons p q re out = refl

has_pattern-cons :
    (q p : Text) (re : Text → Bool) (out : RegexMap)
    → has_pattern q ((p, re) ∷ out) ≡ (text_eq p q || has_pattern q out)
has_pattern-cons q p re out =
    ap is_found (lookup-cons q p re out) ∙ either (text_eq p q) (lookup q out)
  where
    either :
        (b : Bool) (o : Option (Text → Bool))
        → is_found (if b then some re else o) ≡ (b || is_found o)
    either true o = refl
    either false o = refl

module _ (compile : Text → Option (Text → Bool)) where
  -- What is in the map compiles to what it is mapped to, and what was skipped does not compile.
  record IsSound (s : State) : Type 0 where
    mapped : (p : Text) (re : Text → Bool) → lookup p s.0 ≡ some re → compile p ≡ some re
    skipped : (p : Text) → is_skipped p s.1 ≡ true → compile p ≡ none

  abbrev seen : Text → State → Bool
  seen p s = has_pattern p s.0 || is_skipped p s.1

  seen→lookup : (p : Text) (s : State) → IsSound s → seen p s ≡ true → lookup p s.0 ≡ compile p
  seen→lookup p s i h = elim (Option-cases (lookup p s.0)) [
    | inr (re, e) ↦ e ∙ sym (i.mapped p re e)
    | inl n ↦
        let listed : is_skipped p s.1 ≡ true = ground (arith, n, h) in n ∙ sym (i.skipped p listed)
  ]

  -- The three ways of one step.
  data Added (p : Text) (out : RegexMap) (skipped : List Text) : State → Type 0 where
    known : seen p (out, skipped) ≡ true → Added p out skipped (out, skipped)
    compiled :
        (re : Text → Bool) → compile p ≡ some re → Added p out skipped ((p, re) ∷ out, skipped)
    failed : compile p ≡ none → Added p out skipped (out, skipped ++ p ∷ [])

  add_pattern-Added :
      (p : Text) (out : RegexMap) (skipped : List Text)
      → Added p out skipped (add_pattern compile p (out, skipped))
  unfolding add_pattern
  add_pattern-Added p out skipped = elim (Bool-cases (seen p (out, skipped))) [
    | inl e ↦ rw e (known e)
    | inr n ↦ elim (Option-cases (compile p)) [
      | inr (re, e) ↦ rw n (rw e (compiled re e))
      | inl e ↦ rw n (rw e (failed e))
    ]
  ]

  compiled-IsSound :
      (p : Text) (re : Text → Bool) (out : RegexMap) (skipped : List Text)
      → compile p ≡ some re
      → IsSound (out, skipped)
      → IsSound ((p, re) ∷ out, skipped)
  compiled-IsSound p re out skipped e i = record {
    mapped = λ q r h. elim (Bool-cases (text_eq p q)) [
      | inl t ↦
          let same : p ≡ q = (text_eq_iff p q).0 t in
          let found : some re ≡ some r = rw (lookup-cons q p re out, t) at h in
          rw (← same) (e ∙ found)
      | inr f ↦ i.mapped q r (rw (lookup-cons q p re out, f) at h)
    ];
    skipped = i.skipped;
  }

  failed-IsSound :
      (p : Text) (out : RegexMap) (skipped : List Text)
      → compile p ≡ none
      → IsSound (out, skipped)
      → IsSound (out, skipped ++ p ∷ [])
  failed-IsSound p out skipped e i = record {
    mapped = i.mapped;
    skipped = λ q h. elim (Bool-cases (is_skipped q skipped)) [
      | inl t ↦ i.skipped q t
      | inr f ↦
          let last : text_eq p q ≡ true =
            ground (arith, any-snoc (λ s. text_eq s q) skipped p, h, f) in
          rw (← (text_eq_iff p q).0 last) e
    ];
  }

  Added-IsSound :
      (p : Text) (out : RegexMap) (skipped : List Text) (s : State)
      → Added p out skipped s
      → IsSound (out, skipped)
      → IsSound s
  Added-IsSound p out skipped s (known h) i = i
  Added-IsSound p out skipped s (compiled re e) i = compiled-IsSound p re out skipped e i
  Added-IsSound p out skipped s (failed e) i = failed-IsSound p out skipped e i

  -- What was seen stays seen, and what is added is seen.
  Added-seen :
      (p q : Text) (out : RegexMap) (skipped : List Text) (s : State)
      → Added p out skipped s
      → (seen q (out, skipped) ≡ true) ⊎ (q ≡ p)
      → seen q s ≡ true
  Added-seen p q out skipped s (known h) (inl k) = k
  Added-seen p q out skipped s (known h) (inr e) = rw e h
  Added-seen p q out skipped s (compiled re e) (inl k) =
      ground (arith, has_pattern-cons q p re out, k)
  Added-seen p q out skipped s (compiled re e) (inr same) =
      rw same (ground (arith, has_pattern-cons p p re out, text_eq_refl p))
  Added-seen p q out skipped s (failed e) (inl k) =
      ground (arith, any-snoc (λ s. text_eq s q) skipped p, k)
  Added-seen p q out skipped s (failed e) (inr same) =
      rw same (ground (arith, any-snoc (λ s. text_eq s p) skipped p, text_eq_refl p))

  compile_path-IsSound :
      (m : PathMatch) (s : State) → IsSound s → IsSound (compile_path compile m s)
  unfolding compile_path
  compile_path-IsSound (exact p) s i = i
  compile_path-IsSound (prefix p) s i = i
  compile_path-IsSound (regex p) (out, skipped) i =
      Added-IsSound p out skipped _ (add_pattern-Added p out skipped) i

  compile_path-seen :
      (m : PathMatch) (q : Text) (s : State)
      → (seen q s ≡ true) ⊎ (m ≡ regex q)
      → seen q (compile_path compile m s) ≡ true
  unfolding compile_path
  compile_path-seen (exact p) q s (inl k) = k
  compile_path-seen (exact p) q s (inr e) = absurd (ground (arith, e))
  compile_path-seen (prefix p) q s (inl k) = k
  compile_path-seen (prefix p) q s (inr e) = absurd (ground (arith, e))
  compile_path-seen (regex p) q (out, skipped) (inl k) =
      Added-seen p q out skipped _ (add_pattern-Added p out skipped) (inl k)
  compile_path-seen (regex p) q (out, skipped) (inr e) =
      let same : q ≡ p = ground (arith, e) in
      Added-seen p q out skipped _ (add_pattern-Added p out skipped) (inr same)

  -- Of the entries, the tables and the whole configuration: what was sound stays sound, and what
  -- was seen before, or stands in what is gone through, is seen after.
  compile_entries-IsSound :
      (es : List PortEntry) (s : State) → IsSound s → IsSound (compile_entries compile es s)
  unfolding compile_entries
  compile_entries-IsSound [] s i = i
  compile_entries-IsSound (e ∷ es) s i =
      compile_entries-IsSound es _ (compile_path-IsSound e.matcher.path s i)

  compile_entries-seen :
      (q : Text) (es : List PortEntry) (s : State)
      → (seen q s ≡ true) ⊎ ((e : PortEntry) × In e es × (e.matcher.path ≡ regex q))
      → seen q (compile_entries compile es s) ≡ true
  unfolding compile_entries
  compile_entries-seen q [] s (inl k) = k
  compile_entries-seen q [] s (inr (e, i, h)) = absurd i
  compile_entries-seen q (x ∷ es) s (inl k) =
      compile_entries-seen q es _ (inl (compile_path-seen x.matcher.path q s (inl k)))
  compile_entries-seen q (x ∷ es) s (inr (e, inl j, h)) =
      let here : x.matcher.path ≡ regex q = rw j at h in
      compile_entries-seen q es _ (inl (compile_path-seen x.matcher.path q s (inr here)))
  compile_entries-seen q (x ∷ es) s (inr (e, inr i, h)) =
      compile_entries-seen q es _ (inr (e, i, h))

  compile_ports-IsSound :
      (ports : List (ℕ × List PortEntry)) (s : State)
      → IsSound s
      → IsSound (compile_ports compile ports s)
  unfolding compile_ports
  compile_ports-IsSound [] s i = i
  compile_ports-IsSound ((port, es) ∷ rest) s i =
      compile_ports-IsSound rest _ (compile_entries-IsSound es s i)

  compile_ports-seen :
      (q : Text) (ports : List (ℕ × List PortEntry)) (s : State)
      → (seen q s ≡ true)
        ⊎ ((table : ℕ × List PortEntry) × In table ports
            × ((e : PortEntry) × In e table.1 × (e.matcher.path ≡ regex q)))
      → seen q (compile_ports compile ports s) ≡ true
  unfolding compile_ports
  compile_ports-seen q [] s (inl k) = k
  compile_ports-seen q [] s (inr (table, i, found)) = absurd i
  compile_ports-seen q ((port, es) ∷ rest) s (inl k) =
      compile_ports-seen q rest _ (inl (compile_entries-seen q es s (inl k)))
  compile_ports-seen q ((port, es) ∷ rest) s (inr (table, inl j, found)) =
      let same : table.1 ≡ es = ap (λ (x : ℕ × List PortEntry). x.1) j in
      compile_ports-seen q rest _ (inl (compile_entries-seen q es s (inr (rw same at found))))
  compile_ports-seen q ((port, es) ∷ rest) s (inr (table, inr i, found)) =
      compile_ports-seen q rest _ (inr (table, i, found))

  none_found : (p : Text) (re : Text → Bool) → lookup p [] ≡ some re → ⊥
  unfolding lookup
  none_found p re h = ground arith

  nothing_yet : IsSound ([], [])
  nothing_yet = record {
    mapped = λ p re h. absurd (none_found p re h);
    skipped = λ p h. absurd (ground arith);
  }

  -- Every regular expression that an entry of some port's table is matched by is in the map just
  -- as the library compiles it, and one that does not compile has no entry there, so that it
  -- matches nothing; one that was reported is one that does not compile.
  pub compile_regexes-lookup :
      (c : Config) (table : ℕ × List PortEntry) (e : PortEntry) (q : Text)
      → In table c.ports
      → In e table.1
      → e.matcher.path ≡ regex q
      → (lookup q (compile_regexes compile c).0 ≡ compile q)
        × ((p : Text) → is_skipped p (compile_regexes compile c).1 ≡ true → compile p ≡ none)
  compile_regexes-lookup c table e q i j h =
      let sound = compile_ports-IsSound c.ports ([], []) nothing_yet in
      (
        seen→lookup q (compile_regexes compile c) sound
            (compile_ports-seen q c.ports ([], []) (inr (table, i, (e, j, h)))),
        sound.skipped,
      )
