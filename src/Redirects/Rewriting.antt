-- ===== src/Redirects/Rewriting.antt =====
-- What `rewrite_path` of crates/gapura/src/proxy/select.rs makes of the paths that its rule matches.
use gapura.Prelude.{
  ◌≡◌, ◌≢◌, ◌⊎◌, inl, inr, refl, ap, true, false, some, [], ◌∷◌, ◌++◌, append-nil, arith,
  Bool-cases, length, drop, Text, codes, text_eq, text_eq_iff,
}
use gapura.Config.{
  PathMatch, exact, prefix, regex, PathRewrite, replace_full_path, replace_prefix_match,
}
use gapura.Path.{is_continuation}
use gapura.Path.Canonical.{starts_slash}
use gapura.Matcher.{RegexMap, path_matches}
use gapura.Matcher.Paths.{IsUnder, root, same, deeper, path_matches-IsUnder}
use gapura.Redirects.{trim_end_slashes, get_from, rest_after, or_root, replace_prefix, rewrite_path}

drop-append : (p s : Text) → drop (length p) (p ++ s) ≡ s
drop-append [] s = refl
drop-append (c ∷ p) s = drop-append p s

get_from-slash : (p s : Text) → get_from (p ++ b'/' ∷ s) (length p) ≡ b'/' ∷ s
unfolding get_from is_continuation
get_from-slash p s = rw (drop-append p (b'/' ∷ s)) refl

get_from_end : (p : Text) → get_from p (length p) ≡ []
unfolding get_from
get_from_end p =
    let e : drop (length p) p ≡ [] = rw (append-nil p) at (drop-append p []) in rw e refl

-- Nothing, or a text with a slash in front.
abbrev IsRest : Text → Type 0
IsRest rest = (rest ≡ []) ⊎ (starts_slash rest ≡ true)

rest_after-IsRest :
    (p path : Text)
    → IsUnder p path
    → starts_slash path ≡ true
    → (rest : Text) × (rest_after (prefix p) path ≡ some rest) × IsRest rest
unfolding rest_after
rest_after-IsRest p path u h = elim (Bool-cases (text_eq p (codes "/"))) [
  | inl e ↦ (path, rw e refl, inr h)
  | inr n ↦ (get_from path (length p), rw n refl, left n u)
]
  where
    left : text_eq p (codes "/") ≡ false → IsUnder p path → IsRest (get_from path (length p))
    left n (root e) = absurd (ground (arith, (text_eq_iff p (codes "/")).1 e))
    left n (same e) = rw e (inl (get_from_end p))
    left n (deeper s e) = rw e (inr (ap starts_slash (get_from-slash p s)))

trim_end_slashes-starts :
    (s : Text)
    → starts_slash s ≡ true
    → (trim_end_slashes s ≡ []) ⊎ (starts_slash (trim_end_slashes s) ≡ true)
unfolding trim_end_slashes
trim_end_slashes-starts [] h = inl refl
trim_end_slashes-starts (c ∷ s) h = ground arith

or_root-starts : (rest : Text) → IsRest rest → starts_slash (or_root rest) ≡ true
or_root-starts [] r = refl
or_root-starts (c ∷ s) (inl e) = absurd (ground arith)
or_root-starts (c ∷ s) (inr h) = h

IsRest-append :
    (s rest : Text) → (s ≡ []) ⊎ (starts_slash s ≡ true) → IsRest rest → IsRest (s ++ rest)
IsRest-append [] rest h r = r
IsRest-append (c ∷ s) rest (inl e) r = absurd (ground arith)
IsRest-append (c ∷ s) rest (inr h) r = inr h

replace_prefix-starts :
    (replacement rest : Text)
    → starts_slash replacement ≡ true
    → IsRest rest
    → starts_slash (replace_prefix replacement rest) ≡ true
unfolding replace_prefix
replace_prefix-starts replacement rest h r = elim (Bool-cases (text_eq replacement (codes "/"))) [
  | inl e ↦ rw e (or_root-starts rest r)
  | inr n ↦ rw n (
      or_root-starts (trim_end_slashes replacement ++ rest) (
        IsRest-append (trim_end_slashes replacement) rest (trim_end_slashes-starts replacement h)
          r))
]

abbrev pub new_path : PathRewrite → Text
new_path (replace_full_path p) = p
new_path (replace_prefix_match p) = p

-- A rewrite whose own path is absolute makes an absolute path of every absolute path that the
-- rule's match holds of, unless that match is a regular expression: it never panics, and never sends an empty
-- path or one without a slash in front upstream.
pub rewrite_path-absolute :
    (modifier : PathRewrite) (path : Text) (matched : PathMatch) (regexes : RegexMap)
    → starts_slash (new_path modifier) ≡ true
    → starts_slash path ≡ true
    → path_matches matched path regexes ≡ true
    → ((q : Text) → matched ≢ regex q)
    → (out : Text) × (rewrite_path modifier path matched ≡ some out) × (starts_slash out ≡ true)
unfolding rewrite_path
rewrite_path-absolute (replace_full_path p) path matched regexes h k m n = (p, refl, h)
rewrite_path-absolute (replace_prefix_match r) path (exact p) regexes h k m n =
    (replace_prefix r [], unfold rest_after in refl, replace_prefix-starts r [] h (inl refl))
rewrite_path-absolute (replace_prefix_match r) path (prefix p) regexes h k m n =
    let (rest, e, i) = rest_after-IsRest p path ((path_matches-IsUnder p path regexes).0 m) k in
    (replace_prefix r rest, rw e refl, replace_prefix-starts r rest h i)
rewrite_path-absolute (replace_prefix_match r) path (regex q) regexes h k m n = absurd (n q refl)

or_root_kept : (s rest : Text) → or_root (s ++ b'/' ∷ rest) ≡ s ++ b'/' ∷ rest
or_root_kept [] rest = refl
or_root_kept (c ∷ s) rest = refl

trim_end_slashes-root : trim_end_slashes (codes "/") ≡ []
unfolding trim_end_slashes
trim_end_slashes-root = refl

replace_prefix-slash : (r s : Text) → replace_prefix r (b'/' ∷ s) ≡ trim_end_slashes r ++ b'/' ∷ s
unfolding replace_prefix
replace_prefix-slash r s = elim (Bool-cases (text_eq r (codes "/"))) [
  | inl e ↦
      let at_root : r ≡ codes "/" = (text_eq_iff r (codes "/")).0 e in
      rw e (rw at_root (rw trim_end_slashes-root refl))
  | inr n ↦ rw n (or_root_kept (trim_end_slashes r) s)
]

-- A path that goes on behind the prefix that matched keeps all that is behind it: a rewrite puts
-- its replacement, less the slashes at its end, in the prefix's place.
pub rewrite_path-keeps :
    (r p s : Text)
    → p ≢ codes "/"
    → rewrite_path (replace_prefix_match r) (p ++ b'/' ∷ s) (prefix p)
      ≡ some (trim_end_slashes r ++ b'/' ∷ s)
unfolding rewrite_path rest_after
rewrite_path-keeps r p s n =
    let other : text_eq p (codes "/") ≡ false = not_root in
    rw (other, get_from-slash p s) (ap some (replace_prefix-slash r s))
  where
    not_root : text_eq p (codes "/") ≡ false
    not_root = elim (Bool-cases (text_eq p (codes "/"))) [
      | inl e ↦ absurd (n ((text_eq_iff p (codes "/")).0 e))
      | inr e ↦ e
    ]
