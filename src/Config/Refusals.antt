-- ===== src/Config/Refusals.antt =====
-- Whom the address and group policies of crates/gapura-core/src/config.rs refuse.
use gapura.Prelude.{
  ℕ, ◌<◌, ◌^◌, ◌≡◌, ◌↔◌, ◌⊎◌, inl, inr, refl, sym, Bool, true, false, not, ◌&&◌, Option, none, some,
  List, [], ◌∷◌, arith, if◌then◌else◌, any, In, Text, text_eq, text_eq_iff, Bool-cases,
}
use gapura.ClientIp.{v4, v6, Cidr, contains, to_ipv6_mapped}
use gapura.ClientIp.Networks.{contains-to_ipv6_mapped}
use gapura.Config.Policy.{
  IpRestrictionPolicy, AclPolicy, ip_refusal, acl_refusal, lists, is_empty, not_allowed,
}

any-contains-mapped :
    (nets : List Cidr) (n : ℕ)
    → n < 2 ^ 32
    → any (λ net. contains net (v6 (to_ipv6_mapped n))) nets ≡ any (λ net. contains net (v4 n)) nets
any-contains-mapped [] n h = refl
any-contains-mapped (net ∷ nets) n h =
    rw (contains-to_ipv6_mapped net n h, any-contains-mapped nets n h)

-- An ip_restriction policy judges an IPv4 client alike whichever way its address is written.
pub ip_refusal-to_ipv6_mapped :
    (p : IpRestrictionPolicy) (n : ℕ)
    → n < 2 ^ 32
    → ip_refusal p (some (v6 (to_ipv6_mapped n))) ≡ ip_refusal p (some (v4 n))
unfolding ip_refusal
ip_refusal-to_ipv6_mapped p n h =
    rw (any-contains-mapped p.deny n h, any-contains-mapped p.allow n h)

lists→In : (names : List Text) (g : Text) → lists names g ≡ true → In g names
lists→In [] g h = cc h
lists→In (n ∷ names) g h = elim (Bool-cases (text_eq n g)) [
  | inl e ↦ inl (sym ((text_eq_iff n g).0 e))
  | inr e ↦ inr (lists→In names g (rw e at h))
]

In→lists : (names : List Text) (g : Text) → In g names → lists names g ≡ true
In→lists [] g h = absurd h
In→lists (n ∷ names) g (inl e) = rw ((text_eq_iff n g).1 (sym e))
In→lists (n ∷ names) g (inr h) = ground (arith, In→lists names g h)

-- Some group of the caller's stands in the list.
abbrev pub Shares : List Text → List Text → Type 0
Shares names groups = (g : Text) × In g groups × In g names

any→Shares : (names groups : List Text) → any (lists names) groups ≡ true → Shares names groups
any→Shares names [] h = absurd (ground arith)
any→Shares names (g ∷ groups) h = elim (Bool-cases (lists names g)) [
  | inl e ↦ (g, inl refl, lists→In names g e)
  | inr e ↦ let (k, i, j) = any→Shares names groups (rw e at h) in (k, inr i, j)
]

Shares→any :
    (names groups : List Text) (g : Text)
    → In g groups
    → In g names
    → any (lists names) groups ≡ true
Shares→any names [] g i j = absurd i
Shares→any names (k ∷ groups) g (inl e) j = rw (In→lists names k (rw e at j))
Shares→any names (k ∷ groups) g (inr i) j = ground (arith, Shares→any names groups g i j)

-- Whom an acl policy admits: a caller that some policy identified, none of whose groups is denied,
-- and of whose groups one is allowed, unless the policy names no allowed group at all.
pub record Admits (p : AclPolicy) (groups : List Text) : Type 0 where
  pub clean : ¬ Shares p.deny groups
  pub listed : (p.allow ≡ []) ⊎ Shares p.allow groups

acl_refusal_sound :
    (p : AclPolicy) (caller : Option (List Text))
    → acl_refusal p caller ≡ none
    → (groups : List Text) × (caller ≡ some groups) × Admits p groups
unfolding acl_refusal
acl_refusal_sound p none h = absurd (ground arith)
acl_refusal_sound p (some groups) h = (
  groups,
  refl,
  record {
    clean = λ s. absurd (ground (arith, Shares→any p.deny groups s.0 s.1 s.2));
    listed = listed p.allow (ground arith);
  },
)
  where
    listed :
        (allow : List Text)
        → (not (is_empty allow) && not (any (lists allow) groups)) ≡ false
        → (allow ≡ []) ⊎ Shares allow groups
    listed [] h = inl refl
    listed (a ∷ allow) h = inr (any→Shares (a ∷ allow) groups (ground arith))

acl_refusal_complete :
    (p : AclPolicy) (groups : List Text) → Admits p groups → acl_refusal p (some groups) ≡ none
unfolding acl_refusal
acl_refusal_complete p groups h =
    rw (clean (any (lists p.deny) groups) refl) (open_to p.allow h.listed)
  where
    clean : (b : Bool) → any (lists p.deny) groups ≡ b → any (lists p.deny) groups ≡ false
    clean true e = absurd (h.clean (any→Shares p.deny groups e))
    clean false e = e

    open_to :
        (allow : List Text)
        → (allow ≡ []) ⊎ Shares allow groups
        → (if not (is_empty allow) && not (any (lists allow) groups)
            then some not_allowed
            else none)
          ≡ none
    open_to allow (inl e) = rw e
    open_to allow (inr s) = rw (Shares→any allow groups s.0 s.1 s.2) (ground arith)

-- An acl policy lets a request through exactly if it admits the consumer that some policy found;
-- a request no policy identified is refused, and a denied group outweighs an allowed one.
pub acl_refusal-Admits :
    (p : AclPolicy) (caller : Option (List Text))
    → (acl_refusal p caller ≡ none)
      ↔ ((groups : List Text) × (caller ≡ some groups) × Admits p groups)
acl_refusal-Admits p caller =
    (acl_refusal_sound p caller, λ (groups, e, a). rw e (acl_refusal_complete p groups a))
