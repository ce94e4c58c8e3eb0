-- ===== src/Outlier/Syncing.antt =====
-- How the registry of crates/gapura/src/proxy/outlier.rs grows while the records of a
-- configuration are looked up.
use gapura.Prelude.{
  ℕ, zero, suc, ◌≡◌, ◌↔◌, inl, inr, refl, ap, ap₂, sym, ◌∙◌, subst, true, List, [], ◌∷◌, ◌++◌, none,
  some, arith, In, In-append, length, get_elem?, Bool-cases, Option-cases, and-eq-true_iff, ==_iff,
}
use gapura.Select.{SocketAddr, same_address}
use gapura.ClientIp.{same_ip, same_ip_iff}
use gapura.Outlier.{Health, fresh}
use gapura.Outlier.Registry.{Registry, known_at, handle_of}

pub same_address_iff : (a b : SocketAddr) → (same_address a b ≡ true) ↔ (a ≡ b)
unfolding same_address
same_address_iff a b = (
  λ h.
      let (i, p) = (and-eq-true_iff (same_ip a.ip b.ip) _).0 h in
      let ips = (same_ip_iff a.ip b.ip).0 i in
      let ports = (==_iff a.port b.port).0 p in ap₂ (λ i p. record { ip = i; port = p }) ips ports,
  λ e.
      (and-eq-true_iff (same_ip a.ip b.ip) _).1 (
        (same_ip_iff a.ip b.ip).1 (ap (λ x. x.ip) e),
        (==_iff a.port b.port).1 (ap (λ x. x.port) e),
      ),
)

-- What is known stays known behind it, and an entry at the end is found where nothing was.
known_at-append :
    (a : SocketAddr) (m : List (SocketAddr × ℕ)) (h : ℕ) (n : List (SocketAddr × ℕ))
    → known_at a m ≡ some h
    → known_at a (m ++ n) ≡ some h
unfolding known_at
known_at-append a [] h n e = absurd (ground arith)
known_at-append a ((b, k) ∷ m) h n e = elim (Bool-cases (same_address b a)) [
  | inl q ↦ rw (q, known_at) (rw (q, known_at) at e)
  | inr q ↦ rw (q, known_at) (known_at-append a m h n (rw (q, known_at) at e))
]

known_at-end :
    (a : SocketAddr) (m n : List (SocketAddr × ℕ))
    → known_at a m ≡ none
    → known_at a (m ++ n) ≡ known_at a n
unfolding known_at
known_at-end a [] n e = refl
known_at-end a ((b, k) ∷ m) n e = elim (Bool-cases (same_address b a)) [
  | inl q ↦ absurd (ground (arith, rw (q, known_at) at e))
  | inr q ↦ rw (q, known_at) (known_at-end a m n (rw (q, known_at) at e))
]

heap_end : (heap : List Health) (x : Health) → get_elem? (heap ++ x ∷ []) (length heap) ≡ some x
heap_end [] x = refl
heap_end (y ∷ heap) x = heap_end heap x

heap_kept :
    (heap more : List Health) (i : ℕ) (x : Health)
    → get_elem? heap i ≡ some x
    → get_elem? (heap ++ more) i ≡ some x
heap_kept [] more i x h = absurd (ground arith)
heap_kept (y ∷ heap) more zero x h = h
heap_kept (y ∷ heap) more (suc i) x h = heap_kept heap more i x h

-- A later registry: what was known is as it was, and what is new is fresh and was looked up.
pub record Grows (looked_up : List SocketAddr) (r r' : Registry) : Type 0 where
  pub known : (a : SocketAddr) (h : ℕ) → known_at a r.known ≡ some h → known_at a r'.known ≡ some h
  pub heap : (i : ℕ) (x : Health) → get_elem? r.heap i ≡ some x → get_elem? r'.heap i ≡ some x
  pub new :
      (a : SocketAddr) (h : ℕ)
      → known_at a r.known ≡ none
      → known_at a r'.known ≡ some h
      → (get_elem? r'.heap h ≡ some fresh) × In a looked_up

pub Grows-refl : (r : Registry) → Grows [] r r
Grows-refl r = record {
  known = λ a h e. e;
  heap = λ i x e. e;
  new = λ a h e f. absurd (ground (arith, e, f));
}

pub Grows-trans :
    (ps qs : List SocketAddr) (r r' r'' : Registry)
    → Grows ps r r'
    → Grows qs r' r''
    → Grows (ps ++ qs) r r''
Grows-trans ps qs r r' r'' g g' = record {
  known = λ a h e. g'.known a h (g.known a h e);
  heap = λ i x e. g'.heap i x (g.heap i x e);
  new = λ a h e f. elim (Option-cases (known_at a r'.known)) [
    | inl q ↦ let (p, i) = g'.new a h q f in (p, (In-append a ps qs).1 (inr i))
    | inr (k, q) ↦
        let same : k ≡ h = ground (arith, g'.known a k q, f) in
        let (p, i) = g.new a k e q in
        (
          subst (λ j. get_elem? r''.heap j ≡ some fresh) same (g'.heap k fresh p),
          (In-append a ps qs).1 (inl i),
        )
  ];
}

abbrev grown : SocketAddr → Registry → Registry
grown a r = record { known = r.known ++ (a, length r.heap) ∷ []; heap = r.heap ++ fresh ∷ [] }

grown-here :
    (a : SocketAddr) (r : Registry)
    → known_at a r.known ≡ none
    → known_at a (grown a r).known ≡ some (length r.heap)
unfolding known_at
grown-here a r e =
    let same = (same_address_iff a a).1 refl in
    known_at-end a r.known ((a, length r.heap) ∷ []) e ∙ rw (same, known_at) refl

grown-Grows :
    (a : SocketAddr) (r : Registry) → known_at a r.known ≡ none → Grows (a ∷ []) r (grown a r)
unfolding known_at
grown-Grows a r e = record {
  known = λ b h k. known_at-append b r.known h ((a, length r.heap) ∷ []) k;
  heap = λ i x k. heap_kept r.heap (fresh ∷ []) i x k;
  new = λ b h k l. elim (Bool-cases (same_address a b)) [
    | inl q ↦
        let same : b ≡ a = sym ((same_address_iff a b).0 q) in
        let place : length r.heap ≡ h =
          ground
            (arith, grown-here a r e, subst (λ c. known_at c (grown a r).known ≡ some h) same l) in
        (
          subst (λ j. get_elem? (grown a r).heap j ≡ some fresh) place (heap_end r.heap fresh),
          inl same,
        )
    | inr q ↦
        let l' = sym (known_at-end b r.known ((a, length r.heap) ∷ []) k) ∙ l in
        absurd (ground (arith, rw (q, known_at) at l'))
  ];
}

-- What a lookup of an address that may be new returns, as the later registry has it.
pub handle_of-Grows :
    (a : SocketAddr) (r : Registry)
    → Grows (a ∷ []) r (handle_of a r).1
      × (known_at a (handle_of a r).1.known ≡ some (handle_of a r).0)
unfolding handle_of
handle_of-Grows a r = elim (Option-cases (known_at a r.known)) [
  | inr (h, e) ↦ rw (e, handle_of) (old, e)
  | inl e ↦ rw (e, handle_of) (grown-Grows a r e, grown-here a r e)
]
  where
    old : Grows (a ∷ []) r r
    old = record {
      known = λ b h e. e;
      heap = λ i x e. e;
      new = λ b h e f. absurd (ground (arith, e, f));
    }
