-- ===== src/RateLimit/Windows.antt =====
-- What one check does to the count of a window: crates/gapura/src/proxy/rate_limit.rs.
use gapura.Prelude.{
  ℕ, suc, ◌<◌, ◌≤◌, ◌≡◌, inl, inr, refl, ap, Bool, true, false, Option, none, some, List, arith,
  leb, ◌==◌, Bool-cases, Option-cases, filter_by, Text,
}
use gapura.ClientIp.{IpAddr}
use gapura.Config.{RateLimit}
use gapura.RateLimit.{
  Outcome, allowed, limited, Client, by_ip, by_consumer, by_header, Window, Key, Table, same_key,
  find_window, set_window, is_live, sweep, sweep_if_full, sweep_if_capped, open_header, admit,
  window_end, current, count_in,
}
use gapura.RateLimit.Keys.{find_window-set_window, find_window-set_other, find_window-live}

-- The requests that a window of this end has counted.
abbrev pub count_at : Key → ℕ → Table → ℕ
count_at k ends_ms t = (current k ends_ms t.windows).count

abbrev pub is_allowed : Outcome → Bool
is_allowed allowed = true
is_allowed (limited limit secs) = false

current-none :
    (k : Key) (e : ℕ) (ws : List (Key × Window))
    → find_window k ws ≡ none
    → current k e ws ≡ record { ends_ms = e; count = 0 }
unfolding current
current-none k e ws h = rw (h, current) refl

current-same :
    (k : Key) (e : ℕ) (w : Window) (ws : List (Key × Window))
    → find_window k ws ≡ some w
    → (w.ends_ms == e) ≡ true
    → current k e ws ≡ w
unfolding current
current-same k e w ws h q = rw (h, current) (rw q refl)

current-other :
    (k : Key) (e : ℕ) (w : Window) (ws : List (Key × Window))
    → find_window k ws ≡ some w
    → (w.ends_ms == e) ≡ false
    → current k e ws ≡ record { ends_ms = e; count = 0 }
unfolding current
current-other k e w ws h q = rw (h, current) (rw q refl)

current-ends : (k : Key) (e : ℕ) (ws : List (Key × Window)) → (current k e ws).ends_ms ≡ e
current-ends k e ws = elim (Option-cases (find_window k ws)) [
  | inl n ↦ rw (current-none k e ws n) refl
  | inr (w, h) ↦ elim (Bool-cases (w.ends_ms == e)) [
    | inl q ↦ rw (current-same k e w ws h q) (ground arith)
    | inr n ↦ rw (current-other k e w ws h n) refl
  ]
]

-- A sweep takes no count from a window that is live.
sweep-keeps :
    (k : Key) (e now_ms : ℕ) (ws : List (Key × Window))
    → now_ms < e
    → (current k e ws).count ≤ (current k e (filter_by (is_live now_ms) ws)).count
sweep-keeps k e now_ms ws lt = elim (Option-cases (find_window k ws)) [
  | inl n ↦ rw (current-none k e ws n) (omega arith)
  | inr (w, h) ↦ elim (Bool-cases (w.ends_ms == e)) [
    | inl q ↦
        let kept = find_window-live k w now_ms ws h (ground arith) in
        rw (current-same k e w ws h q, current-same k e w (filter_by (is_live now_ms) ws) kept q)
          (omega arith)
    | inr n ↦ rw (current-other k e w ws h n) (omega arith)
  ]
]

sweep-count :
    (k : Key) (e now_ms : ℕ) (t : Table)
    → now_ms < e
    → count_at k e t ≤ count_at k e (sweep now_ms t)
unfolding sweep
sweep-count k e now_ms t lt = sweep-keeps k e now_ms t.windows lt

pub sweep_if_full-count :
    (k : Key) (e now_ms : ℕ) (t : Table)
    → now_ms < e
    → count_at k e t ≤ count_at k e (sweep_if_full now_ms t)
unfolding sweep_if_full
sweep_if_full-count k e now_ms t lt = ground (arith, sweep-count k e now_ms t lt)

sweep_if_capped-count :
    (k : Key) (e : ℕ) (name : Text) (now_ms : ℕ) (t : Table)
    → now_ms < e
    → count_at k e t ≤ count_at k e (sweep_if_capped name now_ms t)
unfolding sweep_if_capped
sweep_if_capped-count k e name now_ms t lt = ground (arith, sweep-count k e now_ms t lt)

open_header-windows :
    (name : Text) (d : ℕ) (addr : Option IpAddr) (t : Table)
    → (open_header name d addr t).1.windows ≡ t.windows
unfolding open_header
open_header-windows name d addr t = ground arith

open_header-count :
    (k : Key) (e : ℕ) (name : Text) (d : ℕ) (addr : Option IpAddr) (t : Table)
    → count_at k e (open_header name d addr t).1 ≡ count_at k e t
open_header-count k e name d addr t =
    ap (λ ws. (current k e ws).count) (open_header-windows name d addr t)

pub admit-count :
    (k : Key) (e : ℕ) (name : Text) (who : Client) (addr : Option IpAddr) (now_ms : ℕ) (t : Table)
    → now_ms < e
    → count_at k e t ≤ count_at k e (admit name who addr now_ms t).1
unfolding admit
admit-count k e name (by_ip a) addr now_ms t lt = omega arith
admit-count k e name (by_consumer c) addr now_ms t lt = omega arith
admit-count k e name (by_header d) addr now_ms t lt =
    elim (Option-cases (find_window (name, by_header d) t.windows)) [
      | inr (w, h) ↦ rw (h, admit) (omega arith)
      | inl n ↦
          rw (n, admit)
            (omega (
              arith,
              open_header-count k e name d addr (sweep_if_capped name now_ms t),
              sweep_if_capped-count k e name now_ms t lt,
            ))
    ]

count-set_window :
    (k : Key) (e : ℕ) (w : Window) (ws : List (Key × Window))
    → w.ends_ms ≡ e
    → (current k e (set_window k w ws)).count ≡ w.count
count-set_window k e w ws q =
    ap (λ (x : Window). x.count)
      (current-same k e w (set_window k w ws) (find_window-set_window k w ws) (ground arith))

-- What a request that is counted under a key does to the key's own count.
pub data Counted (limit before : ℕ) (o : Outcome) (after : ℕ) : Type 0 where
  let_through : o ≡ allowed → before < limit → after ≡ suc before → Counted limit before o after
  refused : is_allowed o ≡ false → after ≡ before → Counted limit before o after

pub count_in_same :
    (k : Key) (rl : RateLimit) (now_ms : ℕ) (t : Table)
    → Counted rl.limit
        (count_at k (window_end rl now_ms) t)
        (count_in k rl now_ms t).0
        (count_at k (window_end rl now_ms) (count_in k rl now_ms t).1)
unfolding count_in
count_in_same k rl now_ms t =
    let e = window_end rl now_ms in
    let w = current k e t.windows in
    let q = current-ends k e t.windows in
    elim (Bool-cases (leb rl.limit w.count)) [
      | inl full ↦ rw full (refused refl (count-set_window k e w t.windows q))
      | inr room ↦ rw room (
          let_through refl (ground arith)
            (count-set_window k e (record w { count = suc w.count }) t.windows q))
    ]

current-eq :
    (k : Key) (e : ℕ) (xs ys : List (Key × Window))
    → find_window k xs ≡ find_window k ys
    → current k e xs ≡ current k e ys
unfolding current
current-eq k e xs ys h = rw (h, current) refl

pub count_in_other :
    (j k : Key) (e : ℕ) (rl : RateLimit) (now_ms : ℕ) (t : Table)
    → same_key j k ≡ false
    → count_at k e (count_in j rl now_ms t).1 ≡ count_at k e t
unfolding count_in
count_in_other j k e rl now_ms t h =
    elim (Bool-cases (leb rl.limit (count_at j (window_end rl now_ms) t))) [
      | inl full ↦ rw full (apart _)
      | inr room ↦ rw room (apart _)
    ]
  where
    apart : (w : Window) → (current k e (set_window j w t.windows)).count ≡ count_at k e t
    apart w =
        ap (λ (x : Window). x.count)
          (current-eq k e (set_window j w t.windows) t.windows
            (find_window-set_other j k w t.windows h))
