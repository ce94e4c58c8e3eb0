-- ===== src/RateLimit/Keys.antt =====
-- The table of windows as a map: crates/gapura/src/proxy/rate_limit.rs.
use gapura.Prelude.{
  ℕ, ◌<◌, ◌≡◌, ◌↔◌, inl, inr, refl, ap, ap₂, true, false, none, some, List, [], ◌∷◌, arith, ltb,
  ==_iff, Bool-cases, filter_by, text_eq_iff, text_eq_refl,
}
use gapura.ClientIp.{same_ip_iff}
use gapura.RateLimit.{
  Client, by_ip, by_consumer, by_header, Window, Key, same_client, same_key, find_window,
  set_window, is_live,
}

same_client_iff : (a b : Client) → (same_client a b ≡ true) ↔ (a ≡ b)
same_client_iff (by_ip a) (by_ip b) = ground (arith, same_ip_iff a b)
same_client_iff (by_ip a) (by_consumer b) = ground arith
same_client_iff (by_ip a) (by_header b) = ground arith
same_client_iff (by_consumer a) (by_ip b) = ground arith
same_client_iff (by_consumer a) (by_consumer b) = ground (arith, text_eq_iff a b)
same_client_iff (by_consumer a) (by_header b) = ground arith
same_client_iff (by_header a) (by_ip b) = ground arith
same_client_iff (by_header a) (by_consumer b) = ground arith
same_client_iff (by_header a) (by_header b) = ground (arith, ==_iff a b)

pub same_key→eq : (j k : Key) → same_key j k ≡ true → j ≡ k
unfolding same_key
same_key→eq (n, c) (m, d) h =
    ap₂ (λ x y. (x, y)) ((text_eq_iff n m).0 (ground arith))
      ((same_client_iff c d).0 (ground arith))

pub same_key_refl : (k : Key) → same_key k k ≡ true
unfolding same_key
same_key_refl (n, c) = ground (arith, text_eq_refl n, (same_client_iff c c).1 refl)

pub find_window-set_window :
    (k : Key) (w : Window) (ws : List (Key × Window)) → find_window k (set_window k w ws) ≡ some w
unfolding find_window set_window
find_window-set_window k w [] = rw (same_key_refl k) refl
find_window-set_window k w ((j, v) ∷ ws) = elim (Bool-cases (same_key j k)) [
  | inl e ↦ rw e (rw e refl)
  | inr n ↦ rw n (rw n (find_window-set_window k w ws))
]

pub find_window-set_other :
    (j k : Key) (w : Window) (ws : List (Key × Window))
    → same_key j k ≡ false
    → find_window k (set_window j w ws) ≡ find_window k ws
unfolding find_window set_window
find_window-set_other j k w [] h = rw h refl
find_window-set_other j k w ((i, v) ∷ ws) h = elim (Bool-cases (same_key i j)) [
  | inl e ↦ let apart : same_key i k ≡ false = rw (same_key→eq i j e) h in rw e (rw apart refl)
  | inr n ↦ rw n (rw (find_window-set_other j k w ws h) refl)
]

-- What is live stays, and what is not there stays away.
pub find_window-live :
    (k : Key) (w : Window) (now_ms : ℕ) (ws : List (Key × Window))
    → find_window k ws ≡ some w
    → now_ms < w.ends_ms
    → find_window k (filter_by (is_live now_ms) ws) ≡ some w
unfolding find_window
find_window-live k w now_ms [] h lt = absurd (ground arith)
find_window-live k w now_ms ((j, v) ∷ ws) h lt = elim (Bool-cases (same_key j k)) [
  | inl e ↦
      let same : v ≡ w = ground arith in
      let live : ltb now_ms v.ends_ms ≡ true = rw same (ground arith) in
      rw live (rw e (ap some same))
  | inr n ↦
      let rest = find_window-live k w now_ms ws (rw n at h) lt in
      elim (Bool-cases (ltb now_ms v.ends_ms)) [
        | inl live ↦ rw live (rw n rest)
        | inr over ↦ rw over rest
      ]
]

pub find_window-none :
    (k : Key) (now_ms : ℕ) (ws : List (Key × Window))
    → find_window k ws ≡ none
    → find_window k (filter_by (is_live now_ms) ws) ≡ none
unfolding find_window
find_window-none k now_ms [] h = refl
find_window-none k now_ms ((j, v) ∷ ws) h = elim (Bool-cases (same_key j k)) [
  | inl e ↦ absurd (ground arith)
  | inr n ↦
      let rest = find_window-none k now_ms ws (rw n at h) in
      elim (Bool-cases (ltb now_ms v.ends_ms)) [
        | inl live ↦ rw live (rw n rest)
        | inr over ↦ rw over rest
      ]
]
