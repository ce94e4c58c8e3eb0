-- ===== src/RateLimit/Counts.antt =====
-- The counts of header windows and their cap: crates/gapura/src/proxy/rate_limit.rs.
use gapura.Prelude.{
  ℕ, ◌+◌, ◌≤◌, ◌≡◌, inl, inr, refl, sym, ◌∙◌, ap, Bool, true, false, Option, none, some, arith, leb,
  if◌then◌else◌, Bool-cases, Option-cases, Text, text_eq, text_eq_iff,
}
use gapura.ClientIp.{IpAddr}
use gapura.Config.{RateLimit}
use gapura.RateLimit.{
  Client, by_ip, by_consumer, by_header, Window, Key, Table, held, held_in, header_cap,
  add_header_window, find_window, set_window, sweep, sweep_if_full, sweep_if_capped, open_header,
  admit, fallback_client, grouped, counted_client, current, count_in, count_as, check_at,
  window_end,
}
use gapura.RateLimit.Keys.{find_window-none}
use gapura.RateLimit.Headers.{
  header_of, headers_in, IsValid, held-add_header_window, headers_in-set_window, sweep-IsValid,
  sweep_if_full-IsValid,
}

-- A table that is about to get the window of this key.
record IsReady (k : Key) (t : Table) : Type 0 where
  counted :
      (name : Text)
      → held t name
        ≡ headers_in name t.windows
          + elim (find_window k t.windows) [ none ↦ header_of name k | some v ↦ 0 ]
  capped : (name : Text) → held t name ≤ header_cap

count_in-IsValid :
    (k : Key) (rl : RateLimit) (now_ms : ℕ) (t : Table)
    → IsReady k t
    → IsValid (count_in k rl now_ms t).1
unfolding count_in
count_in-IsValid k rl now_ms t r =
    elim (Bool-cases (leb rl.limit (current k (window_end rl now_ms) t.windows).count)) [
      | inl full ↦ rw full (after _)
      | inr room ↦ rw room (after _)
    ]
  where
    after : (w : Window) → IsValid (record t { windows = set_window k w t.windows })
    after w = record {
      counted = λ name. r.counted name ∙ sym (headers_in-set_window name k w t.windows);
      capped = r.capped;
    }

-- A key of no header is always ready, and so is one that the table holds.
plain-IsReady :
    (k : Key) (t : Table) → ((name : Text) → header_of name k ≡ 0) → IsValid t → IsReady k t
plain-IsReady k t h v = record {
  counted = λ name. elim (Option-cases (find_window k t.windows)) [
    | inl n ↦ rw n (omega (arith, v.counted name, h name))
    | inr (w, e) ↦ rw e (omega (arith, v.counted name))
  ];
  capped = v.capped;
}

present-IsReady :
    (k : Key) (w : Window) (t : Table) → find_window k t.windows ≡ some w → IsValid t → IsReady k t
present-IsReady k w t e v = record {
  counted = λ name. rw e (omega (arith, v.counted name));
  capped = v.capped;
}

added-IsReady :
    (name : Text) (d : ℕ) (t : Table)
    → find_window (name, by_header d) t.windows ≡ none
    → leb header_cap (held t name) ≡ false
    → IsValid t
    → IsReady
        (name, by_header d)
        (record t { header_windows = add_header_window name t.header_windows })
added-IsReady name d t n room v = record {
  counted = λ m. rw n (omega (arith, held-add_header_window m name t.header_windows, v.counted m));
  capped = λ m. elim (Bool-cases (text_eq name m)) [
    | inl e ↦
        let here : held t name ≡ held t m = ap (held t) ((text_eq_iff name m).0 e) in
        let step : held_in m (add_header_window name t.header_windows) ≡ 1 + held t m =
          rw e at (held-add_header_window m name t.header_windows) in
        ground (arith, here, step, room)
    | inr f ↦
        let step : held_in m (add_header_window name t.header_windows) ≡ 0 + held t m =
          rw f at (held-add_header_window m name t.header_windows) in
        omega (arith, step, v.capped m)
  ];
}

abbrev IsAdmitted : Text → Option Client × Table → Type 0
IsAdmitted name (none, t) = IsValid t
IsAdmitted name (some c, t) = IsReady (name, c) t

sweep_if_capped-IsValid :
    (name : Text) (now_ms : ℕ) (t : Table) → IsValid t → IsValid (sweep_if_capped name now_ms t)
unfolding sweep_if_capped
sweep_if_capped-IsValid name now_ms t v = swept _
  where
    swept : (b : Bool) → IsValid (if b then sweep now_ms t else t)
    swept true = sweep-IsValid now_ms t v
    swept false = v

sweep_if_capped-none :
    (k : Key) (name : Text) (now_ms : ℕ) (t : Table)
    → find_window k t.windows ≡ none
    → find_window k (sweep_if_capped name now_ms t).windows ≡ none
unfolding sweep_if_capped sweep
sweep_if_capped-none k name now_ms t n = swept _
  where
    swept : (b : Bool) → find_window k (if b then sweep now_ms t else t).windows ≡ none
    swept true = find_window-none k now_ms t.windows n
    swept false = n

fallback-IsAdmitted :
    (name : Text) (addr : Option IpAddr) (t : Table)
    → IsValid t
    → IsAdmitted name (fallback_client addr, t)
fallback-IsAdmitted name none t v = v
fallback-IsAdmitted name (some a) t v = plain-IsReady (name, by_ip (grouped a)) t (λ m. refl) v

open_header-IsAdmitted :
    (name : Text) (d : ℕ) (addr : Option IpAddr) (t : Table)
    → find_window (name, by_header d) t.windows ≡ none
    → IsValid t
    → IsAdmitted name (open_header name d addr t)
unfolding open_header
open_header-IsAdmitted name d addr t n v = elim (Bool-cases (leb header_cap (held t name))) [
  | inr room ↦ rw room (added-IsReady name d t n room v)
  | inl full ↦ rw full (fallback-IsAdmitted name addr t v)
]

admit-IsAdmitted :
    (name : Text) (who : Client) (addr : Option IpAddr) (now_ms : ℕ) (t : Table)
    → IsValid t
    → IsAdmitted name (admit name who addr now_ms t)
unfolding admit
admit-IsAdmitted name (by_ip a) addr now_ms t v = plain-IsReady (name, by_ip a) t (λ m. refl) v
admit-IsAdmitted name (by_consumer c) addr now_ms t v =
    plain-IsReady (name, by_consumer c) t (λ m. refl) v
admit-IsAdmitted name (by_header d) addr now_ms t v =
    elim (Option-cases (find_window (name, by_header d) t.windows)) [
      | inr (w, e) ↦ rw (e, admit) (present-IsReady (name, by_header d) w t e v)
      | inl n ↦
          rw (n, admit)
            (open_header-IsAdmitted name d addr (sweep_if_capped name now_ms t)
              (sweep_if_capped-none (name, by_header d) name now_ms t n)
              (sweep_if_capped-IsValid name now_ms t v))
    ]

count_as-IsValid :
    (name : Text) (rl : RateLimit) (now_ms : ℕ) (x : Option Client × Table)
    → IsAdmitted name x
    → IsValid (count_as name rl now_ms x).1
unfolding count_as
count_as-IsValid name rl now_ms (none, t) v = v
count_as-IsValid name rl now_ms (some c, t) r = count_in-IsValid (name, c) rl now_ms t r

-- Every check, whatever the client and the time, keeps the counts of header windows true: each is
-- the number of windows that the table holds of header values under that name, and none is ever
-- over the cap, so the windows that clients can open by choosing a header are bounded.
pub check_at-IsValid :
    (name : Text) (who : Client) (addr : Option IpAddr) (rl : RateLimit) (now_ms : ℕ) (t : Table)
    → IsValid t
    → IsValid (check_at name who addr rl now_ms t).1
unfolding check_at
check_at-IsValid name who addr rl now_ms t v = count_as-IsValid name rl now_ms _ (
    admit-IsAdmitted name (counted_client who) addr now_ms (sweep_if_full now_ms t)
      (sweep_if_full-IsValid now_ms t v))
