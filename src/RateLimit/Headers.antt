-- ===== src/RateLimit/Headers.antt =====
-- How many windows of header values a table holds: crates/gapura/src/proxy/rate_limit.rs.
use gapura.Prelude.{
  ℕ, ◌+◌, ◌≤◌, ◌≡◌, inl, inr, refl, sym, ◌∙◌, ap, true, false, none, some, List, [], ◌∷◌, arith,
  ltb, if◌then◌else◌, Bool-cases, filter_by, length, Text, text_eq, text_eq_iff,
}
use gapura.RateLimit.{
  by_ip, by_consumer, by_header, Window, Key, Table, new_table, held, held_in, header_cap,
  add_header_window, count_headers, same_key, find_window, set_window, is_live, sweep,
  sweep_if_full,
}

-- One, if the key is of a header's value under the name.
abbrev pub header_of : Text → Key → ℕ
header_of name (n, by_ip a) = 0
header_of name (n, by_consumer c) = 0
header_of name (n, by_header d) = if text_eq n name then 1 else 0

-- The windows in the table that count a header's value under the name.
abbrev pub headers_in : Text → List (Key × Window) → ℕ
headers_in name [] = 0
headers_in name ((k, w) ∷ ws) = header_of name k + headers_in name ws

-- What is counted of each name is what the table holds, and no name is over the cap.
pub record IsValid (t : Table) : Type 0 where
  pub counted : (name : Text) → held t name ≡ headers_in name t.windows
  pub capped : (name : Text) → held t name ≤ header_cap

pub new_table-IsValid : IsValid new_table
unfolding held_in
new_table-IsValid = record { counted = λ name. refl; capped = λ name. omega arith }

text_eq_trans_false : (a b c : Text) → text_eq a b ≡ true → text_eq b c ≡ text_eq a c
text_eq_trans_false a b c h = ap (λ x. text_eq x c) (sym ((text_eq_iff a b).0 h))

other_name :
    (m n name : Text) → text_eq m n ≡ false → text_eq m name ≡ true → text_eq n name ≡ false
other_name m n name d q = elim (Bool-cases (text_eq n name)) [
  | inr f ↦ f
  | inl e ↦
      let same : m ≡ n = (text_eq_iff m name).0 q ∙ sym ((text_eq_iff n name).0 e) in
      absurd (ground (arith, d, (text_eq_iff m n).1 same))
]

pub held-add_header_window :
    (name n : Text) (hs : List (Text × ℕ))
    → held_in name (add_header_window n hs) ≡ (if text_eq n name then 1 else 0) + held_in name hs
unfolding held_in add_header_window
held-add_header_window name n [] = ground arith
held-add_header_window name n ((m, count) ∷ hs) = elim (Bool-cases (text_eq m n)) [
  | inl e ↦ let same = text_eq_trans_false m n name e in ground arith
  | inr d ↦
      let rest = held-add_header_window name n hs in
      rw d (elim (Bool-cases (text_eq m name)) [
        | inl q ↦ rw q (rw (other_name m n name d q) (omega arith))
        | inr q ↦ rw q rest
      ])
]

held-count_headers :
    (name : Text) (ws : List (Key × Window)) → held_in name (count_headers ws) ≡ headers_in name ws
unfolding held_in count_headers
held-count_headers name [] = refl
held-count_headers name (((n, by_ip a), w) ∷ ws) = omega (arith, held-count_headers name ws)
held-count_headers name (((n, by_consumer c), w) ∷ ws) = omega (arith, held-count_headers name ws)
held-count_headers name (((n, by_header d), w) ∷ ws) =
    omega (arith, held-count_headers name ws, held-add_header_window name n (count_headers ws))

headers_in-filter :
    (name : Text) (now_ms : ℕ) (ws : List (Key × Window))
    → headers_in name (filter_by (is_live now_ms) ws) ≤ headers_in name ws
headers_in-filter name now_ms [] = omega arith
headers_in-filter name now_ms ((k, w) ∷ ws) = elim (Bool-cases (ltb now_ms w.ends_ms)) [
  | inl live ↦ rw live (omega (arith, headers_in-filter name now_ms ws))
  | inr over ↦ rw over (omega (arith, headers_in-filter name now_ms ws))
]

pub headers_in-set_window :
    (name : Text) (k : Key) (w : Window) (ws : List (Key × Window))
    → headers_in name (set_window k w ws)
      ≡ headers_in name ws + elim (find_window k ws) [ none ↦ header_of name k | some v ↦ 0 ]
unfolding set_window find_window
headers_in-set_window name k w [] = omega arith
headers_in-set_window name k w ((j, v) ∷ ws) = elim (Bool-cases (same_key j k)) [
  | inl e ↦ rw e (omega arith)
  | inr n ↦ rw n (omega (arith, headers_in-set_window name k w ws))
]

pub sweep-IsValid : (now_ms : ℕ) (t : Table) → IsValid t → IsValid (sweep now_ms t)
unfolding sweep
sweep-IsValid now_ms t v = record {
  counted = λ name. held-count_headers name (filter_by (is_live now_ms) t.windows);
  capped = λ name. omega (
    arith,
    held-count_headers name (filter_by (is_live now_ms) t.windows),
    headers_in-filter name now_ms t.windows,
    v.counted name,
    v.capped name,
  );
}

pub sweep_if_full-IsValid : (now_ms : ℕ) (t : Table) → IsValid t → IsValid (sweep_if_full now_ms t)
unfolding sweep_if_full
sweep_if_full-IsValid now_ms t v = elim (Bool-cases (ltb t.sweep_at (length t.windows))) [
  | inl e ↦ rw e (sweep-IsValid now_ms t v)
  | inr n ↦ rw n v
]
