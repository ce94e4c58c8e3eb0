-- ===== src/RateLimit/Runs.antt =====
-- How many requests a window lets through, whatever else is counted in between:
-- crates/gapura/src/proxy/rate_limit.rs.
use gapura.Prelude.{
  ℕ, suc, ◌-◌, ◌+◌, min, ◌<◌, ◌≤◌, ◌≡◌, inl, inr, refl, ap, Bool, true, false, ◌&&◌, Option, none,
  some, List, [], ◌∷◌, arith, if◌then◌else◌, Bool-cases, All, Text,
}
use gapura.ClientIp.{IpAddr}
use gapura.Config.{RateLimit}
use gapura.RateLimit.{
  Outcome, Client, Key, Table, same_key, sweep_if_full, admit, counted_client, window_end, count_in,
  count_as, check_at,
}
use gapura.RateLimit.Keys.{same_key→eq}
use gapura.RateLimit.Windows.{
  count_at, is_allowed, sweep_if_full-count, admit-count, let_through, refused, count_in_same,
  count_in_other,
}

-- One request's check, and the client that it is counted as: none where it is not counted.
pub record Check : Type 0 where
  pub name : Text
  pub who : Client
  pub addr : Option IpAddr
  pub rl : RateLimit
  pub now_ms : ℕ

abbrev pub step : Check → Table → Outcome × Table
step c t = check_at c.name c.who c.addr c.rl c.now_ms t

abbrev admitted : Check → Table → Option Client × Table
admitted c t = admit c.name (counted_client c.who) c.addr c.now_ms (sweep_if_full c.now_ms t)

abbrev pub counts_under : Key → Check → Table → Bool
counts_under k c t = elim (admitted c t).0 [ none ↦ false | some j ↦ same_key (c.name, j) k ]

-- How many of these checks, one after the other, let a request through that counts under the key.
unfoldable pub tally : Key → List Check → Table → ℕ
tally k [] t = 0
tally k (c ∷ cs) t =
    let rest = tally k cs (step c t).1 in
    if counts_under k c t && is_allowed (step c t).0 then suc rest else rest

-- The check is made before the end of the window, and where its name is the key's it is by the
-- rule whose window that is.
abbrev pub IsInWindow : Key → ℕ → ℕ → Check → Type 0
IsInWindow k ends_ms limit c =
    (c.now_ms < ends_ms)
    × (c.name ≡ k.0 → (window_end c.rl c.now_ms ≡ ends_ms) × (c.rl.limit ≡ limit))

-- One check adds one to the key's count for a request it lets through under the key, which then
-- was below the limit, and takes nothing from it otherwise.
data Kept (limit before : ℕ) (counts : Bool) (after : ℕ) : Type 0 where
  added : counts ≡ true → suc before ≤ after → after ≤ limit → Kept limit before counts after
  kept : counts ≡ false → before ≤ after → Kept limit before counts after

count_in-Kept :
    (k : Key) (e limit before : ℕ) (rl : RateLimit) (now_ms : ℕ) (t : Table)
    → window_end rl now_ms ≡ e
    → rl.limit ≡ limit
    → before ≤ count_at k e t
    → Kept limit before
        (is_allowed (count_in k rl now_ms t).0)
        (count_at k e (count_in k rl now_ms t).1)
count_in-Kept k e limit before rl now_ms t p q h =
    let h' : before ≤ count_at k (window_end rl now_ms) t = rw p h in
    rw (← p) (elim (count_in_same k rl now_ms t) [
      | let_through a lt d ↦ added (rw a refl) (omega (arith, h', d)) (omega (arith, q, lt, d))
      | refused a d ↦ kept a (omega (arith, h', d))
    ])

count_as-Kept :
    (k : Key) (e limit before : ℕ) (c : Check) (x : Option Client × Table)
    → IsInWindow k e limit c
    → before ≤ count_at k e x.1
    → Kept limit before
        ((elim x.0 [ none ↦ false | some j ↦ same_key (c.name, j) k ])
          && is_allowed (count_as c.name c.rl c.now_ms x).0)
        (count_at k e (count_as c.name c.rl c.now_ms x).1)
unfolding count_as
count_as-Kept k e limit before c (none, t) i h = kept refl h
count_as-Kept k e limit before c (some j, t) i h = elim (Bool-cases (same_key (c.name, j) k)) [
  | inr n ↦ rw n (kept refl (omega (arith, h, count_in_other (c.name, j) k e c.rl c.now_ms t n)))
  | inl q ↦
      let eq = same_key→eq (c.name, j) k q in
      let rule = i.1 (ap (λ (x : Key). x.0) eq) in
      rw q (rw eq (count_in-Kept k e limit before c.rl c.now_ms t rule.0 rule.1 h))
]

step-Kept :
    (k : Key) (e limit : ℕ) (c : Check) (t : Table)
    → IsInWindow k e limit c
    → Kept limit
        (count_at k e t)
        (counts_under k c t && is_allowed (step c t).0)
        (count_at k e (step c t).1)
unfolding check_at
step-Kept k e limit c t i = count_as-Kept k e limit (count_at k e t) c (admitted c t) i (
    omega (
      arith,
      sweep_if_full-count k e c.now_ms t i.0,
      admit-count k e c.name (counted_client c.who) c.addr c.now_ms (sweep_if_full c.now_ms t) i.0,
    ))

tally-le :
    (k : Key) (e limit : ℕ) (cs : List Check) (t : Table)
    → All (IsInWindow k e limit) cs
    → tally k cs t ≤ limit - count_at k e t
unfolding tally
tally-le k e limit [] t h = omega arith
tally-le k e limit (c ∷ cs) t h =
    let rest = tally-le k e limit cs (step c t).1 h.1 in
    elim (step-Kept k e limit c t h.0) [
      | added a up top ↦ rw a (omega (arith, rest, up, top))
      | kept a up ↦ rw a (omega (arith, rest, up))
    ]

-- Of checks made within one window of a rule, no more than the rule's limit let through a request
-- that counts under a client's key, from any table on and whatever other names, rules and clients
-- are checked in between; what the window has counted before comes off the limit. No flood and no
-- sweep hands a live window's count back to its client.
pub check_at-limit :
    (k : Key) (e limit : ℕ) (cs : List Check) (t : Table)
    → All (IsInWindow k e limit) cs
    → tally k cs t + min (count_at k e t) limit ≤ limit
check_at-limit k e limit cs t h = omega (arith, tally-le k e limit cs t h)
