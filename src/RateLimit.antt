-- ===== src/RateLimit.antt =====
-- Request limits by fixed windows: crates/gapura/src/proxy/rate_limit.rs. The table's lock makes a
-- check one step on the table; the clock's reading is an argument, and the digest of a header's
-- value a parameter.
pub mod Keys
pub mod Headers
pub mod Counts
pub mod Windows
pub mod Runs
pub mod Clients
pub mod Tests
use gapura.Prelude.{
  ℕ, zero, suc, ◌+◌, ◌-◌, ◌*◌, ◌/◌, ◌%◌, ◌^◌, Bool, true, false, not, ◌&&◌, ◌||◌, Option, none,
  some, List, [], ◌∷◌, ltb, leb, ◌==◌, if◌then◌else◌, min, max, length, filter_by, Text, text_eq,
  eq_ignore_ascii_case,
}
use gapura.ClientIp.{IpAddr, v4, v6, same_ip, to_canonical}
use gapura.Config.{LimitBy, ip, consumer, header, RateLimit}

pub data Outcome : Type 0 where
  allowed : Outcome
  limited : (limit retry_after_secs : ℕ) → Outcome

-- A header's value stands as its digest, a number of 128 bits.
pub data Client : Type 0 where
  by_ip : IpAddr → Client
  by_consumer : Text → Client
  by_header : ℕ → Client

-- `HeaderMap::get_all`.
abbrev pub values_of : Text → List (Text × Text) → List Text
values_of name [] = []
values_of name ((n, v) ∷ rest) =
    let more = values_of name rest in if eq_ignore_ascii_case n name then v ∷ more else more

abbrev pub is_nil : Text → Bool
is_nil [] = true
is_nil (c ∷ s) = false

-- The client that exactly one non-empty line names.
unfoldable pub named_by_header : (Text → ℕ) → List Text → Option Client
named_by_header digest [] = none
named_by_header digest (v ∷ []) = if is_nil v then none else some (by_header (digest v))
named_by_header digest (v ∷ w ∷ rest) = none

abbrev pub address_client : Option IpAddr → Option Client
address_client none = none
address_client (some a) = some (by_ip a)

unfoldable pub named_client :
    (Text → ℕ) → LimitBy → Option Text → List (Text × Text) → Option Client
named_client digest ip who headers = none
named_client digest consumer who headers = elim who [ none ↦ none | some c ↦ some (by_consumer c) ]
named_client digest (header name) who headers = named_by_header digest (values_of name headers)

unfoldable pub client :
    (Text → ℕ) → LimitBy → Option IpAddr → Option Text → List (Text × Text) → Option Client
client digest by addr who headers = elim (named_client digest by who headers) [
  | some c ↦ some c
  | none ↦ address_client addr
]

abbrev pub sweep_floor : ℕ
sweep_floor = 65536

abbrev pub header_cap : ℕ
header_cap = 65536

abbrev pub capped_sweep_ms : ℕ
capped_sweep_ms = 1000

abbrev pub u64_max : ℕ
u64_max = 2 ^ 64 - 1

pub record Window : Type 0 where
  pub ends_ms : ℕ
  pub count : ℕ

-- A window's name and its client.
abbrev pub Key : Type 0
Key = Text × Client

pub record Table : Type 0 where
  pub windows : List (Key × Window)
  pub sweep_at : ℕ
  pub header_windows : List (Text × ℕ)
  pub swept_ms : ℕ

abbrev pub new_table : Table
new_table = record { windows = []; sweep_at = sweep_floor; header_windows = []; swept_ms = 0 }

-- `==` of clients and of keys.
abbrev pub same_client : Client → Client → Bool
same_client (by_ip a) (by_ip b) = same_ip a b
same_client (by_consumer a) (by_consumer b) = text_eq a b
same_client (by_header a) (by_header b) = a == b
same_client (by_ip a) (by_consumer b) = false
same_client (by_ip a) (by_header b) = false
same_client (by_consumer a) (by_ip b) = false
same_client (by_consumer a) (by_header b) = false
same_client (by_header a) (by_ip b) = false
same_client (by_header a) (by_consumer b) = false

unfoldable pub same_key : Key → Key → Bool
same_key (n, c) (m, d) = text_eq n m && same_client c d

-- `HashMap::get` and `HashMap::insert`.
unfoldable pub find_window : Key → List (Key × Window) → Option Window
find_window k [] = none
find_window k ((j, w) ∷ rest) = if same_key j k then some w else find_window k rest

unfoldable pub set_window : Key → Window → List (Key × Window) → List (Key × Window)
set_window k w [] = (k, w) ∷ []
set_window k w ((j, v) ∷ rest) =
    let more = set_window k w rest in if same_key j k then (j, w) ∷ rest else (j, v) ∷ more

unfoldable pub held_in : Text → List (Text × ℕ) → ℕ
held_in name [] = 0
held_in name ((n, count) ∷ rest) = if text_eq n name then count else held_in name rest

abbrev pub held : Table → Text → ℕ
held t name = held_in name t.header_windows

unfoldable pub add_header_window : Text → List (Text × ℕ) → List (Text × ℕ)
add_header_window name [] = (name, 1) ∷ []
add_header_window name ((n, count) ∷ rest) =
    let more = add_header_window name rest in
    if text_eq n name then (n, suc count) ∷ rest else (n, count) ∷ more

unfoldable pub count_headers : List (Key × Window) → List (Text × ℕ)
count_headers [] = []
count_headers (((n, by_ip a), w) ∷ rest) = count_headers rest
count_headers (((n, by_consumer c), w) ∷ rest) = count_headers rest
count_headers (((n, by_header d), w) ∷ rest) = add_header_window n (count_headers rest)

abbrev pub is_live : ℕ → Key × Window → Bool
is_live now_ms x = ltb now_ms x.1.ends_ms

unfoldable pub sweep : ℕ → Table → Table
sweep now_ms t =
    let windows = filter_by (is_live now_ms) t.windows in
    record {
      windows = windows;
      sweep_at = max (length windows * 2) sweep_floor;
      header_windows = count_headers windows;
      swept_ms = now_ms;
    }

unfoldable pub grouped : IpAddr → IpAddr
grouped addr = elim (to_canonical addr) [ v6 n ↦ v6 (n / 2 ^ 64 * 2 ^ 64) | v4 n ↦ v4 n ]

unfoldable pub counted_client : Client → Client
counted_client (by_ip a) = by_ip (grouped a)
counted_client (by_consumer c) = by_consumer c
counted_client (by_header d) = by_header d

-- `window_ms.max(1)`, and the end of the window that a time lies in.
unfoldable pub window_end : RateLimit → ℕ → ℕ
window_end rl now_ms =
    let window_ms = max rl.window_ms 1 in (now_ms / window_ms + 1) * window_ms % 2 ^ 64

unfoldable pub sweep_if_full : ℕ → Table → Table
sweep_if_full now_ms t = if ltb t.sweep_at (length t.windows) then sweep now_ms t else t

unfoldable pub sweep_if_capped : Text → ℕ → Table → Table
sweep_if_capped name now_ms t =
    let due = ltb now_ms t.swept_ms || leb (min (t.swept_ms + capped_sweep_ms) u64_max) now_ms in
    if leb header_cap (held t name) && due then sweep now_ms t else t

-- A request without an address is not counted.
abbrev pub fallback_client : Option IpAddr → Option Client
fallback_client none = none
fallback_client (some a) = some (by_ip (grouped a))

-- Whom a new header value counts as: itself, with a window of its own to come, or at the cap the
-- address, or no one.
unfoldable pub open_header : Text → ℕ → Option IpAddr → Table → Option Client × Table
open_header name digest addr t =
    if leb header_cap (held t name) then (fallback_client addr, t) else (
      some (by_header digest),
      record t { header_windows = add_header_window name t.header_windows },
    )

unfoldable pub admit : Text → Client → Option IpAddr → ℕ → Table → Option Client × Table
admit name (by_ip a) addr now_ms t = (some (by_ip a), t)
admit name (by_consumer c) addr now_ms t = (some (by_consumer c), t)
admit name (by_header d) addr now_ms t = elim (find_window (name, by_header d) t.windows) [
  | some w ↦ (some (by_header d), t)
  | none ↦ open_header name d addr (sweep_if_capped name now_ms t)
]

-- The window that a request counts in: the key's, unless there is none or it ends at another time.
unfoldable pub current : Key → ℕ → List (Key × Window) → Window
current k ends_ms windows = elim (find_window k windows) [
  | none ↦ record { ends_ms = ends_ms; count = 0 }
  | some w ↦ if w.ends_ms == ends_ms then w else record { ends_ms = ends_ms; count = 0 }
]

unfoldable pub count_in : Key → RateLimit → ℕ → Table → Outcome × Table
count_in k rl now_ms t =
    let ends_ms = window_end rl now_ms in
    let w = current k ends_ms t.windows in
    if leb rl.limit w.count
    then (
      limited rl.limit (max ((ends_ms - now_ms) / 1000) 1),
      record t { windows = set_window k w t.windows },
    )
    else (allowed, record t { windows = set_window k (record w { count = suc w.count }) t.windows })

-- Once the client is known; an unaddressed request at the cap is not counted.
unfoldable pub count_as : Text → RateLimit → ℕ → Option Client × Table → Outcome × Table
count_as name rl now_ms (none, t) = (allowed, t)
count_as name rl now_ms (some c, t) = count_in (name, c) rl now_ms t

unfoldable pub check_at : Text → Client → Option IpAddr → RateLimit → ℕ → Table → Outcome × Table
check_at name who addr rl now_ms t =
    count_as name rl now_ms (admit name (counted_client who) addr now_ms (sweep_if_full now_ms t))
