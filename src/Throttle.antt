-- ===== src/Throttle.antt =====
-- The limits on failed sign-ins and on sign-ups: crates/gapura-control/src/throttle.rs. The lock on
-- the counters makes each operation one step on them; an instant is a number of nanoseconds,
-- and a name stands as its digest. `none` is the panic of a key that the policy has no rule for.
pub mod Attempts
pub mod Entries
pub mod Held
pub mod Settling
pub mod Keys
pub mod Ready
pub mod Reserving
pub mod Reservations
pub mod Tests
use gapura.Prelude.{
  ℕ, ◌+◌, ◌-◌, ◌*◌, ◌%◌, ◌^◌, Bool, true, false, not, ◌&&◌, Option, none, some, List, [], ◌∷◌, ◌++◌,
  ltb, leb, ◌==◌, if◌then◌else◌, max, length, get_elem?, and_then, Result, ok, err,
}
use gapura.ClientIp.{IpAddr, same_ip}

pub record Rule : Type 0 where
  pub limit : ℕ
  pub window : ℕ
  pub lock : ℕ

-- `Duration::from_secs`.
abbrev pub secs : ℕ → ℕ
secs n = n * 10 ^ 9

abbrev pub pair_rule : Rule
pair_rule = record { limit = 5; window = secs (15 * 60); lock = secs (15 * 60) }

abbrev pub address_rule : Rule
address_rule = record { limit = 10; window = secs (60); lock = secs (60) }

abbrev pub sign_up_burst : Rule
sign_up_burst = record { limit = 5; window = secs (10 * 60); lock = secs (10 * 60) }

abbrev pub sign_up_day : Rule
sign_up_day = record { limit = 20; window = secs (24 * 60 * 60); lock = secs (24 * 60 * 60) }

pub data Outcome : Type 0 where
  failed succeeded refunded : Outcome

pub record Policy : Type 0 where
  pub pair : Option Rule
  pub address : List Rule
  pub fail_closed : Bool
  pub on_drop : Outcome

abbrev pub sign_in : Policy
sign_in = record {
  pair = some pair_rule;
  address = address_rule ∷ [];
  fail_closed = false;
  on_drop = refunded;
}

abbrev pub sign_up : Policy
sign_up = record {
  pair = none;
  address = sign_up_burst ∷ sign_up_day ∷ [];
  fail_closed = true;
  on_drop = failed;
}

-- A digest with an address, and an address under the rule at an index.
pub data Key : Type 0 where
  by_pair : ℕ → IpAddr → Key
  by_address : IpAddr → ℕ → Key

abbrev pub same_key : Key → Key → Bool
same_key (by_pair d a) (by_pair e b) = d == e && same_ip a b
same_key (by_pair d a) (by_address b i) = false
same_key (by_address a i) (by_pair e b) = false
same_key (by_address a i) (by_address b j) = same_ip a b && i == j

abbrev pub is_pair : Key → Bool
is_pair (by_pair d a) = true
is_pair (by_address a i) = false

unfoldable pub rule_of : Policy → Key → Option Rule
rule_of policy (by_pair d a) = policy.pair
rule_of policy (by_address a i) = get_elem? policy.address i

pub record Counter : Type 0 where
  pub failures : ℕ
  pub pending : ℕ
  pub since : ℕ
  pub locked_until : Option ℕ

abbrev pub fresh : ℕ → Counter
fresh now = record { failures = 0; pending = 0; since = now; locked_until = none }

unfoldable pub locked : ℕ → Counter → Option ℕ
locked now c = elim c.locked_until [
  | none ↦ none
  | some until ↦ if ltb now until then some (until - now) else none
]

abbrev pub is_locked : ℕ → Counter → Bool
is_locked now c = elim (locked now c) [ none ↦ false | some left ↦ true ]

unfoldable pub lapsed : Rule → ℕ → Counter → Bool
lapsed rule now c = not (is_locked now c) && leb (c.since + rule.window) now

unfoldable pub expired : Rule → ℕ → Counter → Bool
expired rule now c = c.pending == 0 && lapsed rule now c

-- The failures that still count.
abbrev pub counted_failures : Rule → ℕ → Counter → ℕ
counted_failures rule now c = if lapsed rule now c then 0 else c.failures

unfoldable pub wait : Rule → ℕ → Counter → Option ℕ
wait rule now c = elim (locked now c) [
  | some left ↦ some left
  | none ↦
      if leb rule.limit ((counted_failures rule now c + c.pending) % 2 ^ 32)
      then some rule.lock
      else none
]

-- What `counter` makes of the entry that it finds.
unfoldable pub restarted : Rule → ℕ → Counter → Counter
restarted rule now c = if lapsed rule now c then record (fresh now) { pending = c.pending } else c

-- `counter.pending += 1`.
unfoldable pub reserved_in : Counter → Counter
reserved_in c = record c { pending = (c.pending + 1) % 2 ^ 32 }

-- `saturating_sub(1)`.
unfoldable pub given_back : Counter → Counter
given_back c = record c { pending = c.pending - 1 }

unfoldable pub failed_in : Rule → ℕ → Counter → Counter
failed_in rule now c =
    let failures = (c.failures + 1) % 2 ^ 32 in
    if leb rule.limit failures && not (is_locked now c)
    then record c { failures = failures; locked_until = some (now + rule.lock) }
    else record c { failures = failures }

unfoldable pub cleared : Counter → Counter
cleared c = record c { failures = 0; locked_until = none }

abbrev pub Counters : Type 0
Counters = List (Key × Counter)

unfoldable pub find_counter : Key → Counters → Option Counter
find_counter k [] = none
find_counter k ((j, c) ∷ cs) = if same_key j k then some c else find_counter k cs

unfoldable pub set_counter : Key → Counter → Counters → Counters
set_counter k c [] = (k, c) ∷ []
set_counter k c ((j, d) ∷ cs) =
    let rest = set_counter k c cs in if same_key j k then (j, c) ∷ cs else (j, d) ∷ rest

unfoldable pub remove_counter : Key → Counters → Counters
remove_counter k [] = []
remove_counter k ((j, c) ∷ cs) =
    let rest = remove_counter k cs in if same_key j k then rest else (j, c) ∷ rest

-- `get_mut(&key)`, with a change of what is there.
abbrev pub change : Key → (Counter → Counter) → Counters → Counters
change k f cs = elim (find_counter k cs) [ none ↦ cs | some c ↦ set_counter k (f c) cs ]
