-- ===== src/Auth/RateLimit.antt =====
-- backend/meshive/auth/rate_limit.py. Instants are nanoseconds of the monotonic clock, and each
-- method is given the instant that it reads. A method returns the new dictionary beside its answer;
-- the lock makes `retry_after`, `record_failure`, `clear` and `reset` one step each.
pub mod Window
pub mod Wait
pub mod Promise
pub mod Capacity
pub mod Tests
use meshive.Prelude.{
  ℕ, suc, ◌+◌, ◌-◌, ◌*◌, ◌/◌, max, String, Bool, true, false, Option, none, some, List, [], ◌∷◌,
  ◌++◌, ◌&&◌, not, ltb, leb, if◌then◌else◌, is_some, length, string_eq, Dict, lookup, insert,
  remove,
}

abbrev pub second : ℕ
second = 1000000000

abbrev pub max_keys : ℕ
max_keys = 10000

-- A `deque` of instants, oldest first.
abbrev pub Attempts : Type 0
Attempts = List ℕ

abbrev pub Limiter : Type 0
Limiter = Dict String Attempts

-- An attempt has left the window: `attempt <= now - window_seconds`.
abbrev pub is_expired : ℕ → ℕ → ℕ → Bool
is_expired window_seconds now attempt = leb (attempt + window_seconds * second) now

-- `_discard_expired`: the `while` loop stops at the first attempt that is not expired.
unfoldable pub discard_expired : ℕ → ℕ → Attempts → Attempts
discard_expired window_seconds now [] = []
discard_expired window_seconds now (a ∷ attempts) =
    let rest = discard_expired window_seconds now attempts in
    if is_expired window_seconds now a then rest else a ∷ attempts

-- `max(1, int(window_seconds - (now - attempts[0])) + 1)`. The first attempt is not expired here,
-- so the difference is not negative and `int` rounds down.
unfoldable pub wait_seconds : ℕ → ℕ → ℕ → ℕ
wait_seconds window_seconds now first = max 1 ((window_seconds * second + first - now) / second + 1)

retry_after_found : String → ℕ → ℕ → ℕ → Attempts → Limiter → Option ℕ × Limiter
retry_after_found key limit window_seconds now [] s = (none, remove key s)
retry_after_found key limit window_seconds now (first ∷ rest) s =
    if ltb (length (first ∷ rest)) limit
    then (none, insert key (first ∷ rest) s)
    else (some (wait_seconds window_seconds now first), insert key (first ∷ rest) s)

retry_after_of : String → ℕ → ℕ → ℕ → Option Attempts → Limiter → Option ℕ × Limiter
unfolding retry_after_found discard_expired
retry_after_of key limit window_seconds now none s = (none, s)
retry_after_of key limit window_seconds now (some attempts) s =
    retry_after_found key limit window_seconds now (discard_expired window_seconds now attempts) s

unfoldable pub retry_after : String → ℕ → ℕ → ℕ → Limiter → Option ℕ × Limiter
unfolding retry_after_of wait_seconds
retry_after key limit window_seconds now s =
    retry_after_of key limit window_seconds now (lookup key s) s

-- `_remove_expired_keys`: every deque is cut, and the keys left empty are dropped.
unfoldable pub remove_expired_keys : ℕ → ℕ → Limiter → Limiter
remove_expired_keys window_seconds now [] = []
remove_expired_keys window_seconds now ((key, attempts) ∷ s) =
    let rest = remove_expired_keys window_seconds now s in
    elim (discard_expired window_seconds now attempts) [
      | [] ↦ rest
      | a ∷ as' ↦ (key, a ∷ as') ∷ rest
    ]

-- `self._attempts.pop(next(iter(self._attempts)))`
abbrev drop_first : Limiter → Limiter
drop_first [] = []
drop_first (item ∷ s) = s

evict : Limiter → Limiter
evict s = if leb max_keys (length s) then drop_first s else s

make_room : String → ℕ → ℕ → Limiter → Limiter
unfolding evict
make_room key window_seconds now s =
    if not (is_some (lookup key s)) && leb max_keys (length s)
    then evict (remove_expired_keys window_seconds now s)
    else s

-- `setdefault(key, deque())`
abbrev attempts_or_empty : Option Attempts → Attempts
attempts_or_empty none = []
attempts_or_empty (some attempts) = attempts

unfoldable pub record_failure : String → ℕ → ℕ → Limiter → Limiter
unfolding make_room
record_failure key window_seconds now s =
    let t = make_room key window_seconds now s in
    insert key (discard_expired window_seconds now (attempts_or_empty (lookup key t)) ++ now ∷ []) t

unfoldable pub clear : String → Limiter → Limiter
clear key s = remove key s

unfoldable pub reset : Limiter → Limiter
reset s = []

unfoldable pub record_unless : Option ℕ → String → ℕ → ℕ → Limiter → Option ℕ × Limiter
record_unless (some wait) key window_seconds now s = (some wait, s)
record_unless none key window_seconds now s = (none, record_failure key window_seconds now s)

-- `RequestRateLimiter.check_and_record`: the two calls in a row. Each takes the lock and reads the
-- clock for itself, so a request of another thread may come between them; here none does.
unfoldable pub check_and_record : String → ℕ → ℕ → ℕ → ℕ → Limiter → Option ℕ × Limiter
unfolding record_unless
check_and_record key limit window_seconds now later s =
    let (wait, t) = retry_after key limit window_seconds now s in
    record_unless wait key window_seconds later t
