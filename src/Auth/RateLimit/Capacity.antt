-- ===== src/Auth/RateLimit/Capacity.antt =====
-- auth/rate_limit.py: what `record_failure` stores, and how much the limiter can hold.
use meshive.Prelude.{
  ℕ, suc, ◌≤◌, ◌<◌, String, ◌≡◌, refl, true, Option, none, if◌then◌else◌, some, [], ◌∷◌, ◌++◌,
  arith, is_some, length, string_eq, beq_refl, lookup, insert, lookup-insert, length-insert,
  length-remove,
}
use meshive.Auth.RateLimit.{
  max_keys, Attempts, Limiter, discard_expired, retry_after_found, retry_after_of, retry_after,
  remove_expired_keys, drop_first, make_room, record_failure, record_unless, check_and_record,
}
use meshive.Auth.RateLimit.Window.{attempts_of}

pub length-discard_expired_le :
    (w now : ℕ) (as' : Attempts) → length (discard_expired w now as') ≤ length as'
unfolding discard_expired
length-discard_expired_le w now [] = omega arith
length-discard_expired_le w now (a ∷ as') = ground (arith, length-discard_expired_le w now as')

module _ (w now : ℕ) where
  length-remove_expired_keys : (s : Limiter) → length (remove_expired_keys w now s) ≤ length s
  unfolding remove_expired_keys
  length-remove_expired_keys [] = omega arith
  length-remove_expired_keys ((k, as') ∷ s) = ground (arith, length-remove_expired_keys s)

  lookup-remove_expired_keys :
      (key : String) (s : Limiter)
      → lookup key s ≡ none
      → lookup key (remove_expired_keys w now s) ≡ none
  unfolding remove_expired_keys lookup
  lookup-remove_expired_keys key [] h = refl
  lookup-remove_expired_keys key ((k, as') ∷ s) h = ground (arith, lookup-remove_expired_keys key s)

lookup-drop_first :
    (key : String) (s : Limiter) → lookup key s ≡ none → lookup key (drop_first s) ≡ none
unfolding lookup
lookup-drop_first key [] h = refl
lookup-drop_first key ((k, as') ∷ s) h = ground arith

length-drop_first : (s : Limiter) → 0 < length s → suc (length (drop_first s)) ≡ length s
length-drop_first [] h = elim h [ ]
length-drop_first (x ∷ s) h = refl

lookup-make_room :
    (key : String) (w now : ℕ) (s : Limiter) → lookup key (make_room key w now s) ≡ lookup key s
unfolding make_room
lookup-make_room key w now s = ground (
  arith,
  lookup-drop_first key (remove_expired_keys w now s),
  lookup-remove_expired_keys w now key s,
)

-- A new key finds room.
length-make_room :
    (key : String) (w now : ℕ) (s : Limiter)
    → length s ≤ max_keys
    → (if is_some (lookup key s)
        then length (make_room key w now s)
        else suc (length (make_room key w now s)))
      ≤ max_keys
unfolding make_room
length-make_room key w now s h =
    ground
      (arith, length-drop_first (remove_expired_keys w now s), length-remove_expired_keys w now s)

-- Recording a failure adds the instant to those of the window, also when the dictionary is full
-- and another key has to go.
pub attempts_of-record_failure :
    (key : String) (w now : ℕ) (s : Limiter)
    → attempts_of key (record_failure key w now s)
      ≡ discard_expired w now (attempts_of key s) ++ now ∷ []
unfolding record_failure
attempts_of-record_failure key w now s = rw (lookup-insert, beq_refl, lookup-make_room)

-- The dictionary never holds more than `max_keys` keys.
pub record_failure_capacity :
    (key : String) (w now : ℕ) (s : Limiter)
    → length s ≤ max_keys
    → length (record_failure key w now s) ≤ max_keys
unfolding record_failure
record_failure_capacity key w now s h =
    rw (length-insert, lookup-make_room) (length-make_room key w now s h)

-- A check keeps the bound on the keys.
pub retry_after_capacity :
    (key : String) (limit w now : ℕ) (s : Limiter)
    → length s ≤ max_keys
    → length (retry_after key limit w now s).1 ≤ max_keys
unfolding retry_after
retry_after_capacity key limit w now s h = go (lookup key s) refl
  where
    stored : (d : Attempts) → is_some (lookup key s) ≡ true → length (insert key d s) ≤ max_keys
    stored d e = rw (length-insert, e) h

    found :
        (d : Attempts)
        → is_some (lookup key s) ≡ true
        → length (retry_after_found key limit w now d s).1 ≤ max_keys
    found [] e = omega (arith, length-remove key s)
    found (a ∷ d) e = ground (arith, stored (a ∷ d) e)

    go :
        (o : Option Attempts)
        → lookup key s ≡ o
        → length (retry_after_of key limit w now o s).1 ≤ max_keys
    go none e = h
    go (some as') e = found (discard_expired w now as') (rw e)

-- From a limiter with at most `max_keys` keys, a check that records the request leaves at most as many.
pub check_and_record_capacity :
    (key : String) (limit w now later : ℕ) (s : Limiter)
    → length s ≤ max_keys
    → length (check_and_record key limit w now later s).1 ≤ max_keys
unfolding check_and_record
check_and_record_capacity key limit w now later s h =
    let (answer, t) = retry_after key limit w now s in
    go answer t (retry_after_capacity key limit w now s h)
  where
    go :
        (answer : Option ℕ) (t : Limiter)
        → length t ≤ max_keys
        → length (record_unless answer key w later t).1 ≤ max_keys
    go none t k = record_failure_capacity key w later t k
    go (some r) t k = k
