-- ===== src/Auth/RateLimit/Tests.antt =====
-- Runs of the limiter at concrete inputs.
use meshive.Prelude.{
  ℕ, ◌*◌, ◌≤◌, ◌≡◌, refl, false, some, List, [], ◌∷◌, arith, leb, is_some, length, count, lookup,
}
use meshive.Auth.RateLimit.{
  second, max_keys, Limiter, retry_after, record_failure, check_and_record,
}
use meshive.Auth.RateLimit.Window.{attempts_of, in_window, retry_after_exact}
use meshive.Auth.RateLimit.Wait.{wait_is_enough}
use meshive.Auth.RateLimit.Capacity.{record_failure_capacity, check_and_record_capacity}
use meshive.Auth.RateLimit.Promise.{admitted, admitted_bounded}

-- Two failures in a window of a minute.
abbrev busy : Limiter
busy = ("host:a", (10 * second) ∷ (20 * second) ∷ []) ∷ ("host:b", (15 * second) ∷ []) ∷ []

refuses_at_limit : (retry_after "host:a" 2 60 (30 * second) busy).0 ≡ some 41
unfolding retry_after lookup
refuses_at_limit = refl

retry_after_exact_example :
    is_some (retry_after "host:a" 2 60 (30 * second) busy).0
    ≡ leb 2 (count (in_window 60 (30 * second)) (attempts_of "host:a" busy))
unfolding lookup
retry_after_exact_example =
    retry_after_exact "host:a" 2 60 (30 * second) busy (omega arith) (omega arith)

wait_is_enough_example :
    is_some
      (retry_after "host:a" 2 60 (71 * second) (retry_after "host:a" 2 60 (30 * second) busy).1).0
    ≡ false
unfolding retry_after lookup
wait_is_enough_example =
    wait_is_enough "host:a" 2 60 (30 * second) (71 * second) busy {r = 41} (omega arith)
      (omega arith) refl (omega arith) (omega arith)

record_failure_capacity_example : length (record_failure "host:c" 60 (75 * second) busy) ≤ max_keys
record_failure_capacity_example =
    record_failure_capacity "host:c" 60 (75 * second) busy (omega arith)

check_and_record_capacity_example :
    length (check_and_record "host:c" 2 60 (75 * second) (76 * second) busy).1 ≤ max_keys
check_and_record_capacity_example =
    check_and_record_capacity "host:c" 2 60 (75 * second) (76 * second) busy (omega arith)

abbrev burst : List (ℕ × ℕ)
burst =
    (1 * second, 1 * second)
    ∷ (2 * second, 3 * second)
    ∷ (4 * second, 4 * second)
    ∷ (70 * second, 70 * second)
    ∷ []

admitted_bounded_example :
    count (in_window 60 (71 * second)) (admitted "host:c" 2 60 [] burst busy).0 ≤ 2
unfolding lookup
admitted_bounded_example =
    admitted_bounded "host:c" 2 60 busy burst (71 * second) (omega arith) refl (omega arith)
      (omega arith)
