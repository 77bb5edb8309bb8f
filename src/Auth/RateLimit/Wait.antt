-- ===== src/Auth/RateLimit/Wait.antt =====
-- auth/rate_limit.py: the number of seconds that a refusal names.
use meshive.Prelude.{
  ℕ, ◌+◌, ◌*◌, ◌≤◌, ◌<◌, String, ◌≡◌, ap, sym, ◌∙◌, true, false, some, ◌∷◌, arith, leb, is_some,
  length, count, count-le-length,
}
use mathlib.Core.Path.{subst}
use meshive.Auth.RateLimit.{second, Attempts, Limiter, is_expired, discard_expired, retry_after}
use meshive.Auth.RateLimit.Window.{
  Ascending, attempts_of, in_window, count_of_recent, length-discard_expired,
  discard_expired-Ascending, wait_upper, wait_lower, first_recent, attempts_of-retry_after,
  retry_after-refused, retry_after_exact,
}

count_after_wait :
    (w later first : ℕ) (rest d : Attempts)
    → d ≡ first ∷ rest
    → is_expired w later first ≡ true
    → count (in_window w later) d < length d
count_after_wait w later first rest d e h =
    rw e (ground (arith, count-le-length (in_window w later) rest))

module _ (key : String) (limit w now later : ℕ) (s : Limiter) {r : ℕ} (positive : 0 < limit)
    (ordered : Ascending (attempts_of key s))
    (told : (retry_after key limit w now s).0 ≡ some r) where
  left_exact :
      is_some (retry_after key limit w later (retry_after key limit w now s).1).0
      ≡ leb limit (count (in_window w later) (discard_expired w now (attempts_of key s)))
  left_exact =
      retry_after_exact key limit w later (retry_after key limit w now s).1 positive (
        subst Ascending (sym (attempts_of-retry_after key limit w now s))
          (discard_expired-Ascending w now (attempts_of key s) ordered))
      ∙ ap (λ d. leb limit (count (in_window w later) d))
          (attempts_of-retry_after key limit w now s)

  -- A key that holds no more failures than the limit, and makes no attempt, is free again once it
  -- has waited for as many seconds as it was told.
  pub wait_is_enough :
      count (in_window w now) (attempts_of key s) ≤ limit
      → now + r * second ≤ later
      → is_some (retry_after key limit w later (retry_after key limit w now s).1).0 ≡ false
  wait_is_enough held waited =
      let (first, rest, e, wait, full) = retry_after-refused key limit w now s r told in
      left_exact
      ∙ ground (
        arith,
        count_after_wait w later first rest _ e (wait_upper w now first later r wait waited),
        length-discard_expired w now (attempts_of key s) ordered,
      )

  -- A key that comes back more than a second before the wait is over is refused again.
  wait_is_needed :
      later + second < now + r * second
      → is_some (retry_after key limit w later (retry_after key limit w now s).1).0 ≡ true
  wait_is_needed early =
      let (first, rest, e, wait, full) = retry_after-refused key limit w now s r told in
      let sorted : Ascending (first ∷ rest) =
        subst Ascending e (discard_expired-Ascending w now (attempts_of key s) ordered) in
      let recent = wait_lower w now first later r wait (first_recent w now _ first rest e) early in
      left_exact
      ∙ rw e (
          ground (
            arith,
            ap length e,
            count_of_recent w later (first ∷ rest) first recent (omega arith, sorted.0),
          ))
