-- ===== src/Auth/RateLimit/Window.antt =====
-- auth/rate_limit.py: the limiter against the list of failures in the sliding window.
use meshive.Prelude.{
  ℕ, ◌+◌, ◌*◌, ◌≤◌, ◌<◌, String, ◌≡◌, refl, ap, ◌∙◌, inl, inr, Bool, true, false, Option, none,
  some, List, [], ◌∷◌, arith, ltb, leb, is_some, Bool-cases, length, count, All, string_eq,
  beq_refl, lookup, lookup-insert, lookup-remove,
}
use meshive.Auth.RateLimit.{
  second, Attempts, Limiter, is_expired, discard_expired, wait_seconds, attempts_or_empty,
  retry_after_found, retry_after_of, retry_after,
}

abbrev pub Ascending : List ℕ → Type 0
Ascending [] = Unit
Ascending (a ∷ as') = All (λ b. a ≤ b) as' × Ascending as'

-- The failures that the limiter holds for a key.
abbrev pub attempts_of : String → Limiter → Attempts
attempts_of key s = attempts_or_empty (lookup key s)

abbrev pub in_window : ℕ → ℕ → ℕ → Bool
in_window window_seconds now a = ltb now (a + window_seconds * second)

module _ (w now : ℕ) where
  pub count_of_recent :
      (as' : Attempts) (a : ℕ)
      → is_expired w now a ≡ false
      → All (λ b. a ≤ b) as'
      → count (in_window w now) as' ≡ length as'
  count_of_recent [] a h t = refl
  count_of_recent (b ∷ as') a h t = ground (arith, count_of_recent as' a h t.1)

  -- What is left after the cut is what the window holds.
  pub length-discard_expired :
      (as' : Attempts)
      → Ascending as'
      → length (discard_expired w now as') ≡ count (in_window w now) as'
  unfolding discard_expired
  length-discard_expired [] h = refl
  length-discard_expired (a ∷ as') h = ground (
    arith,
    length-discard_expired as' h.1,
    λ (p : is_expired w now a ≡ false). count_of_recent as' a p h.0,
  )

  pub All-discard_expired :
      (P : ℕ → Type 0) (as' : Attempts) → All P as' → All P (discard_expired w now as')
  unfolding discard_expired
  All-discard_expired P [] h = tt
  All-discard_expired P (a ∷ as') h = elim (Bool-cases (is_expired w now a)) [
    | inl e ↦ rw e (All-discard_expired P as' h.1)
    | inr e ↦ rw e h
  ]

  pub discard_expired-Ascending :
      (as' : Attempts) → Ascending as' → Ascending (discard_expired w now as')
  unfolding discard_expired
  discard_expired-Ascending [] h = tt
  discard_expired-Ascending (a ∷ as') h = elim (Bool-cases (is_expired w now a)) [
    | inl e ↦ rw e (discard_expired-Ascending as' h.1)
    | inr e ↦ rw e h
  ]

module _ (key : String) (limit w now : ℕ) (s : Limiter) where
  found_exact :
      (d : Attempts)
      → 0 < limit
      → is_some (retry_after_found key limit w now d s).0 ≡ leb limit (length d)
  unfolding retry_after_found
  found_exact [] l = ground arith
  found_exact (a ∷ d) l = ground arith

  of_exact :
      (o : Option Attempts)
      → 0 < limit
      → Ascending (attempts_or_empty o)
      → is_some (retry_after_of key limit w now o s).0
        ≡ leb limit (count (in_window w now) (attempts_or_empty o))
  unfolding retry_after_of
  of_exact none l h = ground arith
  of_exact (some a) l h =
      found_exact (discard_expired w now a) l ∙ ap (leb limit) (length-discard_expired w now a h)

-- A key is refused exactly when the window holds at least `limit` of its failures.
pub retry_after_exact :
    (key : String) (limit w now : ℕ) (s : Limiter)
    → 0 < limit
    → Ascending (attempts_of key s)
    → is_some (retry_after key limit w now s).0
      ≡ leb limit (count (in_window w now) (attempts_of key s))
unfolding retry_after
retry_after_exact key limit w now s l h = of_exact key limit w now s (lookup key s) l h

-- The first attempt is in the window until the wait is over.
pub wait_upper :
    (w now first later r : ℕ)
    → wait_seconds w now first ≡ r
    → now + r * second ≤ later
    → is_expired w later first ≡ true
unfolding wait_seconds
wait_upper w now first later r e h = ground arith

pub wait_lower :
    (w now first later r : ℕ)
    → wait_seconds w now first ≡ r
    → is_expired w now first ≡ false
    → later + second < now + r * second
    → is_expired w later first ≡ false
unfolding wait_seconds
wait_lower w now first later r e f h = ground arith

module _ (key : String) (limit w now : ℕ) where
  of_state :
      (o : Option Attempts) (s : Limiter)
      → lookup key s ≡ o
      → attempts_of key (retry_after_of key limit w now o s).1
        ≡ discard_expired w now (attempts_or_empty o)
  unfolding retry_after_of
  of_state none s h = rw h
  of_state (some a) s h = found_state (discard_expired w now a)
    where
      found_state : (d : Attempts) → attempts_of key (retry_after_found key limit w now d s).1 ≡ d
      found_state [] = rw (lookup-remove, beq_refl)
      found_state (b ∷ d) = elim (Bool-cases (ltb (length (b ∷ d)) limit)) [
        | inl e ↦ rw (e, lookup-insert, beq_refl)
        | inr e ↦ rw (e, lookup-insert, beq_refl)
      ]

  -- A check leaves a key with its failures of the window.
  pub attempts_of-retry_after :
      (s : Limiter)
      → attempts_of key (retry_after key limit w now s).1
        ≡ discard_expired w now (attempts_of key s)
  unfolding retry_after
  attempts_of-retry_after s = of_state (lookup key s) s refl

  found_refused :
      (d : Attempts) (s : Limiter) (r : ℕ)
      → (retry_after_found key limit w now d s).0 ≡ some r
      → (first : ℕ) × (rest : Attempts) × (d ≡ first ∷ rest)
        × (wait_seconds w now first ≡ r)
        × (limit ≤ length d)
  unfolding retry_after_found
  found_refused [] s r h = cc
  found_refused (a ∷ d) s r h = (a, d, refl, ground arith, ground arith)

  refused :
      (s : Limiter) (r : ℕ) (o : Option Attempts)
      → (retry_after_of key limit w now o s).0 ≡ some r
      → (first : ℕ) × (rest : Attempts) × (discard_expired w now (attempts_or_empty o)
          ≡ first ∷ rest)
        × (wait_seconds w now first ≡ r)
        × (limit ≤ length (discard_expired w now (attempts_or_empty o)))
  unfolding retry_after_of
  refused s r none h = cc
  refused s r (some a) h = found_refused (discard_expired w now a) s r h

-- What a refusal shows: the oldest failure of the window, and the wait computed from it.
pub retry_after-refused :
    (key : String) (limit w now : ℕ) (s : Limiter) (r : ℕ)
    → (retry_after key limit w now s).0 ≡ some r
    → (first : ℕ) × (rest : Attempts) × (discard_expired w now (attempts_of key s) ≡ first ∷ rest)
      × (wait_seconds w now first ≡ r)
      × (limit ≤ length (discard_expired w now (attempts_of key s)))
unfolding retry_after
retry_after-refused key limit w now s r = refused key limit w now s r (lookup key s)

pub first_recent :
    (w now : ℕ) (as' : Attempts) (first : ℕ) (rest : Attempts)
    → discard_expired w now as' ≡ first ∷ rest
    → is_expired w now first ≡ false
unfolding discard_expired
first_recent w now [] first rest h = cc
first_recent w now (a ∷ as') first rest h = ground (arith, first_recent w now as' first rest)
