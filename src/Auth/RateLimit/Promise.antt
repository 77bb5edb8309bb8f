-- ===== src/Auth/RateLimit/Promise.antt =====
-- auth/rate_limit.py: what a limiter promises over a whole run of requests of one key.
use meshive.Prelude.{
  ℕ, ◌+◌, ◌≤◌, ◌<◌, String, ◌≡◌, refl, ap, sym, ◌∙◌, Option, none, some, List, [], ◌∷◌, ◌++◌, arith,
  leb, is_some, if◌then◌else◌, count-le-length, count, count-append, All, All-append, All-imp,
}
use mathlib.Core.Path.{subst}
use meshive.Auth.RateLimit.{
  Attempts, Limiter, discard_expired, retry_after, record_failure, record_unless, check_and_record,
}
use meshive.Auth.RateLimit.Window.{
  Ascending, attempts_of, in_window, discard_expired-Ascending, All-discard_expired,
  attempts_of-retry_after, retry_after_exact,
}
use meshive.Auth.RateLimit.Capacity.{attempts_of-record_failure}

-- The requests of one key, each with the two instants at which it reads the clock; the instants at
-- which a request was let through, oldest first, are added to those of the past.
unfoldable pub admitted : String → ℕ → ℕ → List ℕ → List (ℕ × ℕ) → Limiter → List ℕ × Limiter
admitted key limit w past [] s = (past, s)
admitted key limit w past ((now, later) ∷ requests) s =
    let (answer, t) = check_and_record key limit w now later s in
    admitted key limit w (if is_some answer then past else past ++ later ∷ []) requests t

-- The clock does not go back.
abbrev pub InOrder : ℕ → List (ℕ × ℕ) → Type 0
InOrder last [] = Unit
InOrder last ((now, later) ∷ requests) = (last ≤ now) × (now ≤ later) × InOrder later requests

-- The last instant that is read.
abbrev pub final : ℕ → List (ℕ × ℕ) → ℕ
final last [] = last
final last ((now, later) ∷ requests) = final later requests

count_mono :
    (w now later : ℕ) (as' : Attempts)
    → now ≤ later
    → count (in_window w later) as' ≤ count (in_window w now) as'
count_mono w now later [] h = omega arith
count_mono w now later (a ∷ as') h = ground (arith, count_mono w now later as' h)

-- A later window holds the same of a list and of what an earlier cut left of it.
count-discard_expired :
    (w now later : ℕ) (as' : Attempts)
    → now ≤ later
    → count (in_window w later) (discard_expired w now as') ≡ count (in_window w later) as'
unfolding discard_expired
count-discard_expired w now later [] h = refl
count-discard_expired w now later (a ∷ as') h =
    ground (arith, count-discard_expired w now later as' h)

Ascending-append :
    (as' : Attempts) (now : ℕ)
    → Ascending as'
    → All (λ a. a ≤ now) as'
    → Ascending (as' ++ now ∷ [])
Ascending-append [] now h k = (tt, tt)
Ascending-append (a ∷ as') now h k =
    (All-append (λ b. a ≤ b) as' (now ∷ []) h.0 (k.0, tt), Ascending-append as' now h.1 k.1)

-- Between two requests: the deque is in order, and any later window counts the same in it as in
-- the instants let through, which are at most `limit`.
record Held (key : String) (limit w last : ℕ) (past : List ℕ) (s : Limiter) : Type 0 where
  ordered : Ascending (attempts_of key s)
  before : All (λ a. a ≤ last) (attempts_of key s)
  same : (t : ℕ) → last ≤ t → count (in_window w t) past ≡ count (in_window w t) (attempts_of key s)
  few : count (in_window w last) past ≤ limit

module _ (key : String) (limit w : ℕ) (positive : 0 < limit) where
  refused-Held :
      (last now later : ℕ) (past : List ℕ) (s : Limiter)
      → last ≤ now
      → now ≤ later
      → Held key limit w last past s
      → Held key limit w later past (retry_after key limit w now s).1
  refused-Held last now later past s h k v = record {
    ordered =
        subst Ascending (sym (attempts_of-retry_after key limit w now s))
          (discard_expired-Ascending w now (attempts_of key s) v.ordered);
    before = subst (All (λ a. a ≤ later)) (sym (attempts_of-retry_after key limit w now s)) (
        All-discard_expired w now (λ a. a ≤ later) (attempts_of key s)
          (All-imp (λ a. a ≤ last) (λ a. a ≤ later) (λ a p. omega arith) (attempts_of key s)
            v.before));
    same = λ t p.
        v.same t (omega arith)
        ∙ sym (count-discard_expired w now t (attempts_of key s) (omega arith))
        ∙ ap (count (in_window w t)) (sym (attempts_of-retry_after key limit w now s));
    few = omega (arith, count_mono w last later past (omega arith), v.few);
  }

  recorded-Held :
      (now later : ℕ) (past : List ℕ) (s : Limiter)
      → now ≤ later
      → count (in_window w now) past < limit
      → Held key limit w later past s
      → Held key limit w later (past ++ later ∷ []) (record_failure key w later s)
  recorded-Held now later past s k room v = record {
    ordered = subst Ascending (sym stored) (
        Ascending-append d later (discard_expired-Ascending w later (attempts_of key s) v.ordered)
          kept);
    before =
        subst (All (λ a. a ≤ later)) (sym stored)
          (All-append (λ a. a ≤ later) d (later ∷ []) kept (omega arith, tt));
    same = λ t p.
        count-append (in_window w t) past (later ∷ [])
        ∙ ap (λ n. n + count (in_window w t) (later ∷ []))
            (v.same t p ∙ sym (count-discard_expired w later t (attempts_of key s) p))
        ∙ sym (count-append (in_window w t) d (later ∷ []))
        ∙ ap (count (in_window w t)) (sym stored);
    few = omega (
      arith,
      count-append (in_window w later) past (later ∷ []),
      count-le-length (in_window w later) (later ∷ []),
      count_mono w now later past k,
    );
  }
    where
      d : Attempts
      d = discard_expired w later (attempts_of key s)

      kept : All (λ a. a ≤ later) (discard_expired w later (attempts_of key s))
      kept = All-discard_expired w later (λ a. a ≤ later) (attempts_of key s) v.before

      stored :
          attempts_of key (record_failure key w later s)
          ≡ discard_expired w later (attempts_of key s) ++ later ∷ []
      stored = attempts_of-record_failure key w later s

  answered-Held :
      (now later : ℕ) (past : List ℕ) (t : Limiter) (answer : Option ℕ)
      → now ≤ later
      → Held key limit w later past t
      → is_some answer ≡ leb limit (count (in_window w now) past)
      → Held key limit w later
          (if is_some (record_unless answer key w later t).0 then past else past ++ later ∷ [])
          (record_unless answer key w later t).1
  unfolding record_unless
  answered-Held now later past t (some r) k v e = v
  answered-Held now later past t none k v e = recorded-Held now later past t k (ground arith) v

  admitted-Held :
      (requests : List (ℕ × ℕ)) (last : ℕ) (past : List ℕ) (s : Limiter)
      → InOrder last requests
      → Held key limit w last past s
      → Held key limit w
          (final last requests)
          (admitted key limit w past requests s).0
          (admitted key limit w past requests s).1
  unfolding admitted check_and_record
  admitted-Held [] last past s o v = v
  admitted-Held ((now, later) ∷ requests) last past s o v =
      let answer = (retry_after key limit w now s).0 in
      let t = (retry_after key limit w now s).1 in
      admitted-Held requests later _ _ o.2 (
        answered-Held now later past t answer o.1 (refused-Held last now later past s o.0 o.1 v) (
          retry_after_exact key limit w now s positive v.ordered
          ∙ ap (leb limit) (sym (v.same now o.0))))

-- From a limiter that holds nothing for the key, let requests for the key come one after the other:
-- none begins before the one before it has recorded its attempt, the clock does not go back, and no
-- request for another key comes between. If `limit` is not 0, then at most `limit` of those that are
-- let through are in the window that ends at an instant after the last of them.
pub admitted_bounded :
    (key : String) (limit w : ℕ) (s : Limiter) (requests : List (ℕ × ℕ)) (t : ℕ)
    → 0 < limit
    → attempts_of key s ≡ []
    → InOrder 0 requests
    → final 0 requests ≤ t
    → count (in_window w t) (admitted key limit w [] requests s).0 ≤ limit
admitted_bounded key limit w s requests t positive fresh order late =
    let v = admitted-Held key limit w positive requests 0 [] s order (record {
      ordered = rw fresh tt;
      before = rw fresh tt;
      same = λ u p. rw fresh;
      few = omega arith;
    }) in
    omega (arith, count_mono w (final 0 requests) t _ late, v.few)
