-- ===== src/Prelude/Tables.antt =====
-- A table of rows with an integer primary key, in the order in which a query returns them.
use Prim.Native.Nat.{◌≤◌, max, ℕ, ◌+◌}
use mathlib.Core.Path.{◌≡◌, refl, sym, subst}
use mathlib.Core.Logic.{inl, inr}
use mathlib.Core.Bool.{Bool, true, false}
use mathlib.Core.Option.{Option, none, some}
use mathlib.Core.Option
use mathlib.Core.List.{List, [], ◌∷◌, ◌++◌, map}
use native.Mathlib.Omega.{arith}
use meshive.Prelude.Tests.{
  if◌then◌else◌, ◌==◌, nat_eq, Bool-cases, is_some, some-injective, beq_refl,
}
use meshive.Prelude.Lists.{count, filter, find, All, All-append}

-- The primary key of a type of rows.
pub record Row (A : Type 0) : Type 0 where
  pub key : A → ℕ

pub eq_of_beq : {i j : ℕ} → (i == j) ≡ true → i ≡ j
eq_of_beq h = ground arith

module _ {A : Type 0} ⦃r : Row A⦄ where
  -- The key that SQLite gives to a new row: one more than the greatest.
  abbrev pub next_id : List A → ℕ
  next_id [] = 1
  next_id (x ∷ xs) = max (r.key x + 1) (next_id xs)

  -- `session.get(A, id)`
  unfoldable pub get : ℕ → List A → Option A
  get i [] = none
  get i (x ∷ xs) = let rest = get i xs in if r.key x == i then some x else rest

  -- The row is written back under its key.
  unfoldable pub put : A → List A → List A
  put a [] = []
  put a (x ∷ xs) = let rest = put a xs in if r.key x == r.key a then a ∷ rest else x ∷ rest

  -- `session.delete(row)`
  unfoldable pub delete : ℕ → List A → List A
  delete i [] = []
  delete i (x ∷ xs) = let rest = delete i xs in if r.key x == i then rest else x ∷ rest

  -- No two rows have one key.
  abbrev pub HasKeys : List A → Type 0
  HasKeys [] = Unit
  HasKeys (x ∷ xs) = All (λ y. (r.key y == r.key x) ≡ false) xs × HasKeys xs

  pub key-get : (i : ℕ) (xs : List A) (a : A) → get i xs ≡ some a → r.key a ≡ i
  unfolding get
  key-get i [] a h = ground arith
  key-get i (x ∷ xs) a h = ground (arith, key-get i xs a)

  -- A row that some key finds is the row of its own key.
  pub own_row : (i : ℕ) (xs : List A) (a : A) → get i xs ≡ some a → get (r.key a) xs ≡ some a
  own_row i xs a h = subst (λ j. get j xs ≡ some a) (sym (key-get i xs a h)) h

  pub get-put :
      (i : ℕ) (a : A) (xs : List A)
      → get i (put a xs)
        ≡ (if r.key a == i then (if is_some (get i xs) then some a else none) else get i xs)
  unfolding get put
  get-put i a [] = ground arith
  get-put i a (x ∷ xs) = ground (arith, get-put i a xs)

  -- A row that was there is there again as it was written.
  pub get-put_own :
      (i : ℕ) (a old : A) (xs : List A)
      → get i xs ≡ some old
      → r.key a ≡ i
      → get i (put a xs) ≡ some a
  get-put_own i a old xs was own = ground (arith, get-put i a xs)

  pub get-delete :
      (i j : ℕ) (xs : List A) → get j (delete i xs) ≡ (if i == j then none else get j xs)
  unfolding get delete
  get-delete i j [] = ground arith
  get-delete i j (x ∷ xs) = ground (arith, get-delete i j xs)

  pub get-append :
      (i : ℕ) (xs : List A) (a : A)
      → get i (xs ++ a ∷ [])
        ≡ (if is_some (get i xs) then get i xs else if r.key a == i then some a else none)
  unfolding get
  get-append i [] a = ground arith
  get-append i (x ∷ xs) a = ground (arith, get-append i xs a)

  count_of_others :
      (p : A → Bool) (a : A) (xs : List A)
      → All (λ y. (r.key y == r.key a) ≡ false) xs
      → count p (put a xs) ≡ count p xs
  unfolding put
  count_of_others p a [] h = refl
  count_of_others p a (x ∷ xs) h = ground (arith, count_of_others p a xs h.1)

  count_without :
      (p : A → Bool) (i : ℕ) (xs : List A)
      → All (λ y. (r.key y == i) ≡ false) xs
      → count p (delete i xs) ≡ count p xs
  unfolding delete
  count_without p i [] h = refl
  count_without p i (x ∷ xs) h = ground (arith, count_without p i xs h.1)

  pub All-key :
      (i j : ℕ) (xs : List A)
      → i ≡ j
      → All (λ y. (r.key y == i) ≡ false) xs
      → All (λ y. (r.key y == j) ≡ false) xs
  All-key i j xs e h = subst (λ k. All (λ y. (r.key y == k) ≡ false) xs) e h

  -- How a write changes the number of rows that pass a test.
  pub count-put :
      (p : A → Bool) (a old : A) (xs : List A)
      → HasKeys xs
      → get (r.key a) xs ≡ some old
      → count p (put a xs) + (if p old then 1 else 0) ≡ count p xs + (if p a then 1 else 0)
  unfolding get put
  count-put p a old [] h e = ground arith
  count-put p a old (x ∷ xs) h e = elim (Bool-cases (r.key x == r.key a)) [
    | inl q ↦
        ground (arith, count_of_others p a xs (All-key (r.key x) (r.key a) xs (eq_of_beq q) h.0))
    | inr q ↦ ground (arith, count-put p a old xs h.1)
  ]

  pub count-delete :
      (p : A → Bool) (i : ℕ) (old : A) (xs : List A)
      → HasKeys xs
      → get i xs ≡ some old
      → count p (delete i xs) + (if p old then 1 else 0) ≡ count p xs
  unfolding get delete
  count-delete p i old [] h e = ground arith
  count-delete p i old (x ∷ xs) h e = elim (Bool-cases (r.key x == i)) [
    | inl q ↦ ground (arith, count_without p i xs (All-key (r.key x) i xs (eq_of_beq q) h.0))
    | inr q ↦ ground (arith, count-delete p i old xs h.1)
  ]

  pub All-delete : (P : A → Type 0) (i : ℕ) (xs : List A) → All P xs → All P (delete i xs)
  unfolding delete
  All-delete P i [] h = tt
  All-delete P i (x ∷ xs) h = elim (Bool-cases (r.key x == i)) [
    | inl q ↦ rw q (All-delete P i xs h.1)
    | inr q ↦ rw q (h.0, All-delete P i xs h.1)
  ]

  pub delete-HasKeys : (i : ℕ) (xs : List A) → HasKeys xs → HasKeys (delete i xs)
  unfolding delete
  delete-HasKeys i [] h = tt
  delete-HasKeys i (x ∷ xs) h = elim (Bool-cases (r.key x == i)) [
    | inl q ↦ rw q (delete-HasKeys i xs h.1)
    | inr q ↦
        rw q (All-delete (λ y. (r.key y == r.key x) ≡ false) i xs h.0, delete-HasKeys i xs h.1)
  ]

  pub next_id-fresh : (n : ℕ) (xs : List A) → next_id xs ≤ n → All (λ y. (r.key y == n) ≡ false) xs
  next_id-fresh n [] h = tt
  next_id-fresh n (x ∷ xs) h = (ground arith, next_id-fresh n xs (omega arith))

  HasKeys-append :
      (xs : List A) (a : A)
      → All (λ y. (r.key y == r.key a) ≡ false) xs
      → HasKeys xs
      → HasKeys (xs ++ a ∷ [])
  HasKeys-append [] a h k = (tt, tt)
  HasKeys-append (x ∷ xs) a h k = (
    All-append (λ y. (r.key y == r.key x) ≡ false) xs (a ∷ []) k.0 (ground arith, tt),
    HasKeys-append xs a h.1 k.1,
  )

  -- A new row takes a key that no row has.
  pub append-HasKeys :
      (xs : List A) (a : A) → r.key a ≡ next_id xs → HasKeys xs → HasKeys (xs ++ a ∷ [])
  append-HasKeys xs a e k = HasKeys-append xs a (next_id-fresh (r.key a) xs (omega arith)) k

  get_of_fresh : (n : ℕ) (xs : List A) → All (λ y. (r.key y == n) ≡ false) xs → get n xs ≡ none
  unfolding get
  get_of_fresh n [] h = refl
  get_of_fresh n (x ∷ xs) h = ground (arith, get_of_fresh n xs h.1)

  pub get-next_id : (xs : List A) → get (next_id xs) xs ≡ none
  get-next_id xs = get_of_fresh (next_id xs) xs (next_id-fresh (next_id xs) xs (omega arith))

  All-put :
      (p : ℕ → Bool) (a : A) (xs : List A)
      → All (λ y. p (r.key y) ≡ false) xs
      → All (λ y. p (r.key y) ≡ false) (put a xs)
  unfolding put
  All-put p a [] h = tt
  All-put p a (x ∷ xs) h = elim (Bool-cases (r.key x == r.key a)) [
    | inl q ↦ rw q (subst (λ k. p k ≡ false) (eq_of_beq q) h.0, All-put p a xs h.1)
    | inr q ↦ rw q (h.0, All-put p a xs h.1)
  ]

  pub put-HasKeys : (a : A) (xs : List A) → HasKeys xs → HasKeys (put a xs)
  unfolding put
  put-HasKeys a [] h = tt
  put-HasKeys a (x ∷ xs) h = elim (Bool-cases (r.key x == r.key a)) [
    | inl q ↦ rw q (
      All-put (λ k. k == r.key a) a xs (All-key (r.key x) (r.key a) xs (eq_of_beq q) h.0),
      put-HasKeys a xs h.1,
    )
    | inr q ↦ rw q (All-put (λ k. k == r.key x) a xs h.0, put-HasKeys a xs h.1)
  ]

  pub find-All :
      (P : A → Type 0) (p : A → Bool) (xs : List A) {a : A} → All P xs → find p xs ≡ some a → P a
  find-All P p [] h e = cc
  find-All P p (x ∷ xs) {a} h e = elim (Bool-cases (p x)) [
    | inl q ↦ (let same : x ≡ a = ground arith in subst P same h.0)
    | inr q ↦ find-All P p xs h.1 (rw q at e)
  ]

  -- The first row that passes a test is the row of its key.
  pub get-find :
      (p : A → Bool) (xs : List A) {a : A}
      → HasKeys xs
      → find p xs ≡ some a
      → get (r.key a) xs ≡ some a
  unfolding get
  get-find p [] h e = ground arith
  get-find p (x ∷ xs) {a} h e = elim (Bool-cases (p x)) [
    | inl q ↦ ground arith
    | inr q ↦ ground (
      arith,
      find-All (λ y. (r.key y == r.key x) ≡ false) p xs {a = a} h.0,
      get-find p xs {a = a} h.1,
    )
  ]

module _ {A : Type 0} ⦃r : Row A⦄ where
  pub put_absent :
      (a : A) (xs : List A) → All (λ y. (r.key y == r.key a) ≡ false) xs → put a xs ≡ xs
  unfolding put
  put_absent a [] h = refl
  put_absent a (x ∷ xs) h = rw (h.0, put_absent a xs h.1)

  delete_absent : (i : ℕ) (xs : List A) → All (λ y. (r.key y == i) ≡ false) xs → delete i xs ≡ xs
  unfolding delete
  delete_absent i [] h = refl
  delete_absent i (x ∷ xs) h = rw (h.0, delete_absent i xs h.1)

  module _ (q : A → Bool) where
    pub filter-put :
        (a old : A) (xs : List A)
        → HasKeys xs
        → get (r.key a) xs ≡ some old
        → q old ≡ false
        → q a ≡ false
        → filter q (put a xs) ≡ filter q xs
    unfolding put get
    filter-put a old [] h e fo fa = refl
    filter-put a old (x ∷ xs) h e fo fa = elim (Bool-cases (r.key x == r.key a)) [
      | inl p ↦
          (let row : x ≡ old = some-injective (rw p at e) in
            let gone : q x ≡ false = subst (λ (y : A). q y ≡ false) (sym row) fo in
            rw (p, fa, gone, put_absent a xs (All-key (r.key x) (r.key a) xs (eq_of_beq p) h.0))
              refl)
      | inr p ↦ rw (p, filter-put a old xs h.1 (rw p at e) fo fa) refl
    ]

    pub filter-delete :
        (i : ℕ) (old : A) (xs : List A)
        → HasKeys xs
        → get i xs ≡ some old
        → q old ≡ false
        → filter q (delete i xs) ≡ filter q xs
    unfolding delete get
    filter-delete i old [] h e fo = refl
    filter-delete i old (x ∷ xs) h e fo = elim (Bool-cases (r.key x == i)) [
      | inl p ↦
          (let row : x ≡ old = some-injective (rw p at e) in
            let gone : q x ≡ false = subst (λ (y : A). q y ≡ false) (sym row) fo in
            rw (p, gone, delete_absent i xs (All-key (r.key x) i xs (eq_of_beq p) h.0)) refl)
      | inr p ↦ rw (p, filter-delete i old xs h.1 (rw p at e) fo) refl
    ]

    pub filter-last : (xs : List A) (a : A) → q a ≡ false → filter q (xs ++ a ∷ []) ≡ filter q xs
    filter-last [] a h = rw h refl
    filter-last (x ∷ xs) a h = rw (filter-last xs a h) refl

module _ {A : Type 0} ⦃r : Row A⦄ (f : A → A) (same : (x : A) → r.key (f x) ≡ r.key x) where
  -- A change of every row that keeps the keys.
  pub get-map : (i : ℕ) (xs : List A) → get i (map f xs) ≡ Option.map f (get i xs)
  unfolding get
  get-map i [] = refl
  get-map i (x ∷ xs) = elim (Bool-cases (r.key x == i)) [
    | inl q ↦ rw (same x, q)
    | inr q ↦ rw (same x, q) (get-map i xs)
  ]

  map-All :
      (p : ℕ → Bool) (xs : List A)
      → All (λ y. p (r.key y) ≡ false) xs
      → All (λ y. p (r.key y) ≡ false) (map f xs)
  map-All p [] h = tt
  map-All p (x ∷ xs) h = (rw (same x) h.0, map-All p xs h.1)

  pub map-HasKeys : (xs : List A) → HasKeys xs → HasKeys (map f xs)
  map-HasKeys [] h = tt
  map-HasKeys (x ∷ xs) h = (rw (same x) (map-All (λ k. k == r.key x) xs h.0), map-HasKeys xs h.1)

module _ {A : Type 0} ⦃r : Row A⦄ (p : A → Bool) where
  -- The only row that passes a test is the last, and then it is deleted.
  pub find_last :
      (xs : List A) (l : A) → find p xs ≡ none → p l ≡ true → find p (xs ++ l ∷ []) ≡ some l
  find_last [] l fresh h = rw h refl
  find_last (x ∷ xs) l fresh h = ground (arith, find_last xs l)

  pub find_deleted :
      (i : ℕ) (xs : List A) (l : A)
      → find p xs ≡ none
      → r.key l ≡ i
      → find p (delete i (xs ++ l ∷ [])) ≡ none
  unfolding delete
  find_deleted i [] l fresh e = rw (e, beq_refl i) refl
  find_deleted i (x ∷ xs) l fresh e = ground (arith, find_deleted i xs l)

  pub find_holds : (xs : List A) (l : A) → find p xs ≡ some l → p l ≡ true
  find_holds [] l e = cc
  find_holds (x ∷ xs) l e = elim (Bool-cases (p x)) [
    | inl q ↦ subst (λ (y : A). p y ≡ true) (some-injective (rw q at e)) q
    | inr q ↦ find_holds xs l (rw q at e)
  ]
