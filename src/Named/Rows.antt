-- ===== src/Named/Rows.antt =====
-- Names and owners under the three writes of a handler: a new row, a changed row, a deleted row.
use mathlib.Core.Path.{subst}
use meshive.Prelude.{
  ℕ, ◌≡◌, ap, ◌∙◌, inl, inr, false, ◌&&◌, some, List, [], ◌∷◌, ◌++◌, arith, Bool-cases,
  some-injective, filter, All, All-append, All-delete, ◌==◌, string_eq, nat_eq, eq_of_beq, Row, get,
  put, delete, next_id, HasKeys, get-find, put_absent, All-key, next_id-fresh, filter-put,
  filter-delete,
}
use meshive.Named.{Named, same_name, name_taken, owned, HasNames, is_of}

module _ {A : Type 0} ⦃r : Row A⦄ ⦃n : Named A⦄ where
  same_name_sym : (a b : A) → same_name a b ≡ false → same_name b a ≡ false
  same_name_sym a b h = ground (
    arith,
    string_eq.equal_iff (n.normalized_name a) (n.normalized_name b),
    string_eq.equal_iff (n.normalized_name b) (n.normalized_name a),
  )

  append_apart :
      (xs : List A) (a : A)
      → All (λ y. same_name a y ≡ false) xs
      → HasNames xs
      → HasNames (xs ++ a ∷ [])
  append_apart [] a h w = (tt, tt)
  append_apart (x ∷ xs) a h w = (
    All-append (λ y. same_name x y ≡ false) xs (a ∷ []) w.0 (same_name_sym a x h.0, tt),
    append_apart xs a h.1 w.1,
  )

  pub delete-HasNames : (i : ℕ) (xs : List A) → HasNames xs → HasNames (delete i xs)
  unfolding delete
  delete-HasNames i [] w = tt
  delete-HasNames i (x ∷ xs) w = elim (Bool-cases (r.key x == i)) [
    | inl q ↦ rw q (delete-HasNames i xs w.1)
    | inr q ↦ rw q (All-delete (λ y. same_name x y ≡ false) i xs w.0, delete-HasNames i xs w.1)
  ]

  put-All : (P : A → Type 0) (a : A) (xs : List A) → P a → All P xs → All P (put a xs)
  unfolding put
  put-All P a [] h w = tt
  put-All P a (x ∷ xs) h w = elim (Bool-cases (r.key x == r.key a)) [
    | inl q ↦ rw q (h, put-All P a xs h w.1)
    | inr q ↦ rw q (w.0, put-All P a xs h w.1)
  ]

  -- The rows but that of the key have other names.
  others :
      (a : A) (xs : List A)
      → name_taken a xs ≡ false
      → All (λ y. (r.key y == r.key a) ≡ false) xs
      → All (λ y. same_name a y ≡ false) xs
  others a [] h w = tt
  others a (x ∷ xs) h w = (ground arith, others a xs (ground arith) w.1)

  -- A new row with a name that no row of the user has.
  pub append-HasNames :
      (xs : List A) (a : A)
      → r.key a ≡ next_id xs
      → name_taken a xs ≡ false
      → HasNames xs
      → HasNames (xs ++ a ∷ [])
  append-HasNames xs a e h w =
      append_apart xs a (others a xs h (next_id-fresh (r.key a) xs (omega arith))) w

  pub put-HasNames :
      (a : A) (xs : List A)
      → name_taken a xs ≡ false
      → HasKeys xs
      → HasNames xs
      → HasNames (put a xs)
  unfolding put
  put-HasNames a [] h k w = tt
  put-HasNames a (x ∷ xs) h k w = elim (Bool-cases (r.key x == r.key a)) [
    | inl q ↦
        (let apart = All-key (r.key x) (r.key a) xs (eq_of_beq q) k.0 in
          rw (q, put_absent a xs apart) (others a xs (ground arith) apart, w.1))
    | inr q ↦ rw q (
      put-All (λ y. same_name x y ≡ false) a xs (same_name_sym a x (ground arith)) w.0,
      put-HasNames a xs (ground arith) k.1 w.1,
    )
  ]

  pub find-owned :
      (user_id i : ℕ) (xs : List A) (a : A)
      → owned user_id i xs ≡ some a
      → (r.key a ≡ i) × (n.user_id a ≡ user_id)
  find-owned user_id i [] a e = cc
  find-owned user_id i (x ∷ xs) a e = elim (Bool-cases (r.key x == i && n.user_id x == user_id)) [
    | inl q ↦
        (let row : x ≡ a = some-injective (rw q at e) in
          subst (λ (y : A). (r.key y ≡ i) × (n.user_id y ≡ user_id)) row
            (eq_of_beq (ground arith), eq_of_beq (ground arith)))
    | inr q ↦ find-owned user_id i xs a (rw q at e)
  ]

  owned_stored :
      (user_id i : ℕ) (xs : List A) (a : A)
      → HasKeys xs
      → owned user_id i xs ≡ some a
      → get (r.key a) xs ≡ some a
  owned_stored user_id i xs a k e = get-find (λ x. r.key x == i && n.user_id x == user_id) xs k e

  not_of :
      (u v i : ℕ) (xs : List A) (a : A)
      → owned u i xs ≡ some a
      → (u == v) ≡ false
      → is_of v a ≡ false
  not_of u v i xs a e other = rw ((find-owned u i xs a e).1) other

  -- The rows of another user stay, when a user changes or deletes a row of the user's own.
  pub others-put :
      (u v i : ℕ) (xs : List A) (a changed : A)
      → HasKeys xs
      → owned u i xs ≡ some a
      → r.key changed ≡ r.key a
      → n.user_id changed ≡ n.user_id a
      → (u == v) ≡ false
      → filter (is_of v) (put changed xs) ≡ filter (is_of v) xs
  others-put u v i xs a changed k e same owner other =
      filter-put (is_of v) changed a xs k (ap (λ j. get j xs) same ∙ owned_stored u i xs a k e)
        (not_of u v i xs a e other) (rw owner (not_of u v i xs a e other))

  pub others-delete :
      (u v i : ℕ) (xs : List A) (a : A)
      → HasKeys xs
      → owned u i xs ≡ some a
      → (u == v) ≡ false
      → filter (is_of v) (delete (r.key a) xs) ≡ filter (is_of v) xs
  others-delete u v i xs a k e other =
      filter-delete (is_of v) (r.key a) a xs k (owned_stored u i xs a k e)
        (not_of u v i xs a e other)
