-- ===== src/Creators/Merge/Moves.antt =====
-- backend/meshive/api/creator_profiles.py: the rows that `merge_apply` gives to the target and
-- `undo_merge` gives back.
use mathlib.Core.Path.{subst}
use meshive.Prelude.{
  ℕ, String, ◌≡◌, refl, sym, ap, ◌∙◌, inl, inr, Bool, true, false, not, ◌&&◌, Option, none, some,
  List, [], ◌∷◌, map, arith, Bool-cases, some-injective, contains, All, ◌==◌, string_eq, nat_eq,
  eq_of_beq, beq_refl, Row, get, put, put_absent, key-get, HasKeys,
}
use meshive.Creators.{CreatorAlias, alias_row}
use meshive.Creators.Merge.{ids_of, moved_aliases}
use meshive.Creators.Merge.Reversal.{returned_row, returned}

module _ {A : Type 0} ⦃r : Row A⦄ where
  put_head : (a y : A) (ys : List A) → r.key y ≡ r.key a → put a (y ∷ ys) ≡ a ∷ put a ys
  unfolding put
  put_head a y ys e = rw (e, beq_refl (r.key a)) refl

  pub put-put : (a b : A) (xs : List A) → r.key a ≡ r.key b → put b (put a xs) ≡ put b xs
  unfolding put
  put-put a b [] e = refl
  put-put a b (x ∷ xs) e = ground (arith, put-put a b xs e, beq_refl (r.key b))

  pub put_comm :
      (a b : A) (xs : List A) → (r.key a == r.key b) ≡ false → put b (put a xs) ≡ put a (put b xs)
  unfolding put
  put_comm a b [] e = refl
  put_comm a b (x ∷ xs) e =
      ground (arith, put_comm a b xs e, beq_refl (r.key b), beq_refl (r.key a))

  pub put_same : (i : ℕ) (a : A) (xs : List A) → HasKeys xs → get i xs ≡ some a → put a xs ≡ xs
  unfolding put get
  put_same i a [] h e = refl
  put_same i a (x ∷ xs) h e = elim (Bool-cases (r.key x == i)) [
    | inl q ↦
        (let row : x ≡ a = some-injective (rw q at e) in
          subst (λ (y : A). put y (x ∷ xs) ≡ x ∷ xs) row
            (rw (beq_refl (r.key x), put_absent x xs h.0)))
    | inr q ↦
        (let other : (r.key x == r.key a) ≡ false = rw (key-get i xs a (rw q at e)) q in
          rw (other, put_same i a xs h.1 (rw q at e)))
  ]

  module _ (is_target : A → Bool) (back : A → A) (same : (x : A) → r.key (back x) ≡ r.key x) where
    row-skip :
        (i : ℕ) (x : A) (xs : List A) (o : Option A)
        → get i xs ≡ o
        → (r.key x == i) ≡ false
        → returned_row is_target back o (x ∷ xs) ≡ x ∷ returned_row is_target back o xs
    unfolding put
    row-skip i x xs none e h = refl
    row-skip i x xs (some y) e h =
        (let other : (r.key x == r.key (back y)) ≡ false = rw (same y, key-get i xs y e) h in
          elim (Bool-cases (is_target y)) [ inl q ↦ rw (q, other) refl | inr q ↦ rw q refl ])

    -- A row whose key is not in the snapshot stays as it is.
    pub returned-skip :
        (ids : List ℕ) (x : A) (xs : List A)
        → All (λ i. (r.key x == i) ≡ false) ids
        → returned is_target back ids (x ∷ xs) ≡ x ∷ returned is_target back ids xs
    unfolding returned get
    returned-skip [] x xs h = refl
    returned-skip (i ∷ ids) x xs h = rw h.0 (
        ap (returned is_target back ids) (row-skip i x xs (get i xs) refl h.0)
        ∙ returned-skip ids x (returned_row is_target back (get i xs) xs) h.1)

    -- A row of the target whose key is in the snapshot is the source's again.
    pub returned-head :
        (ids : List ℕ) (x y : A) (ys : List A)
        → r.key y ≡ r.key x
        → is_target y ≡ true
        → back y ≡ x
        → All (λ z. (r.key z == r.key x) ≡ false) ys
        → All (λ i. (r.key x == i) ≡ false) ids
        → returned is_target back (r.key x ∷ ids) (y ∷ ys) ≡ x ∷ returned is_target back ids ys
    unfolding returned get
    returned-head ids x y ys e t b apart h =
        rw (e, beq_refl (r.key x), t, b, put_head x y ys e, put_absent x ys apart)
          (returned-skip ids x ys h)

    module _ (sel : A → Bool) (f : A → A) (keep : (x : A) → r.key (f x) ≡ r.key x) where
      ids_apart :
          (k : ℕ) (xs : List A)
          → All (λ y. (r.key y == k) ≡ false) xs
          → All (λ i. (k == i) ≡ false) (ids_of sel xs)
      ids_apart k [] h = tt
      ids_apart k (x ∷ xs) h = elim (Bool-cases (sel x)) [
        | inl q ↦ rw q (ground arith, ids_apart k xs h.1)
        | inr q ↦ rw q (ids_apart k xs h.1)
      ]

      map_apart :
          (k : ℕ) (xs : List A)
          → All (λ y. (r.key y == k) ≡ false) xs
          → All (λ y. (r.key y == k) ≡ false) (map f xs)
      map_apart k [] h = tt
      map_apart k (x ∷ xs) h = (rw (keep x) h.0, map_apart k xs h.1)

      pub returned-map :
          (xs : List A)
          → HasKeys xs
          → ((x : A) → sel x ≡ true → is_target (f x) ≡ true)
          → ((x : A) → sel x ≡ true → back (f x) ≡ x)
          → ((x : A) → sel x ≡ false → f x ≡ x)
          → returned is_target back (ids_of sel xs) (map f xs) ≡ xs
      unfolding returned
      returned-map [] h t b s = refl
      returned-map (x ∷ xs) h t b s = elim (Bool-cases (sel x)) [
        | inl q ↦ rw q (
            returned-head (ids_of sel xs) x (f x) (map f xs) (keep x) (t x q) (b x q)
              (map_apart (r.key x) xs h.0) (ids_apart (r.key x) xs h.0)
            ∙ ap (λ ys. x ∷ ys) (returned-map xs h.1 t b s))
        | inr q ↦
            rw (q, s x q)
              (returned-skip (ids_of sel xs) x (map f xs) (ids_apart (r.key x) xs h.0)
                ∙ ap (λ ys. x ∷ ys) (returned-map xs h.1 t b s))
      ]

module _ (target source : ℕ) where
  alias_apart :
      (k : ℕ) (names : List String) (xs : List CreatorAlias)
      → All (λ y. (y.id == k) ≡ false) xs
      → All (λ y. (y.id == k) ≡ false) (moved_aliases target source names xs).0
        × All (λ i. (k == i) ≡ false) (moved_aliases target source names xs).1
  unfolding moved_aliases
  alias_apart k names [] h = (tt, tt)
  alias_apart k names (a ∷ xs) h =
      elim (Bool-cases
        (a.creator_profile_id == source && not (contains names a.normalized_alias))) [
          | inl q ↦
              (let rest = alias_apart k (a.normalized_alias ∷ names) xs h.1 in
                rw q ((h.0, rest.0), (ground arith, rest.1)))
          | inr q ↦ (let rest = alias_apart k names xs h.1 in rw q ((h.0, rest.0), rest.1))
        ]

  pub returned-aliases :
      (names : List String) (xs : List CreatorAlias)
      → HasKeys xs
      → returned
          (λ (a : CreatorAlias). a.creator_profile_id == target)
          (λ a. record a { creator_profile_id = source })
          (moved_aliases target source names xs).1
          (moved_aliases target source names xs).0
        ≡ xs
  unfolding moved_aliases returned
  returned-aliases names [] h = refl
  returned-aliases names (a ∷ xs) h =
      elim (Bool-cases
        (a.creator_profile_id == source && not (contains names a.normalized_alias))) [
          | inl q ↦
              (let moved = moved_aliases target source (a.normalized_alias ∷ names) xs in
                let apart = alias_apart a.id (a.normalized_alias ∷ names) xs h.0 in
                let own : a.creator_profile_id ≡ source = eq_of_beq (ground arith) in
                rw q (
                  returned-head _ _ (λ _. refl) moved.1 a (record a { creator_profile_id = target })
                    moved.0 refl (beq_refl target)
                    (ap (λ i. record a { creator_profile_id = i }) (sym own)) apart.0 apart.1
                  ∙ ap (λ ys. a ∷ ys) (returned-aliases (a.normalized_alias ∷ names) xs h.1)))
          | inr q ↦
              (let moved = moved_aliases target source names xs in
                let apart = alias_apart a.id names xs h.0 in
                rw q (
                  returned-skip _ _ (λ _. refl) moved.1 a moved.0 apart.1
                  ∙ ap (λ ys. a ∷ ys) (returned-aliases names xs h.1)))
        ]
