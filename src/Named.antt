-- ===== src/Named.antt =====
-- What api/saved_views.py and api/favorites.py of backend/meshive share: rows that belong to a user and
-- have a name that is unique for the user, as the unique columns (user_id, normalized_name) require.
pub mod Rows
use meshive.Prelude.{
  ℕ, String, ◌≡◌, Bool, false, not, ◌&&◌, Option, List, [], ◌∷◌, any, find, All, ◌==◌, string_eq,
  nat_eq, Row,
}

-- The owner and the name of a row.
pub record Named (A : Type 0) : Type 0 where
  pub user_id : A → ℕ
  pub normalized_name : A → String

module _ {A : Type 0} ⦃r : Row A⦄ ⦃n : Named A⦄ where
  abbrev pub same_name : A → A → Bool
  same_name a b = n.user_id b == n.user_id a && n.normalized_name b == n.normalized_name a

  -- Another row of the user has the name: the commit of this one raises `IntegrityError`.
  abbrev pub name_taken : A → List A → Bool
  name_taken a xs = any (λ x. not (r.key x == r.key a) && same_name a x) xs

  -- The row with an id, if it is the user's.
  abbrev pub owned : ℕ → ℕ → List A → Option A
  owned user_id i xs = find (λ x. r.key x == i && n.user_id x == user_id) xs

  abbrev pub HasNames : List A → Type 0
  HasNames [] = Unit
  HasNames (x ∷ xs) = All (λ y. same_name x y ≡ false) xs × HasNames xs

  abbrev pub is_of : ℕ → A → Bool
  is_of user_id x = n.user_id x == user_id
