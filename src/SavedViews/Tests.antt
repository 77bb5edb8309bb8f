-- ===== src/SavedViews/Tests.antt =====
-- Two users with a view each, one of whom renames and deletes.
use meshive.Prelude.{ℕ, String, ◌≡◌, refl, List, [], ◌∷◌, filter, string_eq, nat_eq}
use meshive.Named.{is_of}
use meshive.SignIn.Tests.{ascii}
use meshive.SavedViews.{SavedView, view_row, view_named}
use meshive.SavedViews.Privacy.{Request, create, rename, remove, run, IsTable, run_keeps_others}

abbrev saved : ℕ → ℕ → String → SavedView
saved i u name = record {
  id = i;
  user_id = u;
  name = name;
  normalized_name = name;
  catalogue_state = "{}";
}

abbrev views : List SavedView
views = saved 1 7 "new" ∷ saved 2 8 "new" ∷ []

abbrev requests : List (ℕ × Request)
requests = (8, rename 2 "old") ∷ (8, rename 1 "mine") ∷ (8, create "new" "{}") ∷ (8, remove 2) ∷ []

run_keeps_others_example :
    (filter (is_of 7) (run ascii requests views) ≡ filter (is_of 7) views)
    × IsTable (run ascii requests views)
run_keeps_others_example =
    run_keeps_others ascii 7 requests views
      (record { keys = ((refl, tt), (tt, tt)); names = ((refl, tt), (tt, tt)) })
      (refl, (refl, (refl, (refl, tt))))
