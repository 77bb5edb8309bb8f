-- ===== src/ArchiveBrowse/Parents.antt =====
-- backend/meshive/services/archive_browse.py: the folder of every node is a node.
use mathlib.Core.Path.{subst}
use meshive.Prelude.{
  ℕ, String, ◌≡◌, refl, sym, ap, ◌∙◌, ◌⊎◌, inl, inr, Bool, true, Option, none, some, List, [], ◌∷◌,
  ◌++◌, arith, if◌then◌else◌, Bool-cases, is_some, some-injective, length, All, All-append, All-imp,
  ◌==◌, string_eq, lookup,
}
use meshive.ArchiveBrowse.{
  ArchiveEntry, NodeRow, Nodes, node_row, without_last, rebuild_archive_browse_nodes,
}
use meshive.ArchiveBrowse.Batches.{
  ◌or_else◌, first_of, last_of, folders_above, folders_of, file_of, files_of, rebuild_exact,
}

is_some-or_else : (a b : Option NodeRow) → is_some b ≡ true → is_some (a or_else b) ≡ true
is_some-or_else none b h = h
is_some-or_else (some row) b h = refl

first_later :
    (x : NodeRow) (rows xs : List NodeRow)
    → All (λ r. is_some (first_of r.path rows) ≡ true) xs
    → All (λ r. is_some (first_of r.path (x ∷ rows)) ≡ true) xs
first_later x rows =
    All-imp _ _
      λ r h. is_some-or_else (if x.path == r.path then some x else none) (first_of r.path rows) h

-- A row is found by its path.
first_listed : (rows : List NodeRow) → All (λ r. is_some (first_of r.path rows) ≡ true) rows
first_listed [] = tt
first_listed (x ∷ rows) =
    (ground (arith, string_eq.equal_iff x.path x.path), first_later x rows rows (first_listed rows))

without_last-append : (xs : List String) (x : String) → without_last (xs ++ x ∷ []) ≡ xs
without_last-append [] x = refl
without_last-append (y ∷ []) x = refl
without_last-append (y ∷ z ∷ xs) x = ap (λ l. y ∷ l) (without_last-append (z ∷ xs) x)

append_shift :
    (xs : List String) (x : String) (ys : List String) → xs ++ x ∷ ys ≡ (xs ++ x ∷ []) ++ ys
append_shift [] x ys = refl
append_shift (y ∷ xs) x ys = ap (λ l. y ∷ l) (append_shift xs x ys)

-- The row stands at the top, or the folder that it names has a node.
abbrev pub HasParent : Nodes → NodeRow → Type 0
HasParent nodes row = (row.depth ≡ 1) ⊎ (is_some (lookup row.parent_path nodes) ≡ true)

module _ (casefold : String → String) (parts : String → List String) (join : List String → String)
    (nodes : Nodes) where
  Above : List String → Type 0
  Above above = (above ≡ []) ⊎ (is_some (lookup (join above) nodes) ≡ true)

  row_below :
      (above : List String) (x : String) (d : Bool) (e : Option ArchiveEntry)
      → Above above
      → HasParent nodes (node_row casefold parts join (above ++ x ∷ []) d e)
  unfolding Above node_row
  row_below above x d e (inl top) = inl (ap (λ l. length (l ++ x ∷ [])) top)
  row_below above x d e (inr h) =
      inr (ap (λ l. is_some (lookup (join l) nodes)) (without_last-append above x) ∙ h)

  -- The rows of the folders above a path, and that of the path.
  below :
      (above : List String) (x : String) (xs : List String) (d : Bool) (e : Option ArchiveEntry)
      → All
          (λ r. is_some (lookup r.path nodes) ≡ true)
          (folders_above casefold parts join above (x ∷ xs))
      → Above above
      → All (HasParent nodes) (folders_above casefold parts join above (x ∷ xs))
        × HasParent nodes (node_row casefold parts join (above ++ x ∷ xs) d e)
  unfolding folders_above Above node_row
  below above x [] d e there up = (tt, row_below above x d e up)
  below above x (y ∷ ys) d e there up =
      let rest = below (above ++ x ∷ []) y ys d e there.1 (inr there.0) in
      (
        (row_below above x true none up, rest.0),
        subst (λ l. HasParent nodes (node_row casefold parts join l d e))
            (sym (append_shift above x (y ∷ ys))) rest.1,
      )

module _ (casefold : String → String) (parts : String → List String) (join : List String → String)
    (batch_size : ℕ) (entries : List ArchiveEntry) where
  abbrev nodes_of : Nodes
  nodes_of = rebuild_archive_browse_nodes casefold parts join batch_size entries

  folders_there :
      All (λ r. is_some (lookup r.path nodes_of) ≡ true) (folders_of casefold parts join entries)
  folders_there =
      All-imp (λ r. is_some (first_of r.path (folders_of casefold parts join entries)) ≡ true) _
        (λ r h.
          ap is_some (rebuild_exact casefold parts join batch_size entries r.path)
          ∙ is_some-or_else (last_of r.path (files_of casefold parts join entries)) _ h)
        _ (first_listed (folders_of casefold parts join entries))

  split-All : (P : NodeRow → Type 0) (xs ys : List NodeRow) → All P (xs ++ ys) → All P xs × All P ys
  split-All P [] ys h = (tt, h)
  split-All P (x ∷ xs) ys h = let rest = split-All P xs ys h.1 in ((h.0, rest.0), rest.1)

  entry-HasParent :
      (e : ArchiveEntry) (ps : List String)
      → All (λ r. is_some (lookup r.path nodes_of) ≡ true) (folders_above casefold parts join [] ps)
      → All (HasParent nodes_of) (folders_above casefold parts join [] ps)
        × All (HasParent nodes_of) (file_of casefold parts join e ps)
  unfolding Above folders_above
  entry-HasParent e [] h = (tt, tt)
  entry-HasParent e (x ∷ xs) h =
      let rest = below casefold parts join nodes_of [] x xs e.is_directory (some e) h (inl refl) in
      (rest.0, (rest.1, tt))

  all-HasParent :
      (es : List ArchiveEntry)
      → All (λ r. is_some (lookup r.path nodes_of) ≡ true) (folders_of casefold parts join es)
      → All (HasParent nodes_of) (folders_of casefold parts join es)
        × All (HasParent nodes_of) (files_of casefold parts join es)
  all-HasParent [] h = (tt, tt)
  all-HasParent (e ∷ es) h =
      let both = split-All _ (folders_above casefold parts join [] (parts e.path)) _ h in
      let here = entry-HasParent e (parts e.path) both.0 in
      let rest = all-HasParent es both.1 in
      (All-append _ _ _ here.0 rest.0, All-append _ _ _ here.1 rest.1)

  first_of-All :
      (P : NodeRow → Type 0) (path : String) (rows : List NodeRow) (row : NodeRow)
      → All P rows
      → first_of path rows ≡ some row
      → P row
  first_of-All P path [] row h e = cc
  first_of-All P path (x ∷ rows) row h e = elim (Bool-cases (x.path == path)) [
    | inl q ↦ subst P (some-injective (rw q at e)) h.0
    | inr q ↦ first_of-All P path rows row h.1 (rw q at e)
  ]

  picked :
      (P : NodeRow → Type 0) (a b : Option NodeRow) (row : NodeRow)
      → (a ≡ some row → P row)
      → (b ≡ some row → P row)
      → (a or_else b) ≡ some row
      → P row
  picked P none b row ha hb e = hb e
  picked P (some x) b row ha hb e = ha e

  last_of-All :
      (P : NodeRow → Type 0) (path : String) (rows : List NodeRow) (row : NodeRow)
      → All P rows
      → last_of path rows ≡ some row
      → P row
  last_of-All P path [] row h e = cc
  last_of-All P path (x ∷ rows) row h e =
      picked P (last_of path rows) (if x.path == path then some x else none) row
        (λ q. last_of-All P path rows row h.1 q)
        (λ q. first_of-All P path (x ∷ []) row (h.0, tt) (ap (λ o. o or_else none) q)) e

  or_else-All :
      (P : NodeRow → Type 0) (path : String) (fs gs : List NodeRow) (row : NodeRow)
      → All P fs
      → All P gs
      → (last_of path fs or_else first_of path gs) ≡ some row
      → P row
  or_else-All P path fs gs row hf hg e =
      picked P (last_of path fs) (first_of path gs) row (λ q. last_of-All P path fs row hf q)
        (λ q. first_of-All P path gs row hg q) e

-- Whatever the size of a batch, every node of the archive stands at the top, or the folder that it names
-- as its parent has a node.
pub nodes-HasParent :
    (casefold : String → String) (parts : String → List String) (join : List String → String)
    (batch_size : ℕ) (entries : List ArchiveEntry) (path : String) (row : NodeRow)
    → lookup path (rebuild_archive_browse_nodes casefold parts join batch_size entries) ≡ some row
    → HasParent (rebuild_archive_browse_nodes casefold parts join batch_size entries) row
nodes-HasParent casefold parts join batch_size entries path row e =
    let both =
      all-HasParent casefold parts join batch_size entries entries
        (folders_there casefold parts join batch_size entries) in
    or_else-All casefold parts join batch_size entries _ path _ _ row both.1 both.0
      (sym (rebuild_exact casefold parts join batch_size entries path) ∙ e)
