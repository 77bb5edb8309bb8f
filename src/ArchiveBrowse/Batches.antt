-- ===== src/ArchiveBrowse/Batches.antt =====
-- backend/meshive/services/archive_browse.py: what the batches come to, however large they are.
use meshive.Prelude.{
  ℕ, ◌+◌, String, ◌≡◌, refl, sym, ap, ◌∙◌, inl, inr, Bool, true, false, Option, none, some, List,
  [], ◌∷◌, ◌++◌, arith, if◌then◌else◌, Bool-cases, leb, is_some, length, ◌==◌, string_eq, nat_eq,
  lookup, insert, lookup-insert,
}
use meshive.ArchiveBrowse.{
  ArchiveEntry, NodeRow, Pending, nothing, Nodes, ignored, insert_synthetic, upsert_physical,
  flush_nodes, flushed_if_full, node_row, write_parents, write_entry, write_nodes,
  rebuild_archive_browse_nodes,
}

infixr 4 ◌or_else◌
-- The first of two rows that is there.
abbrev pub ◌or_else◌ : Option NodeRow → Option NodeRow → Option NodeRow
none or_else o = o
some row or_else o = some row

or_else_assoc : (a b c : Option NodeRow) → ((a or_else b) or_else c) ≡ (a or_else (b or_else c))
or_else_assoc none b c = refl
or_else_assoc (some row) b c = refl

or_else-none : (a : Option NodeRow) → (a or_else none) ≡ a
or_else-none none = refl
or_else-none (some row) = refl

-- The first and the last row with a path.
abbrev pub first_of : String → List NodeRow → Option NodeRow
first_of path [] = none
first_of path (row ∷ rows) =
    (if row.path == path then some row else none) or_else first_of path rows

abbrev pub last_of : String → List NodeRow → Option NodeRow
last_of path [] = none
last_of path (row ∷ rows) = last_of path rows or_else (if row.path == path then some row else none)

first_of-append :
    (path : String) (xs ys : List NodeRow)
    → first_of path (xs ++ ys) ≡ (first_of path xs or_else first_of path ys)
first_of-append path [] ys = refl
first_of-append path (x ∷ xs) ys =
    ap (λ o. (if x.path == path then some x else none) or_else o) (first_of-append path xs ys)
    ∙ sym (
        or_else_assoc (if x.path == path then some x else none) (first_of path xs)
          (first_of path ys))

last_of-append :
    (path : String) (xs ys : List NodeRow)
    → last_of path (xs ++ ys) ≡ (last_of path ys or_else last_of path xs)
last_of-append path [] ys = sym (or_else-none (last_of path ys))
last_of-append path (x ∷ xs) ys =
    ap (λ o. o or_else (if x.path == path then some x else none)) (last_of-append path xs ys)
    ∙ or_else_assoc (last_of path ys) (last_of path xs) (if x.path == path then some x else none)

if_or :
    (b : Bool) (row : NodeRow) (o : Option NodeRow)
    → (if b then some row else o) ≡ ((if b then some row else none) or_else o)
if_or true row o = refl
if_or false row o = refl

lookup-ignored :
    (path : String) (row : NodeRow) (nodes : Nodes)
    → lookup path (ignored row nodes)
      ≡ (lookup path nodes or_else (if row.path == path then some row else none))
lookup-ignored path row nodes = elim (Bool-cases (is_some (lookup row.path nodes))) [
  | inl q ↦ ground (arith, string_eq.equal_iff row.path path)
  | inr q ↦ ground (arith, lookup-insert row.path path row nodes, string_eq.equal_iff row.path path)
]

lookup-insert_synthetic :
    (path : String) (rows : List NodeRow) (nodes : Nodes)
    → lookup path (insert_synthetic rows nodes) ≡ (lookup path nodes or_else first_of path rows)
unfolding insert_synthetic
lookup-insert_synthetic path [] nodes = sym (or_else-none (lookup path nodes))
lookup-insert_synthetic path (row ∷ rows) nodes =
    lookup-insert_synthetic path rows (ignored row nodes)
    ∙ ap (λ o. o or_else first_of path rows) (lookup-ignored path row nodes)
    ∙ or_else_assoc (lookup path nodes) (if row.path == path then some row else none)
        (first_of path rows)

lookup-upsert_physical :
    (path : String) (rows : List NodeRow) (nodes : Nodes)
    → lookup path (upsert_physical rows nodes) ≡ (last_of path rows or_else lookup path nodes)
unfolding upsert_physical
lookup-upsert_physical path [] nodes = refl
lookup-upsert_physical path (row ∷ rows) nodes =
    lookup-upsert_physical path rows (insert row.path row nodes)
    ∙ ap (λ o. last_of path rows or_else o)
        (lookup-insert row.path path row nodes ∙ if_or (row.path == path) row (lookup path nodes))
    ∙ sym (
        or_else_assoc (last_of path rows) (if row.path == path then some row else none)
          (lookup path nodes))

-- What is at a path when nothing waits any more.
abbrev settled : String → Pending × Nodes → Option NodeRow
settled path (p, nodes) =
    last_of path p.physical or_else (lookup path nodes or_else first_of path p.synthetic)

lookup-flush_nodes :
    (path : String) (p : Pending) (nodes : Nodes)
    → lookup path (flush_nodes p nodes) ≡ settled path (p, nodes)
unfolding flush_nodes
lookup-flush_nodes path p nodes =
    lookup-upsert_physical path p.physical (insert_synthetic p.synthetic nodes)
    ∙ ap (λ o. last_of path p.physical or_else o) (lookup-insert_synthetic path p.synthetic nodes)

settled_if_full :
    (path : String) (batch_size : ℕ) (p : Pending) (nodes : Nodes)
    → settled path (flushed_if_full batch_size p nodes) ≡ settled path (p, nodes)
unfolding flushed_if_full
settled_if_full path batch_size p nodes =
    elim (Bool-cases (leb batch_size (length p.synthetic + length p.physical))) [
      | inl q ↦
          rw q (or_else-none (lookup path (flush_nodes p nodes)) ∙ lookup-flush_nodes path p nodes)
      | inr q ↦ rw q refl
    ]

-- One more row that waits.
settled_synthetic :
    (path : String) (p : Pending) (nodes : Nodes) (rows : List NodeRow)
    → settled path (record p { synthetic = p.synthetic ++ rows }, nodes)
      ≡ (settled path (p, nodes) or_else first_of path rows)
settled_synthetic path p nodes rows =
    let l = last_of path p.physical in
    let n = lookup path nodes in
    let f = first_of path p.synthetic in
    let r = first_of path rows in
    ap (λ o. l or_else (n or_else o)) (first_of-append path p.synthetic rows)
    ∙ ap (λ o. l or_else o) (sym (or_else_assoc n f r))
    ∙ sym (or_else_assoc l (n or_else f) r)

settled_physical :
    (path : String) (p : Pending) (nodes : Nodes) (rows : List NodeRow)
    → settled path (record p { physical = p.physical ++ rows }, nodes)
      ≡ (last_of path rows or_else settled path (p, nodes))
settled_physical path p nodes rows =
    ap (λ o. o or_else (lookup path nodes or_else first_of path p.synthetic))
      (last_of-append path p.physical rows)
    ∙ or_else_assoc (last_of path rows) (last_of path p.physical)
        (lookup path nodes or_else first_of path p.synthetic)

module _ (casefold : String → String) (parts : String → List String)
    (join : List String → String) where
  -- The rows of the folders above an entry, from the top.
  unfoldable pub folders_above : List String → List String → List NodeRow
  folders_above above [] = []
  folders_above above (x ∷ []) = []
  folders_above above (x ∷ y ∷ ys) =
      node_row casefold parts join (above ++ x ∷ []) true none
      ∷ folders_above (above ++ x ∷ []) (y ∷ ys)

  abbrev pub folders_of : List ArchiveEntry → List NodeRow
  folders_of [] = []
  folders_of (e ∷ es) = folders_above [] (parts e.path) ++ folders_of es

  -- The rows of an entry itself: none for the root.
  abbrev pub file_of : ArchiveEntry → List String → List NodeRow
  file_of e [] = []
  file_of e (x ∷ xs) = node_row casefold parts join (x ∷ xs) e.is_directory (some e) ∷ []

  abbrev pub files_of : List ArchiveEntry → List NodeRow
  files_of [] = []
  files_of (e ∷ es) = file_of e (parts e.path) ++ files_of es

  settled_parents :
      (path : String) (batch_size : ℕ) (above ps : List String) (p : Pending) (nodes : Nodes)
      → settled path (write_parents casefold parts join batch_size above ps p nodes)
        ≡ (settled path (p, nodes) or_else first_of path (folders_above above ps))
  unfolding write_parents folders_above
  settled_parents path batch_size above [] p nodes = sym (or_else-none (settled path (p, nodes)))
  settled_parents path batch_size above (x ∷ []) p nodes =
      sym (or_else-none (settled path (p, nodes)))
  settled_parents path batch_size above (x ∷ y ∷ ys) p nodes =
      let row = node_row casefold parts join (above ++ x ∷ []) true none in
      let q : Pending = record p { synthetic = p.synthetic ++ row ∷ [] } in
      let r = flushed_if_full batch_size q nodes in
      let rest = first_of path (folders_above (above ++ x ∷ []) (y ∷ ys)) in
      settled_parents path batch_size (above ++ x ∷ []) (y ∷ ys) r.0 r.1
      ∙ ap (λ o. o or_else rest)
          (settled_if_full path batch_size q nodes ∙ settled_synthetic path p nodes (row ∷ []))
      ∙ or_else_assoc (settled path (p, nodes)) (first_of path (row ∷ [])) rest
      ∙ ap (λ o. settled path (p, nodes) or_else o)
          (sym (first_of-append path (row ∷ []) (folders_above (above ++ x ∷ []) (y ∷ ys))))

  settled_entry :
      (path : String) (batch_size : ℕ) (e : ArchiveEntry) (ps : List String) (p : Pending)
      (nodes : Nodes)
      → settled path (write_entry casefold parts join batch_size e ps p nodes) ≡ (
          last_of path (file_of e ps)
          or_else (settled path (p, nodes) or_else first_of path (folders_above [] ps)))
  unfolding write_entry folders_above
  settled_entry path batch_size e [] p nodes = sym (or_else-none (settled path (p, nodes)))
  settled_entry path batch_size e (x ∷ xs) p nodes =
      let row = node_row casefold parts join (x ∷ xs) e.is_directory (some e) in
      let r = write_parents casefold parts join batch_size [] (x ∷ xs) p nodes in
      settled_if_full path batch_size (record r.0 { physical = r.0.physical ++ row ∷ [] }) r.1
      ∙ settled_physical path r.0 r.1 (row ∷ [])
      ∙ ap (λ o. last_of path (row ∷ []) or_else o)
          (settled_parents path batch_size [] (x ∷ xs) p nodes)

  shuffle :
      (l m s f g : Option NodeRow)
      → (l or_else ((m or_else (s or_else f)) or_else g))
        ≡ ((l or_else m) or_else (s or_else (f or_else g)))
  shuffle (some row) m s f g = refl
  shuffle none (some row) s f g = refl
  shuffle none none s f g = or_else_assoc s f g

  lookup-write_nodes :
      (path : String) (batch_size : ℕ) (es : List ArchiveEntry) (p : Pending) (nodes : Nodes)
      → lookup path (write_nodes casefold parts join batch_size es p nodes) ≡ (
          last_of path (files_of es)
          or_else (settled path (p, nodes) or_else first_of path (folders_of es)))
  unfolding write_nodes
  lookup-write_nodes path batch_size [] p nodes =
      lookup-flush_nodes path p nodes ∙ sym (or_else-none (settled path (p, nodes)))
  lookup-write_nodes path batch_size (e ∷ es) p nodes =
      let r = write_entry casefold parts join batch_size e (parts e.path) p nodes in
      let l = last_of path (files_of es) in
      let m = last_of path (file_of e (parts e.path)) in
      let s = settled path (p, nodes) in
      let f = first_of path (folders_above [] (parts e.path)) in
      let g = first_of path (folders_of es) in
      lookup-write_nodes path batch_size es r.0 r.1
      ∙ ap (λ o. l or_else (o or_else g)) (settled_entry path batch_size e (parts e.path) p nodes)
      ∙ shuffle l m s f g
      ∙ ap (λ o. o or_else (s or_else (f or_else g)))
          (sym (last_of-append path (file_of e (parts e.path)) (files_of es)))
      ∙ ap (λ o. last_of path (files_of (e ∷ es)) or_else (s or_else o))
          (sym (first_of-append path (folders_above [] (parts e.path)) (folders_of es)))

-- Whatever the size of a batch, the node of a path is that of the last entry with the path, or else that
-- of the first folder with it above an entry; and there is none where there is neither.
pub rebuild_exact :
    (casefold : String → String) (parts : String → List String) (join : List String → String)
    (batch_size : ℕ) (entries : List ArchiveEntry) (path : String)
    → lookup path (rebuild_archive_browse_nodes casefold parts join batch_size entries) ≡ (
        last_of path (files_of casefold parts join entries)
        or_else first_of path (folders_of casefold parts join entries))
unfolding rebuild_archive_browse_nodes lookup
rebuild_exact casefold parts join batch_size entries path =
    lookup-write_nodes casefold parts join path batch_size entries nothing []
