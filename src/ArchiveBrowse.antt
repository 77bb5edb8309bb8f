-- ===== src/ArchiveBrowse.antt =====
-- backend/meshive/services/archive_browse.py: the folders and files of one archive, from the list of its
-- entries, written in batches. A path of `PurePosixPath` is the list of its parts: `parts` gives those
-- of an entry's path in its canonical form, none for the root, and `join` puts `/` between them.
pub mod Batches
pub mod Parents
pub mod Tests
use meshive.Prelude.{
  ℕ, ◌+◌, String, Bool, true, false, not, Option, none, some, List, [], ◌∷◌, ◌++◌, if◌then◌else◌,
  leb, is_some, length, ◌==◌, string_eq, nat_eq, Dict, lookup, insert,
}

-- The columns of `ArchiveEntry` that are read, and those of `ArchiveBrowseNode` that are written.
pub record ArchiveEntry : Type 0 where
  pub id : ℕ
  pub path : String
  pub is_directory : Bool
  pub size_bytes : Option ℕ
  pub compressed_size_bytes : Option ℕ
  pub modified_at : Option ℕ

pub record NodeRow : Type 0 where
  pub path : String
  pub parent_path : String
  pub name : String
  pub name_sort_key : String
  pub path_sort_key : String
  pub depth : ℕ
  pub is_directory : Bool
  pub archive_entry_id : Option ℕ
  pub size_bytes : Option ℕ
  pub compressed_size_bytes : Option ℕ
  pub modified_at : Option ℕ

-- The rows that wait for the next flush.
pub record Pending : Type 0 where
  pub synthetic : List NodeRow
  pub physical : List NodeRow

abbrev pub nothing : Pending
nothing = record { synthetic = []; physical = [] }

-- The nodes of the archive by their paths, which are unique.
abbrev pub Nodes : Type 0
Nodes = Dict String NodeRow

-- `INSERT OR IGNORE`
abbrev pub ignored : NodeRow → Nodes → Nodes
ignored row nodes = if is_some (lookup row.path nodes) then nodes else insert row.path row nodes

unfoldable pub insert_synthetic : List NodeRow → Nodes → Nodes
insert_synthetic [] nodes = nodes
insert_synthetic (row ∷ rows) nodes = insert_synthetic rows (ignored row nodes)

-- `ON CONFLICT DO UPDATE`
unfoldable pub upsert_physical : List NodeRow → Nodes → Nodes
upsert_physical [] nodes = nodes
upsert_physical (row ∷ rows) nodes = upsert_physical rows (insert row.path row nodes)

unfoldable pub flush_nodes : Pending → Nodes → Nodes
unfolding insert_synthetic upsert_physical
flush_nodes p nodes = upsert_physical p.physical (insert_synthetic p.synthetic nodes)

-- A flush where the batch is full, after which nothing waits.
unfoldable pub flushed_if_full : ℕ → Pending → Nodes → Pending × Nodes
unfolding flush_nodes
flushed_if_full batch_size p nodes =
    if leb batch_size (length p.synthetic + length p.physical)
    then (nothing, flush_nodes p nodes)
    else (p, nodes)

-- `parts[-1]` and `parts[:-1]`
abbrev pub last_part : List String → String
last_part [] = ""
last_part (x ∷ []) = x
last_part (x ∷ y ∷ ys) = last_part (y ∷ ys)

abbrev pub without_last : List String → List String
without_last [] = []
without_last (x ∷ []) = []
without_last (x ∷ y ∷ ys) = x ∷ without_last (y ∷ ys)

module _ (casefold : String → String) (parts : String → List String)
    (join : List String → String) where
  -- `_node_row` for the path with these parts.
  unfoldable pub node_row : List String → Bool → Option ArchiveEntry → NodeRow
  node_row ps is_directory entry = record {
    path = join ps;
    parent_path = join (without_last ps);
    name = last_part ps;
    name_sort_key = casefold (last_part ps);
    path_sort_key = casefold (join ps);
    depth = length ps;
    is_directory = is_directory;
    archive_entry_id = elim entry [ none ↦ none | some e ↦ some e.id ];
    size_bytes = elim entry [ none ↦ none | some e ↦ e.size_bytes ];
    compressed_size_bytes = elim entry [ none ↦ none | some e ↦ e.compressed_size_bytes ];
    modified_at = elim entry [ none ↦ none | some e ↦ e.modified_at ];
  }

  -- The loop over the folders above an entry: `above` is the parts that are passed.
  unfoldable pub write_parents : ℕ → List String → List String → Pending → Nodes → Pending × Nodes
  unfolding flushed_if_full node_row
  write_parents batch_size above [] p nodes = (p, nodes)
  write_parents batch_size above (x ∷ []) p nodes = (p, nodes)
  write_parents batch_size above (x ∷ y ∷ ys) p nodes =
      let row = node_row (above ++ x ∷ []) true none in
      let (p', nodes') =
        flushed_if_full batch_size (record p { synthetic = p.synthetic ++ row ∷ [] }) nodes in
      write_parents batch_size (above ++ x ∷ []) (y ∷ ys) p' nodes'

  unfoldable pub write_entry : ℕ → ArchiveEntry → List String → Pending → Nodes → Pending × Nodes
  unfolding write_parents flushed_if_full node_row
  write_entry batch_size entry [] p nodes = (p, nodes)
  write_entry batch_size entry (x ∷ xs) p nodes =
      let (p', nodes') = write_parents batch_size [] (x ∷ xs) p nodes in
      let row = node_row (x ∷ xs) entry.is_directory (some entry) in
      flushed_if_full batch_size (record p' { physical = p'.physical ++ row ∷ [] }) nodes'

  unfoldable pub write_nodes : ℕ → List ArchiveEntry → Pending → Nodes → Nodes
  unfolding write_entry flush_nodes
  write_nodes batch_size [] p nodes = flush_nodes p nodes
  write_nodes batch_size (entry ∷ entries) p nodes =
      let (p', nodes') = write_entry batch_size entry (parts entry.path) p nodes in
      write_nodes batch_size entries p' nodes'

  -- The nodes of the archive are deleted first.
  unfoldable pub rebuild_archive_browse_nodes : ℕ → List ArchiveEntry → Nodes
  unfolding write_nodes
  rebuild_archive_browse_nodes batch_size entries = write_nodes batch_size entries nothing []
