-- ===== src/ArchiveBrowse/Tests.antt =====
-- The nodes of an archive with one file in a folder, written in batches of one row.
use meshive.Prelude.{
  String, ◌≡◌, refl, true, false, none, some, List, [], ◌∷◌, if◌then◌else◌, ◌==◌, string_eq, lookup,
  insert,
}
use meshive.ArchiveBrowse.{ArchiveEntry, NodeRow, rebuild_archive_browse_nodes}
use meshive.ArchiveBrowse.Batches.{
  ◌or_else◌, first_of, last_of, folders_of, files_of, rebuild_exact,
}
use meshive.ArchiveBrowse.Parents.{HasParent, nodes-HasParent}

abbrev fold : String → String
fold s = s

abbrev parts : String → List String
parts path = if path == "a/b" then "a" ∷ "b" ∷ [] else path ∷ []

abbrev join : List String → String
join [] = ""
join (x ∷ []) = x
join (x ∷ y ∷ ys) = "a/b"

abbrev entries : List ArchiveEntry
entries =
    record {
      id = 1;
      path = "a/b";
      is_directory = false;
      size_bytes = some 5;
      compressed_size_bytes = none;
      modified_at = none;
    }
    ∷ record {
      id = 2;
      path = "a";
      is_directory = true;
      size_bytes = none;
      compressed_size_bytes = none;
      modified_at = some 3;
    }
    ∷ []

rebuild_exact_example : lookup "a" (rebuild_archive_browse_nodes fold parts join 1 entries) ≡ (
    last_of "a" (files_of fold parts join entries)
    or_else first_of "a" (folders_of fold parts join entries))
rebuild_exact_example = rebuild_exact fold parts join 1 entries "a"

abbrev file_node : NodeRow
file_node = record {
  path = "a/b";
  parent_path = "a";
  name = "b";
  name_sort_key = "b";
  path_sort_key = "a/b";
  depth = 2;
  is_directory = false;
  archive_entry_id = some 1;
  size_bytes = some 5;
  compressed_size_bytes = none;
  modified_at = none;
}

nodes-HasParent_example :
    HasParent (rebuild_archive_browse_nodes fold parts join 1 entries) file_node
unfolding rebuild_archive_browse_nodes lookup insert
nodes-HasParent_example = nodes-HasParent fold parts join 1 entries "a/b" file_node refl
