-- ===== src/Folder/Tests.antt =====
-- Masks on concrete paths, and a folder with two files (crates/openbc-ui-qt/cpp/viewers/folder/folder_model.h,
-- folder_compare_viewer.h).
use open_bc.Prelude.{List, true, false, [], ◌∷◌, ◌++◌, codes, ◌≡◌, refl}
use open_bc.Folder.Glob.{
  glob_can_match_prefix, run_states, close_stars, first_state, no_states, advance, any_active,
  reads,
}
use open_bc.Folder.Filter.Plain.{plain_masks}
use open_bc.Folder.Filter.{everything, Pattern, NameFilter}
use open_bc.Files.Archives.{ArchiveTable}
use open_bc.Prelude.Qt.Plain.{plain_qt}
use open_bc.Folder.Entries.{CompareOptions, EngineRow, EntryPair, Paths, collect_entries}

abbrev sources : Pattern
sources = record { text = codes "s/*"; is_path = true }

abbrev only_sources : NameFilter
only_sources = record { match_all = false; patterns = sources ∷ [] }

-- A prefix with no continuation, and one with some.
other_folder : glob_can_match_prefix (λ c. c) (codes "s/*") (codes "t/") ≡ false
unfolding glob_can_match_prefix run_states close_stars first_state no_states advance any_active
    reads
other_folder = refl

inner_folder : glob_can_match_prefix (λ c. c) (codes "s/*") (codes "s/u/") ≡ true
unfolding glob_can_match_prefix run_states close_stars first_state no_states advance any_active
    reads
inner_folder = refl

-- A file that is newer on the left, and one that is equal.
abbrev plain_table : ArchiveTable
plain_table = record { is_archive_bytes = λ t. false; depth_bytes = λ t. 0 }

abbrev plain_paths : Paths
plain_paths = record {
  file_path = λ parent name. parent ++ b'/' ∷ name;
  relative_file_path = λ root path. path;
}

abbrev all_options : CompareOptions
all_options = record {
  check_content = false;
  archives_as_folders = false;
  include_files = everything;
  exclude_files = record { match_all = false; patterns = [] };
  include_folders = everything;
  exclude_folders = record { match_all = false; patterns = [] };
}

abbrev two_rows : List EngineRow
two_rows =
    record {
      name = codes "n";
      status = codes "left-newer";
      left = record { exists = true; is_dir = false; is_link = false; size = 7 };
      right = record { exists = true; is_dir = false; is_link = false; size = 5 };
    }
    ∷ record {
      name = codes "d";
      status = codes "equal";
      left = record { exists = true; is_dir = false; is_link = false; size = 3 };
      right = record { exists = true; is_dir = false; is_link = false; size = 3 };
    }
    ∷ []

abbrev two_entries : List EntryPair
two_entries =
    collect_entries plain_qt plain_table plain_masks plain_paths all_options (codes "/a")
      (codes "/b") (codes "/a") (codes "/b") two_rows
