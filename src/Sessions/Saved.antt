-- ===== src/Sessions/Saved.antt =====
-- The sessions saved in named nodes (crates/openbc-ui-qt/cpp/home/session_history.h).
pub mod Counting
pub mod Conservation
use open_bc.Prelude.{
  ℕ, Bool, true, false, ◌&&◌, Option, some, none, List, [], ◌∷◌, ◌++◌, Text, is_empty, same, length,
  get_elem?, if◌then◌else◌,
}
use open_bc.Prelude.Qt.{Qt}
use open_bc.Sessions.{
  Entry, Clock, Files, read_array, Index, checked, remove_at, replace_at, label_or_default,
}
use open_bc.Sessions.Names.{clean_node_name}
use open_bc.Sessions.Recent.{remove_recent, relabel}

-- The sessions.json of one node, replaced.
unfoldable pub set_node :
    Text → List Entry → (Text → Option (List Entry)) → Text → Option (List Entry)
set_node node entries saved n = if same n node then some entries else saved n

-- `writeArray`, for the file of a node.
unfoldable pub write_array : Text → List Entry → Files → Files
write_array node entries files =
    if files.saved_writable node
    then record files { saved = set_node node entries files.saved }
    else files

-- The entry at an index that is in range.
unfoldable pub entry_at : Index → List Entry → Option Entry
entry_at Index.negative entries = none
entry_at (Index.at i) entries = get_elem? entries i

module _ (qt : Qt) where
  -- `toJson` with the label and the time of a saved session.
  unfoldable pub saved_entry : Clock → Entry → Text → Entry
  saved_entry clock source label = record {
    kind = source.kind;
    left = source.left;
    right = source.right;
    label = label_or_default qt label source.left source.right;
    opened_day = some clock.utc_day;
  }

  pub load_saved : Text → Files → List Entry
  load_saved node files = read_array (files.saved (clean_node_name qt node))

  unfoldable pub save : Clock → Entry → Text → Text → Files → Files
  save clock source node_name label files =
      let node = clean_node_name qt node_name in
      if is_empty node
      then files
      else write_array node (read_array (files.saved node) ++ saved_entry clock source label ∷ [])
          files

  -- What `removeSaved` does once the index is checked.
  unfoldable pub remove_saved_at : Option ℕ → Text → List Entry → Files → Files
  remove_saved_at none node entries files = files
  remove_saved_at (some i) node entries files = write_array node (remove_at i entries) files

  unfoldable pub remove_saved : Text → Index → Files → Files
  remove_saved node_name index files =
      let node = clean_node_name qt node_name in
      let entries = read_array (files.saved node) in
      remove_saved_at (checked index (length entries)) node entries files

  rename_saved_at : Text → Option ℕ → Text → List Entry → Files → Files
  rename_saved_at label none node entries files = files
  rename_saved_at label (some i) node entries files =
      if is_empty label
      then files
      else write_array node (replace_at i (relabel label) entries) files

  pub rename_saved : Text → Index → Text → Files → Files
  unfolding rename_saved_at
  rename_saved node_name index label files =
      let node = clean_node_name qt node_name in
      let entries = read_array (files.saved node) in
      rename_saved_at (qt.trimmed label) (checked index (length entries)) node entries files

  update_saved_at : Entry → Option ℕ → Text → List Entry → Files → Files
  update_saved_at fresh none node entries files = files
  update_saved_at fresh (some i) node entries files =
      write_array node (replace_at i (λ (old : Entry). fresh) entries) files

  pub update_saved : Clock → Text → Index → Entry → Text → Files → Files
  unfolding update_saved_at
  update_saved clock node_name index source label files =
      let node = clean_node_name qt node_name in
      let entries = read_array (files.saved node) in
      update_saved_at (saved_entry clock source label) (checked index (length entries)) node entries
        files

  -- The list that the session is moved from: `loadSaved` or `load`.
  unfoldable pub move_source : Bool → Text → Files → List Entry
  move_source true node files = load_saved node files
  move_source false node files = read_array files.history

  unfoldable pub remove_source : Bool → Text → Index → Files → Files
  remove_source true node index files = remove_saved node index files
  remove_source false node index files = remove_recent index files

  -- `save`, then the removal at the source.
  unfoldable pub move_entry :
      Option Entry → Clock → Bool → Text → Index → Text → Files → Files × Bool
  move_entry none clock saved source index target files = (files, false)
  move_entry (some e) clock saved source index target files =
      if saved && same (clean_node_name qt source) target
      then (files, false)
      else (remove_source saved source index (save clock e target e.label files), true)

  unfoldable pub move_session : Clock → Bool → Text → Index → Text → Files → Files × Bool
  move_session clock saved source index target_node files =
      let target = clean_node_name qt target_node in
      if is_empty target
      then (files, false)
      else move_entry (entry_at index (move_source saved source files)) clock saved source index
          target files
