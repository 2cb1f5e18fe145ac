-- ===== src/Sessions/Recent.antt =====
-- "Recent sessions": the file history.json (crates/openbc-ui-qt/cpp/home/session_history.h).
pub mod Bounds
pub mod Today
pub mod Tests
use open_bc.Prelude.{
  ℕ, Bool, true, false, ◌&&◌, ◌||◌, Option, some, none, List, [], ◌∷◌, Text, is_empty, same, length,
  take, if◌then◌else◌,
}
use open_bc.Prelude.Qt.{Qt}
use open_bc.Sessions.{
  Entry, Clock, Files, read_array, RecentBucket, bucket_for, Index, checked, remove_at, replace_at,
  default_label,
}

abbrev pub max_entries : ℕ
max_entries = 200

unfoldable pub is_today : RecentBucket → Bool
is_today RecentBucket.today = true
is_today _ = false

-- The same session, opened earlier today.
unfoldable pub is_duplicate : ℕ → Text → Text → Text → Entry → Bool
is_duplicate local_day kind left right e =
    same e.kind kind
    && same e.left left
    && same e.right right
    && is_today (bucket_for local_day e.opened_day)

unfoldable pub any_duplicate : ℕ → Text → Text → Text → List Entry → Bool
any_duplicate local_day kind left right [] = false
any_duplicate local_day kind left right (e ∷ es) =
    is_duplicate local_day kind left right e || any_duplicate local_day kind left right es

unfoldable pub write_history : List Entry → Files → Files
write_history entries files =
    if files.history_writable then record files { history = some entries } else files

module _ (qt : Qt) where
  unfoldable pub new_entry : Clock → Text → Text → Text → Entry
  new_entry clock kind left right = record {
    kind = kind;
    left = left;
    right = right;
    label = default_label qt left right;
    opened_day = some clock.utc_day;
  }

  -- `SessionHistory::record`: prepended, and the oldest go beyond 200.
  pub record_session : Clock → Text → Text → Text → Files → Files
  record_session clock kind left right files =
      let entries = read_array files.history in
      if any_duplicate clock.local_day kind left right entries
      then files
      else write_history (take max_entries (new_entry clock kind left right ∷ entries)) files

-- What `removeAt` does once the file is read and the index checked.
unfoldable pub remove_checked : Option ℕ → List Entry → Files → Files
remove_checked none entries files = files
remove_checked (some i) entries files = write_history (remove_at i entries) files

unfoldable pub remove_from : Option (List Entry) → Index → Files → Files
remove_from none index files = files
remove_from (some entries) index files =
    remove_checked (checked index (length entries)) entries files

-- `removeAt`.
unfoldable pub remove_recent : Index → Files → Files
remove_recent index files = remove_from files.history index files

unfoldable pub relabel : Text → Entry → Entry
relabel label e = record e { label = label }

unfoldable pub rename_checked : Text → Option ℕ → List Entry → Files → Files
rename_checked label none entries files = files
rename_checked label (some i) entries files =
    if is_empty label then files else write_history (replace_at i (relabel label) entries) files

unfoldable pub rename_from : Text → Option (List Entry) → Index → Files → Files
rename_from label none index files = files
rename_from label (some entries) index files =
    rename_checked label (checked index (length entries)) entries files

pub rename_recent : Qt → Index → Text → Files → Files
rename_recent qt index label files = rename_from (qt.trimmed label) files.history index files
