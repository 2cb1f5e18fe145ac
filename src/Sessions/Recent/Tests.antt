-- ===== src/Sessions/Recent/Tests.antt =====
-- Sessions recorded in a new history (crates/openbc-ui-qt/cpp/home/session_history.h).
use open_bc.Prelude.{◌≤◌, true, none, List, [], ◌∷◌, codes, ◌≡◌, refl, arith}
use open_bc.Prelude.Qt.Plain.{plain_qt}
use open_bc.Sessions.{Clock, Files, at, read_array}
use open_bc.Sessions.Recent.{record_session}
use open_bc.Sessions.Recent.Bounds.{
  IsBounded, Edit, opened, removed, renamed, apply_edits, apply_edits-IsBounded,
}
use open_bc.Sessions.Recent.Today.{record_session_once}

abbrev no_files : Files
no_files = record {
  history = none;
  history_writable = true;
  saved = λ node. none;
  saved_writable = λ node. true;
}

-- Both clocks are on the same day.
abbrev noon : Clock
noon = record { utc_day = 20000; local_day = 20000 }

abbrev edits : List Edit
edits =
    opened noon (codes "text-compare") (codes "a.txt") (codes "b.txt")
    ∷ renamed (at 0) (codes "notes")
    ∷ removed (at 0)
    ∷ []

no_files-IsBounded : IsBounded no_files
unfolding IsBounded read_array
no_files-IsBounded = ground arith

apply_edits-IsBounded_example : IsBounded (apply_edits plain_qt edits no_files)
apply_edits-IsBounded_example = apply_edits-IsBounded plain_qt edits no_files no_files-IsBounded

same_day : noon.local_day ≤ noon.utc_day
same_day = ground arith

record_session_once_example :
    record_session plain_qt noon
      (codes "text-compare")
      (codes "a.txt")
      (codes "b.txt")
      (record_session plain_qt noon (codes "text-compare") (codes "a.txt") (codes "b.txt") no_files)
    ≡ record_session plain_qt noon (codes "text-compare") (codes "a.txt") (codes "b.txt") no_files
record_session_once_example =
    record_session_once plain_qt noon (codes "text-compare") (codes "a.txt") (codes "b.txt")
      no_files refl same_day
