-- ===== src/Sessions/Tests.antt =====
-- Saved nodes with concrete names (crates/openbc-ui-qt/cpp/home/session_history.h).
use open_bc.Prelude.{true, false, none, some, [], ◌∷◌, codes, All, same, ◌≡◌, refl}
use open_bc.Prelude.Qt.Plain.{plain_qt}
use open_bc.Sessions.{Entry, Clock, Files, at}
use open_bc.Sessions.Names.{
  clean_node_name, clean_parts, append_node, split_skip, cut, extend, is_slash, is_separator,
  is_skipped, replace, join_path,
}
use open_bc.Sessions.Names.Safety.{IsSafe, clean_node_name-IsSafe, append_node-IsSafe}
use open_bc.Sessions.Saved.{move_session}
use open_bc.Sessions.Saved.Conservation.{held, move_session-held}

clean_node_name-IsSafe_example :
    All IsSafe (split_skip is_slash (clean_node_name plain_qt (codes "Work/../..\\etc")))
clean_node_name-IsSafe_example = clean_node_name-IsSafe plain_qt (codes "Work/../..\\etc")

append_node-IsSafe_example :
    All IsSafe (split_skip is_slash (append_node plain_qt (codes "Work") (codes "Today")))
append_node-IsSafe_example = append_node-IsSafe plain_qt (codes "Work") (codes "Today")

abbrev notes : Entry
notes = record {
  kind = codes "text";
  left = codes "a.txt";
  right = codes "b.txt";
  label = codes "notes";
  opened_day = none;
}

abbrev one_recent : Files
one_recent = record {
  history = some (notes ∷ []);
  history_writable = true;
  saved = λ node. none;
  saved_writable = λ node. true;
}

abbrev noon : Clock
noon = record { utc_day = 20000; local_day = 20000 }

work_clean : clean_node_name plain_qt (codes "Work") ≡ codes "Work"
unfolding clean_node_name clean_parts split_skip cut extend is_separator is_skipped replace
    join_path same
work_clean = refl

move_session-held_example :
    held plain_qt
      (λ kind left right. same left (codes "a.txt"))
      false
      []
      (codes "Work")
      (move_session plain_qt noon false [] (at 0) (codes "Work") one_recent).0
    ≡ held plain_qt
        (λ kind left right. same left (codes "a.txt"))
        false
        []
        (codes "Work")
        one_recent
move_session-held_example =
    move_session-held plain_qt noon (λ kind left right. same left (codes "a.txt")) one_recent false
      [] (at 0) (codes "Work") (λ node. refl) refl work_clean
