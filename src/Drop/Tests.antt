-- ===== src/Drop/Tests.antt =====
-- A payload with a file listed twice and a file that is not there
-- (crates/openbc-ui-qt/cpp/common/drop_payload.h).
use open_bc.Prelude.{true, false, none, List, [], ◌∷◌, codes, length, same}
use open_bc.Prelude.Qt.Plain.{plain_qt}
use open_bc.Files.Disk.{Disk}
use open_bc.Drop.Payload.{Url, invalid, local_file, Places, collect_urls}
use open_bc.Drop.Payload.Items.{IsSound, collect_urls-IsSound}

-- Only a.txt is there, and it may be read.
abbrev one_file : Disk
one_file = record {
  exists = λ path. same path (codes "a.txt");
  is_dir = λ path. false;
  is_file = λ path. true;
  is_readable = λ path. true;
  is_executable = λ path. false;
  clean_absolute = λ path. path;
  canonical = λ path. path;
  read_head = λ path limit. none;
}

abbrev no_remotes : Places
no_remotes = record { native = λ path. path; is_remote_path = λ path. false }

abbrev urls : List Url
urls =
    local_file (codes "a.txt")
    ∷ local_file (codes "a.txt")
    ∷ local_file (codes "b.txt")
    ∷ invalid
    ∷ []

collect_urls-IsSound_example :
    IsSound plain_qt one_file [] no_remotes urls
      (length urls)
      (collect_urls plain_qt one_file [] no_remotes urls)
collect_urls-IsSound_example = collect_urls-IsSound plain_qt one_file [] no_remotes urls
