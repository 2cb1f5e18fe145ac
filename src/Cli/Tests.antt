-- ===== src/Cli/Tests.antt =====
-- Command lines, read (crates/openbc-ui-qt/cpp/app/cli_options.cpp).
use mathlib.Core.Bool.{false≢true}
use open_bc.Prelude.{
  true, false, ◌||◌, none, List, [], Text, All, sym, codes, is_empty, negate, same, one_of,
  ends_with, remove_char, ap, ◌≡◌, refl,
}
use open_bc.Prelude.Qt.Plain.{plain_qt}
use open_bc.Files.Disk.{Disk}
use open_bc.Files.Archives.{ArchiveTable}
use open_bc.Files.SessionKind.{canonical_session_kind, kind_of_word, strip_kind}
use open_bc.Cli.{
  LaunchRequest, kind_for_type, kind_for_word, launchable, has_paths, has_context_action,
}
use open_bc.Cli.Kinds.{IsViewerKind, kind_for_type-IsViewerKind}
use open_bc.Cli.Parse.{parse_launch_arguments, blank}
use open_bc.Cli.Parse.Validity.{IsLaunchable, parse-IsLaunchable}
use open_bc.Cli.Parse.RoundTrip.{
  apart, Paths, both, IsBare, listed, command_line, request_for, parse-command_line,
}
use open_bc.Cli.Resolve.{resolve_launch_kind}
use open_bc.Cli.Resolve.Answer.{resolve-Decided}

hex_known : is_empty (kind_for_type plain_qt (codes "hex")) ≡ false
unfolding kind_for_type kind_for_word launchable canonical_session_kind kind_of_word strip_kind
    one_of same ends_with remove_char
hex_known = refl

abbrev two_files : Paths
two_files = both (codes "-a.bin") (codes "b.bin")

abbrev hex_line : List Text
hex_line = command_line apart (codes "hex") true two_files

abbrev hex_request : LaunchRequest
hex_request = parse_launch_arguments plain_qt hex_line

-- Behind `--` no path is restricted.
behind_dashes : true ≡ false → All IsBare (listed two_files)
behind_dashes e = absurd (false≢true (sym e))

kind_for_type-IsViewerKind_example : IsViewerKind (kind_for_type plain_qt (codes "merge"))
kind_for_type-IsViewerKind_example = kind_for_type-IsViewerKind plain_qt (codes "merge")

parse-command_line_example : hex_request ≡ request_for (codes "hex") two_files
parse-command_line_example =
    parse-command_line plain_qt apart (codes "hex") true two_files hex_known behind_dashes

no_error : hex_request.error ≡ []
unfolding request_for blank
no_error =
    ap (λ (r : LaunchRequest). r.error)
      (parse-command_line plain_qt apart (codes "hex") true two_files hex_known behind_dashes)

parse-IsLaunchable_example : IsLaunchable plain_qt hex_request
parse-IsLaunchable_example = parse-IsLaunchable plain_qt hex_line no_error

-- No file exists and nothing is an archive.
abbrev no_disk : Disk
no_disk = record {
  exists = λ path. false;
  is_dir = λ path. false;
  is_file = λ path. false;
  is_readable = λ path. false;
  is_executable = λ path. false;
  clean_absolute = λ path. path;
  canonical = λ path. path;
  read_head = λ path limit. none;
}

abbrev no_archives : ArchiveTable
no_archives = record { is_archive_bytes = λ name. false; depth_bytes = λ name. 0 }

-- Two paths and no type, which is detected.
abbrev two_paths : LaunchRequest
two_paths = record {
  left = codes "a.bin";
  right = codes "b.bin";
  compare_type = [];
  context_action = [];
  context_path = [];
  dependency_check = false;
  show_help = false;
  show_version = false;
  error = [];
}

two_paths-IsLaunchable : IsLaunchable plain_qt two_paths
unfolding has_context_action
two_paths-IsLaunchable = record { known = refl; alone = λ action. absurd (false≢true action) }

has_input : (has_paths two_paths || negate (is_empty two_paths.compare_type)) ≡ true
unfolding has_paths
has_input = refl

resolve-Decided_example :
    IsViewerKind (resolve_launch_kind plain_qt no_archives no_disk [] two_paths).0
    × (is_empty (resolve_launch_kind plain_qt no_archives no_disk [] two_paths).0
        ≡ negate (is_empty (resolve_launch_kind plain_qt no_archives no_disk [] two_paths).1))
resolve-Decided_example =
    resolve-Decided plain_qt no_archives no_disk [] two_paths two_paths-IsLaunchable has_input
