-- ===== src/Cli.antt =====
-- The command line of the `openbc` executable (crates/openbc-ui-qt/cpp/app/cli_options.h and .cpp).
pub mod Parse
pub mod Tests
pub mod Kinds
pub mod Resolve
use open_bc.Prelude.{
  Bool, true, false, ◌||◌, List, [], ◌∷◌, Text, codes, same, is_empty, negate, if◌then◌else◌,
}
use open_bc.Prelude.Qt.{Qt}
use open_bc.Files.SessionKind.{canonical_session_kind}

pub record LaunchRequest : Type 0 where
  pub left : Text
  pub right : Text
  -- As typed by the user; empty means auto-detect.
  pub compare_type : Text
  pub context_action : Text
  pub context_path : Text
  pub dependency_check : Bool
  pub show_help : Bool
  pub show_version : Bool
  -- Not empty: the command line is invalid.
  pub error : Text

unfoldable pub has_paths : LaunchRequest → Bool
has_paths r = negate (is_empty r.left) || negate (is_empty r.right)

unfoldable pub has_context_action : LaunchRequest → Bool
has_context_action r = negate (is_empty r.context_action)

-- The version viewer, the merge and the sync kinds fall back to viewers that exist.
unfoldable pub launchable : Text → Text
launchable canonical =
    if same canonical (codes "version-compare")
    then codes "hex-compare"
    else if same canonical (codes "folder-merge") || same canonical (codes "folder-sync")
    then codes "folder-compare"
    else if same canonical (codes "text-merge") || same canonical (codes "text-edit")
    then codes "text-compare"
    else canonical

module _ (qt : Qt) where
  open qt use {trimmed, to_lower}

  unfoldable pub kind_for_word : Text → Text
  unfolding launchable
  kind_for_word t =
      if same t (codes "3d") || same t (codes "model") || same t (codes "model3d")
      then codes "model3d-compare"
      else if same t (codes "image") || same t (codes "picture") || same t (codes "pictures")
      then codes "picture-compare"
      else if same t (codes "excel")
          || same t (codes "csv")
          || same t (codes "table")
          || same t (codes "spreadsheet")
      then codes "table-compare"
      else if same t (codes "reg") || same t (codes "registry")
      then codes "registry-compare"
      else launchable (canonical_session_kind qt t)

  unfoldable pub kind_for_type : Text → Text
  unfolding kind_for_word
  kind_for_type type = kind_for_word (to_lower (trimmed type))
