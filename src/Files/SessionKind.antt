-- ===== src/Files/SessionKind.antt =====
-- `canonicalSessionKind` (crates/openbc-ui-qt/cpp/common/file_kinds.h): the kind of a session,
-- whatever spelling it was recorded with. An empty text means that it is not recognised.
pub mod Canonical
use open_bc.Prelude.{
  ℕ, ◌-◌, Bool, true, false, ◌||◌, List, [], ◌∷◌, Text, codes, same, remove_char, ends_with, length,
  take, if◌then◌else◌,
}
use open_bc.Prelude.Qt.{Qt}

-- `k.chop(n)`.
unfoldable pub chop : ℕ → Text → Text
chop n k = take (length k - n) k

unfoldable pub kind_of_word : Text → Text
kind_of_word k =
    if same k (codes "folder")
    then codes "folder-compare"
    else if same k (codes "foldermerge")
    then codes "folder-merge"
    else if same k (codes "foldersync")
    then codes "folder-sync"
    else if same k (codes "text")
    then codes "text-compare"
    else if same k (codes "textmerge")
    then codes "text-merge"
    else if same k (codes "textedit")
    then codes "text-edit"
    else if same k (codes "hex") || same k (codes "binary")
    then codes "hex-compare"
    else if same k (codes "media") || same k (codes "audio") || same k (codes "video")
    then codes "media-compare"
    else if same k (codes "picture")
        || same k (codes "pictures")
        || same k (codes "image")
        || same k (codes "images")
    then codes "picture-compare"
    else if same k (codes "model3d") || same k (codes "3d") || same k (codes "model")
    then codes "model3d-compare"
    else if same k (codes "registry")
    then codes "registry-compare"
    else if same k (codes "table")
        || same k (codes "csv")
        || same k (codes "excel")
        || same k (codes "spreadsheet")
    then codes "table-compare"
    else if same k (codes "version")
    then codes "version-compare"
    else []

-- The separators go, and a trailing "compare".
unfoldable pub strip_kind : Text → Text
unfolding chop
strip_kind k =
    let plain = remove_char b' ' (remove_char b'_' (remove_char b'-' k)) in
    if ends_with plain (codes "compare") then chop 7 plain else plain

module _ (qt : Qt) where
  open qt use {trimmed, to_lower}

  unfoldable pub canonical_session_kind : Text → Text
  unfolding kind_of_word strip_kind
  canonical_session_kind raw = kind_of_word (strip_kind (to_lower (trimmed raw)))
