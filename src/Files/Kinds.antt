-- ===== src/Files/Kinds.antt =====
-- The extension tables, `classifyFilePath` and the session kinds
-- (crates/openbc-ui-qt/cpp/common/file_kinds.h, cpp/viewers/picture/picture_extensions.h).
use open_bc.Prelude.{
  Bool, false, ◌||◌, List, [], ◌∷◌, Text, codes, same, one_of, starts_with, is_empty, drop,
  if◌then◌else◌,
}
use open_bc.Prelude.Qt.{Qt}
use open_bc.Viewers.{ViewerKind}

unfoldable pub picture_extensions : List Text
picture_extensions =
    codes "png"
    ∷ codes "jpg"
    ∷ codes "jpeg"
    ∷ codes "webp"
    ∷ codes "bmp"
    ∷ codes "gif"
    ∷ codes "tif"
    ∷ codes "tiff"
    ∷ []

unfoldable pub model3d_extension_set : List Text
model3d_extension_set =
    codes "stl"
    ∷ codes "step"
    ∷ codes "stp"
    ∷ codes "iges"
    ∷ codes "igs"
    ∷ codes "brep"
    ∷ codes "brp"
    ∷ codes "obj"
    ∷ codes "ply"
    ∷ codes "off"
    ∷ codes "3mf"
    ∷ codes "glb"
    ∷ codes "gltf"
    ∷ []

unfoldable pub table_extension_set : List Text
table_extension_set =
    codes "csv"
    ∷ codes "tsv"
    ∷ codes "xls"
    ∷ codes "xlsx"
    ∷ codes "xlsm"
    ∷ codes "xlsb"
    ∷ codes "ods"
    ∷ codes "fods"
    ∷ []

unfoldable pub media_extension_set : List Text
media_extension_set =
    codes "mp3"
    ∷ codes "wav"
    ∷ codes "flac"
    ∷ codes "ogg"
    ∷ codes "opus"
    ∷ codes "m4a"
    ∷ codes "aac"
    ∷ codes "wma"
    ∷ codes "mp4"
    ∷ codes "mkv"
    ∷ codes "avi"
    ∷ codes "mov"
    ∷ codes "webm"
    ∷ codes "wmv"
    ∷ codes "m4v"
    ∷ []

unfoldable pub version_extension_set : List Text
version_extension_set =
    codes "exe"
    ∷ codes "dll"
    ∷ codes "sys"
    ∷ codes "ocx"
    ∷ codes "drv"
    ∷ codes "scr"
    ∷ codes "cpl"
    ∷ []

unfoldable pub hex_extension_set : List Text
hex_extension_set = codes "bin" ∷ codes "img" ∷ codes "iso" ∷ codes "rom" ∷ codes "dmp" ∷ []

unfoldable pub session_kind_for_viewer : ViewerKind → Text
session_kind_for_viewer ViewerKind.picture = codes "picture-compare"
session_kind_for_viewer ViewerKind.model3d = codes "model3d-compare"
session_kind_for_viewer ViewerKind.table = codes "table-compare"
session_kind_for_viewer ViewerKind.media = codes "media-compare"
session_kind_for_viewer ViewerKind.registry = codes "registry-compare"
session_kind_for_viewer ViewerKind.version = codes "version-compare"
session_kind_for_viewer ViewerKind.hex = codes "hex-compare"
session_kind_for_viewer ViewerKind.text = codes "text-compare"

-- The static table of 3D extensions is state: `models` holds what was registered on top of it.
module _ (qt : Qt) where
  open qt use {trimmed, to_lower, suffix}

  unfoldable pub lower_suffix : Text → Text
  lower_suffix path = to_lower (suffix path)

  -- A dot in front of the extension is dropped; an empty extension is not registered.
  unfoldable pub register_model3d_extension : List Text → Text → List Text
  register_model3d_extension models extension =
      let given = to_lower (trimmed extension) in
      let ext = if starts_with given (codes ".") then drop 1 given else given in
      if is_empty ext || one_of models ext then models else ext ∷ models

  unfoldable pub is_model3d_file_path : List Text → Text → Bool
  is_model3d_file_path models path = one_of models (lower_suffix path)

  unfoldable pub is_picture_file_path : Text → Bool
  unfolding picture_extensions
  is_picture_file_path path =
      if is_empty path then false else one_of picture_extensions (to_lower (suffix path))

  unfoldable pub classify_suffix : List Text → Text → ViewerKind
  classify_suffix models ext =
      if one_of models ext
      then ViewerKind.model3d
      else if one_of table_extension_set ext
      then ViewerKind.table
      else if one_of media_extension_set ext
      then ViewerKind.media
      else if same ext (codes "reg")
      then ViewerKind.registry
      else if one_of version_extension_set ext
      then ViewerKind.version
      else if one_of hex_extension_set ext
      then ViewerKind.hex
      else ViewerKind.text

  unfoldable pub classify_file_path : List Text → Text → ViewerKind
  classify_file_path models path =
      if is_empty path
      then ViewerKind.text
      else if is_picture_file_path path
      then ViewerKind.picture
      else classify_suffix models (lower_suffix path)
