-- ===== src/Files/Sniff.antt =====
-- What the first bytes of a file say (crates/openbc-ui-qt/cpp/common/content_sniff.h), and the sniff
-- for .obj files (common/file_kinds.h).
pub mod Headers
use open_bc.Prelude.{
  ℕ, suc, ◌*◌, Bool, true, false, ◌&&◌, ◌||◌, negate, Option, some, none, List, [], ◌∷◌, Text,
  codes, length, drop, starts_with, has_char, is_empty, same, one_of, ltb, ◌==◌, if◌then◌else◌,
}
use open_bc.Prelude.Qt.{Qt}
use open_bc.Viewers.{ViewerKind, same_viewer}
use open_bc.Files.Disk.{Disk}
use open_bc.Files.Kinds.{classify_file_path, is_model3d_file_path, lower_suffix}

pub data Sniffed : Type 0 where
  unknown text binary picture model3d media registry : Sniffed

-- `startsWith(d, n, magic, at)`: false if the bytes end before the magic does.
unfoldable pub starts_at : List ℕ → Text → ℕ → Bool
unfolding starts_with
starts_at d magic at = starts_with (drop at d) magic

-- Every character as two bytes, the low one first.
unfoldable pub utf16le : Text → List ℕ
utf16le [] = []
utf16le (c ∷ t) = c ∷ 0 ∷ utf16le t

unfoldable pub starts_with_utf16le : List ℕ → Text → Bool
unfolding starts_with utf16le
starts_with_utf16le d magic = starts_with d (255 ∷ 254 ∷ utf16le magic)

unfoldable pub is_registry_head : List ℕ → Bool
is_registry_head d =
    starts_at d (codes "Windows Registry Editor Version") 0
    || starts_at d (codes "REGEDIT4") 0
    || starts_with_utf16le d (codes "Windows Registry Editor Version")

-- PNG, JPEG, GIF, WEBP and TIFF.
unfoldable pub is_picture_head : List ℕ → Bool
is_picture_head d =
    starts_at d (137 ∷ b'P' ∷ b'N' ∷ b'G' ∷ 13 ∷ 10 ∷ 26 ∷ 10 ∷ []) 0
    || starts_at d (255 ∷ 216 ∷ 255 ∷ []) 0
    || (starts_at d (codes "GIF87a") 0 || starts_at d (codes "GIF89a") 0)
    || (starts_at d (codes "RIFF") 0 && starts_at d (codes "WEBP") 8)
    || (starts_at d (b'I' ∷ b'I' ∷ 42 ∷ 0 ∷ []) 0 || starts_at d (b'M' ∷ b'M' ∷ 0 ∷ 42 ∷ []) 0)

unfoldable pub is_media_head : List ℕ → Bool
is_media_head d =
    (starts_at d (codes "RIFF") 0 && (starts_at d (codes "WAVE") 8 || starts_at d (codes "AVI ") 8))
    || (starts_at d (codes "ID3") 0 || starts_at d (codes "fLaC") 0 || starts_at d (codes "OggS") 0)
    || starts_at d (codes "ftyp") 4
    || starts_at d (26 ∷ 69 ∷ 223 ∷ 163 ∷ []) 0

unfoldable pub is_model3d_head : List ℕ → Bool
is_model3d_head d =
    starts_at d (codes "glTF") 0
    || starts_at d (codes "ISO-10303-21") 0
    || starts_at d (b'p' ∷ b'l' ∷ b'y' ∷ 10 ∷ []) 0
    || starts_at d (b'p' ∷ b'l' ∷ b'y' ∷ 13 ∷ 10 ∷ []) 0

unfoldable pub is_binary_head : List ℕ → Bool
is_binary_head d =
    starts_at d (127 ∷ b'E' ∷ b'L' ∷ b'F' ∷ []) 0
    || starts_at d (codes "MZ") 0
    || starts_at d (b'P' ∷ b'K' ∷ 3 ∷ 4 ∷ []) 0

-- A byte order mark.
unfoldable pub has_bom : List ℕ → Bool
has_bom d =
    (starts_at d (255 ∷ 254 ∷ []) 0 || starts_at d (254 ∷ 255 ∷ []) 0)
    || starts_at d (239 ∷ 187 ∷ 191 ∷ []) 0

unfoldable pub is_control : ℕ → Bool
is_control c = ltb c 9 || (ltb 13 c && ltb c 32 && negate (c == 27))

-- The loop over the bytes: `none` at a NUL.
unfoldable pub count_control : List ℕ → Option ℕ
unfolding is_control
count_control [] = some 0
count_control (c ∷ d) =
    let rest = count_control d in
    if c == 0
    then none
    else elim rest [ none ↦ none | some k ↦ some (if is_control c then suc k else k) ]

unfoldable pub by_control : ℕ → Option ℕ → Sniffed
by_control n none = Sniffed.binary
by_control n (some control) = if ltb (n * 3) (control * 10) then Sniffed.binary else Sniffed.text

unfoldable pub sniff_bytes : List ℕ → Sniffed
sniff_bytes d =
    if is_empty d
    then Sniffed.unknown
    else if is_registry_head d
    then Sniffed.registry
    else if is_picture_head d
    then Sniffed.picture
    else if is_media_head d
    then Sniffed.media
    else if is_model3d_head d
    then Sniffed.model3d
    else if is_binary_head d
    then Sniffed.binary
    else if has_bom d
    then Sniffed.text
    else by_control (length d) (count_control d)

unfoldable pub refine_kind : ViewerKind → Sniffed → ViewerKind
refine_kind by_extension Sniffed.picture = ViewerKind.picture
refine_kind by_extension Sniffed.media = ViewerKind.media
refine_kind by_extension Sniffed.model3d = ViewerKind.model3d
refine_kind by_extension Sniffed.registry = ViewerKind.registry
refine_kind by_extension Sniffed.binary =
    if same_viewer by_extension ViewerKind.text then ViewerKind.hex else by_extension
refine_kind by_extension _ = by_extension

module _ (qt : Qt) (disk : Disk) (models : List Text) where
  -- What the first 512 bytes of an .obj file say; a file that cannot be opened is taken for a model.
  unfoldable pub is_wavefront : Option (List ℕ) → Bool
  is_wavefront none = true
  is_wavefront (some head) = negate (has_char 0 head)

  unfoldable pub looks_like_model3d_file : Text → Bool
  looks_like_model3d_file path =
      if negate (is_model3d_file_path qt models path)
      then false
      else if negate (same (lower_suffix qt path) (codes "obj"))
      then true
      else is_wavefront (disk.read_head path 512)

  -- The kind by the first 4096 bytes; text if the file cannot be opened.
  unfoldable pub sniffed_kind : Option (List ℕ) → ViewerKind
  sniffed_kind none = ViewerKind.text
  sniffed_kind (some head) = refine_kind ViewerKind.text (sniff_bytes head)

  unfoldable pub settled_kind : ViewerKind → Text → ViewerKind
  settled_kind by_extension path =
      if negate (same_viewer by_extension ViewerKind.text)
      then by_extension
      else sniffed_kind (disk.read_head path 4096)

  -- `classifyLocalFile` (common/drop_payload.h).
  unfoldable pub classify_local_file : Text → ViewerKind
  classify_local_file path =
      let by_extension = classify_file_path qt models path in
      let ambiguous =
        same_viewer by_extension ViewerKind.model3d && negate (looks_like_model3d_file path) in
      settled_kind (if ambiguous then ViewerKind.text else by_extension) path
