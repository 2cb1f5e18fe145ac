-- ===== src/TextEditor/Choice.antt =====
-- The editor for two sides of a comparison
-- (crates/openbc-ui-qt/cpp/viewers/text/text_editor_choice.h).
pub mod Locality
use open_bc.Prelude.{
  ℕ, Bool, true, false, ◌&&◌, ◌||◌, negate, Option, some, none, Text, codes, is_empty, [],
  if◌then◌else◌,
}
use open_bc.Cli.Resolve.{looks_remote}
use open_bc.TextEditor.{Settings, Editor, choose_editor}

-- What the program asks of a path: whether it exists, whether it is a regular file, and its size.
pub record FileInfo : Type 0 where
  pub exists : Text → Bool
  pub is_file : Text → Bool
  pub size : Text → Option ℕ
  -- The length of a text in UTF-8.
  pub utf8_size : Text → ℕ

pub record SideFacts : Type 0 where
  pub usable_by_virtual : Bool
  pub size : Option ℕ

pub record EditorChoice : Type 0 where
  pub editor : Editor
  pub note : Text
  pub left_bytes : Option ℕ
  pub right_bytes : Option ℕ

unfoldable needs_local : Text
needs_local =
    codes
      "The Virtual editor needs local files; this comparison includes remote or in-memory text, so the Existing editor is used."

unfoldable pub side_facts : FileInfo → Text → Text → SideFacts
side_facts info path preloaded =
    if is_empty path
    then record {
      usable_by_virtual = is_empty preloaded;
      size = some (if is_empty preloaded then 0 else info.utf8_size preloaded);
    }
    else if looks_remote path
    then record {
      usable_by_virtual = false;
      size = if is_empty preloaded then none else some (info.utf8_size preloaded);
    }
    else if negate (info.exists path)
    then record { usable_by_virtual = true; size = some 0 }
    else if negate (info.is_file path)
    then record { usable_by_virtual = true; size = none }
    else record { usable_by_virtual = true; size = info.size path }

is_virtual : Editor → Bool
is_virtual Editor.virtual = true
is_virtual Editor.existing = false

unfoldable pub choose_text_editor : FileInfo → Settings → Text → Text → Text → Text → EditorChoice
unfolding is_virtual needs_local
choose_text_editor info settings left_path right_path left_text right_text =
    let l = side_facts info left_path left_text in
    let r = side_facts info right_path right_text in
    let editor = choose_editor settings l.size r.size in
    if is_virtual editor && negate (l.usable_by_virtual && r.usable_by_virtual)
    then record {
      editor = Editor.existing;
      note = needs_local;
      left_bytes = l.size;
      right_bytes = r.size;
    }
    else record { editor = editor; note = []; left_bytes = l.size; right_bytes = r.size }
