-- ===== src/ContextMenu.antt =====
-- The left side that a file manager selected, and the menu entries that offer to compare with it, on
-- Linux (crates/openbc-ui-qt/cpp/app/context_menu_state.h, context_menu_state.cpp).
pub mod Lingering
pub mod Tests
use mathlib.Core.List.{map}
use open_bc.Prelude.{
  ℕ, Bool, true, false, ◌&&◌, ◌||◌, negate, Option, some, none, List, [], ◌∷◌, ◌++◌, ◌==◌, Text,
  codes, is_empty, same, starts_with, has_char, select, if◌then◌else◌,
}
use open_bc.Prelude.Qt.{Qt}

pub data Kind : Type 0 where
  nothing folder file : Kind

-- A file in Nautilus' directory of scripts.
pub record Script : Type 0 where
  pub name : Text
  pub is_sym_link : Bool

-- What the program leaves on the desktop: its state file, Dolphin's menus and Nautilus' scripts. A
-- file that cannot be opened for writing stays as it is; removing one succeeds.
pub record Desktop : Type 0 where
  pub state_file : Option Text
  pub folder_menu : Option Text
  pub file_menu : Option Text
  pub scripts : List Script
  pub state_writable : Bool
  pub menus_writable : Bool

-- What starts the program: the first line of the launcher file, if it can be opened, the variable
-- APPIMAGE, and this executable; and `QDir::toNativeSeparators`.
pub record Host : Type 0 where
  pub launcher_line : Option Text
  pub app_image : Text
  pub executable : Text
  pub native : Text → Text

unfoldable pub kind_name : Kind → Text
kind_name Kind.folder = codes "folder"
kind_name _ = codes "file"

-- `name.replace(c, ' ')`.
unfoldable pub to_space : ℕ → Text → Text
to_space c t = map (λ d. if d == c then b' ' else d) t

unfoldable pub is_compare_link : Script → Bool
is_compare_link s = starts_with s.name (codes "openbc: Compare To ") && s.is_sym_link

unfoldable pub remove_compare_scripts : List Script → List Script
remove_compare_scripts scripts = select (λ (s : Script). negate (is_compare_link s)) scripts

unfoldable pub has_script : Text → List Script → Bool
has_script name [] = false
has_script name (s ∷ ss) = same s.name name || has_script name ss

-- `QFile::link`, which fails if the name is taken.
unfoldable pub link : Text → List Script → List Script
link name scripts =
    if has_script name scripts
    then scripts
    else scripts ++ record { name = name; is_sym_link = true } ∷ []

unfoldable pub select_script : Kind → Text
select_script Kind.folder = codes "openbc: Select Left Folder"
select_script _ = codes "openbc: Select Left File"

module _ (qt : Qt) (host : Host) where
  unfoldable pub left_item_name : Text → Text
  left_item_name path =
      to_space 13
        (to_space 10 (if is_empty (qt.file_name path) then host.native path else qt.file_name path))

  unfoldable pub own_command : Text → Text
  own_command exe = if has_char b' ' exe then b'"' ∷ exe ++ b'"' ∷ [] else exe

  unfoldable pub default_command : Text
  default_command =
      own_command (if is_empty host.app_image then host.executable else host.app_image)

  unfoldable pub command_of : Option Text → Text
  command_of none = default_command
  command_of (some line) = if is_empty (qt.trimmed line) then default_command else qt.trimmed line

  unfoldable pub launcher_command : Text
  launcher_command = command_of host.launcher_line

  unfoldable pub publish_script : Kind → Text → List Script → List Script
  publish_script kind path scripts =
      let kept = remove_compare_scripts scripts in
      if has_script (select_script kind) kept
      then link (codes "openbc: Compare To " ++ left_item_name path) kept
      else kept

  unfoldable pub mime_type : Kind → Text
  mime_type Kind.folder = codes "inode/directory;"
  mime_type _ = codes "all/allfiles;"

  unfoldable pub action_name : Kind → Text
  action_name Kind.folder = codes "OpenBCCompareToLeftFolder"
  action_name _ = codes "OpenBCCompareToLeftFile"

  -- The text of Dolphin's service menu.
  unfoldable pub menu_text : Kind → Text → Text
  menu_text kind path =
      codes "[Desktop Entry]\nType=Service\nServiceTypes=KonqPopupMenu/Plugin\nMimeType="
      ++ mime_type kind
      ++ codes "\nActions="
      ++ action_name kind
      ++ codes ";\nX-KDE-Submenu=openbc\nIcon=io.github.devopsnextgenx.open-bc\n\n[Desktop Action "
      ++ action_name kind
      ++ codes "]\nName=openbc: Compare To "
      ++ left_item_name path
      ++ codes "\nIcon=view-split-left-right\nExec="
      ++ launcher_command
      ++ codes " --compare-to-left-"
      ++ kind_name kind
      ++ codes " %f\n"

  -- `writeFile`: what was there, unless it can be written.
  unfoldable pub write_file : Bool → Text → Option Text → Option Text
  write_file writable content old = if writable then some content else old

  -- Dolphin's menu of the kind, and that of the other kind, which must not linger.
  unfoldable pub folder_menu_after : Kind → Text → Desktop → Option Text
  folder_menu_after Kind.folder path d =
      write_file d.menus_writable (menu_text Kind.folder path) d.folder_menu
  folder_menu_after kind path d = none

  unfoldable pub file_menu_after : Kind → Text → Desktop → Option Text
  file_menu_after Kind.folder path d = none
  file_menu_after kind path d = write_file d.menus_writable (menu_text kind path) d.file_menu

  unfoldable pub publish : Kind → Text → Desktop → Desktop
  publish kind path d = record {
    state_file =
        write_file d.state_writable (kind_name kind ++ b'\n' ∷ path ++ b'\n' ∷ []) d.state_file;
    folder_menu = folder_menu_after kind path d;
    file_menu = file_menu_after kind path d;
    scripts = publish_script kind path d.scripts;
    state_writable = d.state_writable;
    menus_writable = d.menus_writable;
  }

unfoldable pub unpublish : Desktop → Desktop
unpublish d = record d {
  state_file = none;
  folder_menu = none;
  file_menu = none;
  scripts = remove_compare_scripts d.scripts;
}

-- The program's own state and the desktop.
pub record State : Type 0 where
  pub kind : Kind
  pub path : Text
  pub desktop : Desktop

unfoldable pub is_set : Kind → Bool
is_set Kind.nothing = false
is_set _ = true

pub clear : State → State
unfolding is_set
clear s = record {
  kind = Kind.nothing;
  path = [];
  desktop = if is_set s.kind then unpublish s.desktop else s.desktop;
}

pub set_left : Qt → Host → Kind → Text → State → State
unfolding is_set
set_left qt host kind path s =
    if negate (is_set kind) || is_empty path
    then clear s
    else record { kind = kind; path = path; desktop = publish qt host kind path s.desktop }

pub purge_stale : State → State
purge_stale s = record s { desktop = unpublish s.desktop }
