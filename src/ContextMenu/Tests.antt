-- ===== src/ContextMenu/Tests.antt =====
-- A folder selected on a desktop where a crash left a file's menu
-- (crates/openbc-ui-qt/cpp/app/context_menu_state.cpp).
use open_bc.Prelude.{true, some, List, [], ◌∷◌, codes}
use open_bc.Prelude.Qt.Plain.{plain_qt}
use open_bc.ContextMenu.{Kind, Desktop, Host, purge_stale}
use open_bc.ContextMenu.Lingering.{Agrees, Request, selected, cleared, handle_all, purged-Agrees}

abbrev appimage : Host
appimage = record {
  launcher_line = some [];
  app_image = codes "/opt/OpenBC.AppImage";
  executable = codes "/tmp/openbc";
  native = λ path. path;
}

abbrev crashed : Desktop
crashed = record {
  state_file = some (codes "file\n/tmp/a.txt\n");
  folder_menu = some (codes "old");
  file_menu = some (codes "old");
  scripts =
      record { name = codes "openbc: Compare To a.txt"; is_sym_link = true }
      ∷ record { name = codes "openbc: Select Left Folder"; is_sym_link = true }
      ∷ [];
  state_writable = true;
  menus_writable = true;
}

abbrev requests : List Request
requests =
    selected Kind.file (codes "/tmp/a.txt")
    ∷ cleared
    ∷ selected Kind.folder (codes "/tmp/photos")
    ∷ []

purged-Agrees_example :
    Agrees
      (handle_all plain_qt appimage requests
        (purge_stale (record { kind = Kind.nothing; path = []; desktop = crashed }))).kind
      (handle_all plain_qt appimage requests
        (purge_stale (record { kind = Kind.nothing; path = []; desktop = crashed }))).desktop
purged-Agrees_example = purged-Agrees plain_qt appimage requests crashed
