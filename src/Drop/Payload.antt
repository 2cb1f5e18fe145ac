-- ===== src/Drop/Payload.antt =====
-- The payload of a drag-and-drop as items for the router
-- (crates/openbc-ui-qt/cpp/common/drop_payload.h).
pub mod Items
use mathlib.Core.List.{map}
use open_bc.Prelude.{
  Bool, true, false, ◌&&◌, negate, Option, some, none, List, [], ◌∷◌, ◌++◌, Text, codes, is_empty,
  one_of, ends_with, if◌then◌else◌,
}
use open_bc.Prelude.Qt.{Qt}
use open_bc.Viewers.{ViewerKind}
use open_bc.Files.Disk.{Disk}
use open_bc.Files.Kinds.{classify_file_path}
use open_bc.Files.Sniff.{classify_local_file}
use open_bc.Drop.Types.{Item}

-- What `QUrl` answers: not valid, a local file with its path, or another URL with its text, fully
-- decoded and without password, query and fragment.
pub data Url : Type 0 where
  invalid : Url
  local_file : Text → Url
  other : Text → Url

-- `QDir::toNativeSeparators`, and whether a saved connection covers a path.
pub record Places : Type 0 where
  pub native : Text → Text
  pub is_remote_path : Text → Bool

pub record DroppedItem : Type 0 where
  pub path : Text
  pub is_dir : Bool
  pub remote : Bool
  pub kind : ViewerKind

pub record DropParse : Type 0 where
  pub items : List DroppedItem
  -- One line for each entry that was refused.
  pub problems : List Text
  pub had_urls : Bool

-- What is known before an entry: the keys seen, the items and the problems.
pub record Found : Type 0 where
  pub seen : List Text
  pub items : List DroppedItem
  pub problems : List Text

unfoldable pub problem : Text → Found → Found
problem message f = record f { problems = f.problems ++ message ∷ [] }

-- The item, unless its key was seen.
unfoldable pub add_item : Text → DroppedItem → Found → Found
add_item key item f =
    if one_of f.seen key then f else record f { seen = key ∷ f.seen; items = f.items ++ item ∷ [] }

-- A final slash goes.
unfoldable pub chop_slash : Text → Text
chop_slash [] = []
chop_slash (c ∷ []) = []
chop_slash (c ∷ d ∷ t) = c ∷ chop_slash (d ∷ t)

module _ (qt : Qt) (disk : Disk) (models : List Text) (places : Places) where
  unfoldable pub local_key : Text → Text
  local_key local =
      if is_empty (disk.canonical local) then disk.clean_absolute local else disk.canonical local

  unfoldable pub add_folder : Text → Found → Found
  add_folder local f =
      add_item (local_key local)
        (record {
          path = disk.clean_absolute local;
          is_dir = true;
          remote = false;
          kind = ViewerKind.text;
        })
        f

  unfoldable pub add_file : Text → Found → Found
  add_file local f =
      add_item (local_key local)
        (record {
          path = disk.clean_absolute local;
          is_dir = false;
          remote = false;
          kind = classify_local_file qt disk models (disk.clean_absolute local);
        })
        f

  unfoldable pub add_local : Text → Found → Found
  unfolding add_folder add_file
  add_local local f =
      if is_empty local
      then problem (codes "Ignored a file URL with no path.") f
      else if negate (disk.exists local)
      then problem (codes "Not found: " ++ places.native local) f
      else if disk.is_dir local
      then (if negate (disk.is_readable local && disk.is_executable local)
          then problem (codes "Cannot open folder (permission denied): " ++ places.native local) f
          else add_folder local f)
      else if disk.is_file local
      then (if negate (disk.is_readable local)
          then problem (codes "Cannot read file (permission denied): " ++ places.native local) f
          else add_file local f)
      else problem (codes "Not a regular file or folder: " ++ places.native local) f

  unfoldable pub add_remote : Bool → Text → Found → Found
  add_remote trailing_slash text f =
      if negate (places.is_remote_path text)
      then problem
          (codes "No saved remote connection matches "
            ++ text
            ++ codes ". Add it under Remote connections first.")
          f
      else add_item text
          (record {
            path = text;
            is_dir = trailing_slash;
            remote = true;
            kind = if trailing_slash then ViewerKind.text else classify_file_path qt models text;
          })
          f

  unfoldable pub add_url : Url → Found → Found
  add_url invalid f = problem (codes "Ignored an invalid URL in the drop.") f
  add_url (local_file local) f = add_local local f
  add_url (other text) f =
      add_remote (ends_with text (codes "/"))
        (if ends_with text (codes "/") then chop_slash text else text) f

  unfoldable pub add_urls : List Url → Found → Found
  add_urls [] f = f
  add_urls (u ∷ us) f = add_urls us (add_url u f)

  -- The loop over the URLs.
  pub collect_urls : List Url → Found
  collect_urls urls = add_urls urls (record { seen = []; items = []; problems = [] })

  -- `none`: the payload has no URLs.
  pub parse_drop_mime : Option (List Url) → DropParse
  parse_drop_mime none = record { items = []; problems = []; had_urls = false }
  parse_drop_mime (some urls) =
      let f = collect_urls urls in
      record { items = f.items; problems = f.problems; had_urls = true }

unfoldable pub to_router_items : List DroppedItem → List Item
to_router_items items =
    map (λ (i : DroppedItem). record { path = i.path; is_dir = i.is_dir; kind = i.kind }) items
