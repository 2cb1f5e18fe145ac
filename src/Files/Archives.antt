-- ===== src/Files/Archives.antt =====
-- "Is this an archive I can open as a folder?" (crates/openbc-ui-qt/cpp/common/archive_support.h).
-- The table of archive names lives in the Rust engine: `is_archive_bytes` and `depth_bytes` stand
-- for its two answers.
use open_bc.Prelude.{ℕ, Bool, false, ◌&&◌, ◌||◌, negate, Text, is_empty, ltb, if◌then◌else◌}
use open_bc.Prelude.Qt.{Qt}
use open_bc.Files.Disk.{Disk}

pub record ArchiveTable : Type 0 where
  pub is_archive_bytes : Text → Bool
  pub depth_bytes : Text → ℕ

module _ (qt : Qt) (table : ArchiveTable) where
  open qt use {file_name}

  unfoldable pub is_archive_name : Text → Bool
  is_archive_name name = table.is_archive_bytes name

  unfoldable pub depth : Text → ℕ
  depth path = table.depth_bytes path

  -- A side that can be listed as a folder without being one on disk.
  unfoldable pub accepts_as_folder : Disk → Text → Bool
  unfolding is_archive_name depth
  accepts_as_folder disk path =
      if is_empty path
      then false
      else ltb 0 (depth path) && (is_archive_name (file_name path) || negate (disk.exists path))

  -- A path that goes through an archive.
  unfoldable pub is_virtual : Disk → Text → Bool
  unfolding depth
  is_virtual disk path = negate (is_empty path) && ltb 0 (depth path) && negate (disk.exists path)

  unfoldable pub both_archives : Text → Text → Bool
  unfolding is_archive_name
  both_archives left right =
      if is_empty left && is_empty right
      then false
      else (is_empty left || is_archive_name (file_name left))
        && (is_empty right || is_archive_name (file_name right))
