-- ===== src/Files/Disk.antt =====
-- The file system as the program sees it through QFileInfo and QFile: a parameter, not modelled.
use open_bc.Prelude.{ℕ, Bool, Option, List, Text}

pub record Disk : Type 0 where
  pub exists : Text → Bool
  pub is_dir : Text → Bool
  pub is_file : Text → Bool
  pub is_readable : Text → Bool
  pub is_executable : Text → Bool
  -- `QDir::cleanPath(info.absoluteFilePath())` and `info.canonicalFilePath()`.
  pub clean_absolute : Text → Text
  pub canonical : Text → Text
  -- At most that many first bytes of the file, if it can be opened.
  pub read_head : Text → ℕ → Option (List ℕ)
