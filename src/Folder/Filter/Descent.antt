-- ===== src/Folder/Filter/Descent.antt =====
-- A folder is entered if a mask matches something in it
-- (crates/openbc-ui-qt/cpp/viewers/folder/folder_model.h).
use open_bc.Prelude.{List, ◌∷◌}
use open_bc.Folder.Wildcard.{Wildcard}
use open_bc.Folder.Glob.Steps
use open_bc.Folder.Filter.{Pattern}

-- The pattern is one of a list.
pub data IsIn (p : Pattern) : List Pattern → Type 0 where
  first : {ps : List Pattern} → IsIn p (p ∷ ps)
  later : {q : Pattern} {ps : List Pattern} → IsIn p ps → IsIn p (q ∷ ps)
