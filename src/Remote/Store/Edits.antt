-- ===== src/Remote/Store/Edits.antt =====
-- Sequences of changes to the store (crates/openbc-ui-qt/cpp/remote/remote_profile_store.h).
use open_bc.Prelude.{Bool, List, [], ◌∷◌, Text}
use open_bc.Prelude.Qt.{Qt}
use open_bc.Sessions.{Index}
use open_bc.Remote.Json.{Json}
use open_bc.Remote.Secrets.{Encodings}
use open_bc.Remote.Profile.{RemoteProfile}
use open_bc.Remote.Store.{
  Store, create_node, rename_node, remove_node, save_profile, remove_profile, move_profile,
}

-- One change by the user.
pub data Edit : Type 0 where
  creates : (parent name : Text) → Edit
  renames : (path name : Text) → Edit
  removes : (path : Text) → Edit
  saves : (path : Text) → Index → RemoteProfile → Edit
  drops : (path : Text) → Index → Edit
  moves : (source : Text) → Index → (target : Text) → Edit

module _ (qt : Qt) (json : Json) (encodings : Encodings) where
  unfoldable pub edit : Edit → Store json encodings → Store json encodings × Bool
  edit (creates parent name) = create_node json encodings qt parent name
  edit (renames path name) = rename_node json encodings qt path name
  edit (removes path) = remove_node json encodings path
  edit (saves path index profile) = save_profile json encodings path index profile
  edit (drops path index) = remove_profile json encodings path index
  edit (moves source index target) = move_profile json encodings source index target

  unfoldable pub run_edits : List Edit → Store json encodings → Store json encodings
  run_edits [] s = s
  run_edits (e ∷ es) s = run_edits es ((edit e s).0)
