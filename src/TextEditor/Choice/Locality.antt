-- ===== src/TextEditor/Choice/Locality.antt =====
-- The Virtual editor opens only what is local
-- (crates/openbc-ui-qt/cpp/viewers/text/text_editor_choice.h).
use open_bc.Prelude.{false, Text, [], ◌≡◌, ◌≢◌, ◌⊎◌}
use open_bc.Cli.Resolve.{looks_remote}

-- A side that the Virtual editor can show: nothing at all, or a path that is not remote.
pub IsLocal : Text → Text → Type 0
IsLocal path preloaded =
    ((path ≡ []) × (preloaded ≡ [])) ⊎ ((path ≢ []) × (looks_remote path ≡ false))
