-- ===== src/Cli/Kinds.antt =====
-- The kinds that a comparison type may stand for (crates/openbc-ui-qt/cpp/app/cli_options.cpp).
use open_bc.Prelude.{true, List, [], ◌∷◌, Text, codes, one_of, same, ◌≡◌, refl}
use open_bc.Prelude.Qt.{Qt}
use open_bc.Cli.{kind_for_type, kind_for_word, launchable}
use open_bc.Files.SessionKind.{canonical_session_kind, kind_of_word}
use open_bc.Files.SessionKind.Canonical.{if_both}

-- The kinds with a viewer, and the empty text.
unfoldable pub viewer_kinds : List Text
viewer_kinds =
    []
    ∷ codes "folder-compare"
    ∷ codes "text-compare"
    ∷ codes "hex-compare"
    ∷ codes "media-compare"
    ∷ codes "picture-compare"
    ∷ codes "model3d-compare"
    ∷ codes "registry-compare"
    ∷ codes "table-compare"
    ∷ []

unfoldable pub IsViewerKind : Text → Type 0
IsViewerKind t = one_of viewer_kinds t ≡ true

Launched : Text → Type 0
unfolding IsViewerKind
Launched t = IsViewerKind (launchable t)

IsViewerKind-lit : (t : Text) → one_of viewer_kinds t ≡ true → IsViewerKind t
unfolding IsViewerKind
IsViewerKind-lit t h = h

Launched-lit : (t : Text) → one_of viewer_kinds (launchable t) ≡ true → Launched t
unfolding Launched
Launched-lit t h = h

launchable-kind_of_word : (w : Text) → Launched (kind_of_word w)
unfolding kind_of_word launchable viewer_kinds one_of same
launchable-kind_of_word w = if_both Launched _ (Launched-lit (codes "folder-compare") refl) (
    if_both Launched _ (Launched-lit (codes "folder-merge") refl) (
      if_both Launched _ (Launched-lit (codes "folder-sync") refl) (
        if_both Launched _ (Launched-lit (codes "text-compare") refl) (
          if_both Launched _ (Launched-lit (codes "text-merge") refl) (
            if_both Launched _ (Launched-lit (codes "text-edit") refl) (
              if_both Launched _ (Launched-lit (codes "hex-compare") refl) (
                if_both Launched _ (Launched-lit (codes "media-compare") refl) (
                  if_both Launched _ (Launched-lit (codes "picture-compare") refl) (
                    if_both Launched _ (Launched-lit (codes "model3d-compare") refl) (
                      if_both Launched _ (Launched-lit (codes "registry-compare") refl) (
                        if_both Launched _ (Launched-lit (codes "table-compare") refl) (
                          if_both Launched _ (Launched-lit (codes "version-compare") refl)
                            (Launched-lit [] refl)))))))))))))

canonical-Launched : (qt : Qt) (w : Text) → IsViewerKind (launchable (canonical_session_kind qt w))
unfolding canonical_session_kind Launched
canonical-Launched qt w = launchable-kind_of_word _

kind_for_word-IsViewerKind : (qt : Qt) (w : Text) → IsViewerKind (kind_for_word qt w)
unfolding kind_for_word viewer_kinds one_of same
kind_for_word-IsViewerKind qt w =
    if_both IsViewerKind _ (IsViewerKind-lit (codes "model3d-compare") refl) (
      if_both IsViewerKind _ (IsViewerKind-lit (codes "picture-compare") refl) (
        if_both IsViewerKind _ (IsViewerKind-lit (codes "table-compare") refl) (
          if_both IsViewerKind _ (IsViewerKind-lit (codes "registry-compare") refl)
            (canonical-Launched qt w))))

-- Whatever the user types behind `--compare`, the answer is empty or the kind of a viewer that
-- exists: never a merge, a sync or the version kind.
pub kind_for_type-IsViewerKind : (qt : Qt) (type : Text) → IsViewerKind (kind_for_type qt type)
unfolding kind_for_type
kind_for_type-IsViewerKind qt type = kind_for_word-IsViewerKind qt _
