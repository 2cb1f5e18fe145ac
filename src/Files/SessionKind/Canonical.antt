-- ===== src/Files/SessionKind/Canonical.antt =====
-- The kinds that `canonicalSessionKind` answers are its fixed points.
use open_bc.Prelude.{
  Bool, true, false, [], Text, codes, same, remove_char, ends_with, ◌≡◌, refl, if◌then◌else◌,
}
use open_bc.Prelude.Qt.{Qt, keyword}
use open_bc.Viewers.{ViewerKind}
use open_bc.Files.Kinds.{session_kind_for_viewer}
use open_bc.Files.SessionKind.{canonical_session_kind, kind_of_word, strip_kind}

pub if_both {ℓ} :
    {A : Type 0} (P : A → Type ℓ) (b : Bool) {x y : A} → P x → P y → P (if b then x else y)
if_both P true p q = p
if_both P false p q = q

module _ (qt : Qt) where
  -- A keyword is read as it stands.
  canonical-keyword :
      (t : Text) → keyword t ≡ true → canonical_session_kind qt t ≡ kind_of_word (strip_kind t)
  unfolding canonical_session_kind
  canonical-keyword t k = rw (qt.trimmed_keyword t k, qt.to_lower_keyword t k)

  unfoldable pub IsFixed : Text → Type 0
  IsFixed t = canonical_session_kind qt t ≡ t

  pub fixed : (t : Text) → keyword t ≡ true → kind_of_word (strip_kind t) ≡ t → IsFixed t
  unfolding IsFixed
  fixed t k e = rw (canonical-keyword t k) e

  pub kind_of_word-IsFixed : (w : Text) → IsFixed (kind_of_word w)
  unfolding kind_of_word strip_kind remove_char ends_with same keyword
  kind_of_word-IsFixed w = if_both IsFixed _ (fixed (codes "folder-compare") refl refl) (
      if_both IsFixed _ (fixed (codes "folder-merge") refl refl) (
        if_both IsFixed _ (fixed (codes "folder-sync") refl refl) (
          if_both IsFixed _ (fixed (codes "text-compare") refl refl) (
            if_both IsFixed _ (fixed (codes "text-merge") refl refl) (
              if_both IsFixed _ (fixed (codes "text-edit") refl refl) (
                if_both IsFixed _ (fixed (codes "hex-compare") refl refl) (
                  if_both IsFixed _ (fixed (codes "media-compare") refl refl) (
                    if_both IsFixed _ (fixed (codes "picture-compare") refl refl) (
                      if_both IsFixed _ (fixed (codes "model3d-compare") refl refl) (
                        if_both IsFixed _ (fixed (codes "registry-compare") refl refl) (
                          if_both IsFixed _ (fixed (codes "table-compare") refl refl) (
                            if_both IsFixed _ (fixed (codes "version-compare") refl refl)
                              (fixed [] refl refl)))))))))))))

  pub session_kind_for_viewer-IsFixed : (k : ViewerKind) → IsFixed (session_kind_for_viewer k)
  unfolding session_kind_for_viewer kind_of_word strip_kind remove_char ends_with same keyword
  session_kind_for_viewer-IsFixed ViewerKind.text = fixed (codes "text-compare") refl refl
  session_kind_for_viewer-IsFixed ViewerKind.picture = fixed (codes "picture-compare") refl refl
  session_kind_for_viewer-IsFixed ViewerKind.model3d = fixed (codes "model3d-compare") refl refl
  session_kind_for_viewer-IsFixed ViewerKind.table = fixed (codes "table-compare") refl refl
  session_kind_for_viewer-IsFixed ViewerKind.media = fixed (codes "media-compare") refl refl
  session_kind_for_viewer-IsFixed ViewerKind.registry = fixed (codes "registry-compare") refl refl
  session_kind_for_viewer-IsFixed ViewerKind.version = fixed (codes "version-compare") refl refl
  session_kind_for_viewer-IsFixed ViewerKind.hex = fixed (codes "hex-compare") refl refl

-- Whatever text a session was recorded with, the canonical kind of it is canonical: asking again
-- changes nothing.
pub canonical_session_kind_idem :
    (qt : Qt) (raw : Text)
    → canonical_session_kind qt (canonical_session_kind qt raw) ≡ canonical_session_kind qt raw
canonical_session_kind_idem qt raw =
    unfold canonical_session_kind IsFixed in kind_of_word-IsFixed qt _

-- The kind under which a viewer's sessions are recorded is recognised as that very kind.
pub canonical-session_kind_for_viewer :
    (qt : Qt) (k : ViewerKind)
    → canonical_session_kind qt (session_kind_for_viewer k) ≡ session_kind_for_viewer k
canonical-session_kind_for_viewer qt k = unfold IsFixed in session_kind_for_viewer-IsFixed qt k
