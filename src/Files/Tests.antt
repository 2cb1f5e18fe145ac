-- ===== src/Files/Tests.antt =====
-- Session kinds and first bytes on concrete texts (crates/openbc-ui-qt/cpp/common/file_kinds.h,
-- content_sniff.h).
use open_bc.Prelude.{◌*◌, ◌≤◌, true, false, codes, has_char, length, starts_with, ◌≡◌, ◌⊎◌, refl}
use open_bc.Prelude.Qt.Plain.{plain_qt}
use open_bc.Viewers.{ViewerKind}
use open_bc.Files.Kinds.{session_kind_for_viewer}
use open_bc.Files.Sniff.{
  Sniffed, sniff_bytes, is_registry_head, is_picture_head, is_media_head, is_model3d_head,
  is_binary_head, has_bom, starts_at, starts_with_utf16le, utf16le, by_control, count_control,
  is_control,
}
use open_bc.Files.Sniff.Headers.{controls, sniff_bytes-text}
use open_bc.Files.SessionKind.{canonical_session_kind}
use open_bc.Files.SessionKind.Canonical.{
  canonical_session_kind_idem, canonical-session_kind_for_viewer,
}

canonical_session_kind_idem_example :
    canonical_session_kind plain_qt (canonical_session_kind plain_qt (codes "folder_merge"))
    ≡ canonical_session_kind plain_qt (codes "folder_merge")
canonical_session_kind_idem_example = canonical_session_kind_idem plain_qt (codes "folder_merge")

canonical-session_kind_for_viewer_example :
    canonical_session_kind plain_qt (session_kind_for_viewer ViewerKind.model3d)
    ≡ session_kind_for_viewer ViewerKind.model3d
canonical-session_kind_for_viewer_example =
    canonical-session_kind_for_viewer plain_qt ViewerKind.model3d

greeting_text : sniff_bytes (codes "hello") ≡ Sniffed.text
unfolding sniff_bytes is_registry_head is_picture_head is_media_head is_model3d_head is_binary_head
    has_bom starts_at starts_with_utf16le utf16le starts_with by_control count_control is_control
greeting_text = refl

sniff_bytes-text_example :
    (has_bom (codes "hello") ≡ true)
    ⊎ ((has_char 0 (codes "hello") ≡ false)
        × (controls (codes "hello") * 10 ≤ length (codes "hello") * 3))
sniff_bytes-text_example = sniff_bytes-text (codes "hello") greeting_text
