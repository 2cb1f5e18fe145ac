-- ===== src/TextEditor/Tests.antt =====
-- Thresholds and choices at concrete settings
-- (crates/openbc-ui-qt/cpp/common/text_editor_selection.h, text_editor_choice.h).
use open_bc.Prelude.{◌*◌, ◌≤◌, ◌<◌, true, ◌||◌, some, none, ◌≡◌, ◌≢◌, ◌↔◌, ◌⊎◌}
use open_bc.TextEditor.{
  Mode, SizeUnit, Editor, Settings, bytes, threshold_to_bytes, is_valid, sanitized, threshold_bytes,
  choose_editor, unit_bytes, min_threshold_bytes, max_threshold_bytes,
}
use open_bc.TextEditor.Threshold.{
  threshold_to_bytes_exact, sanitized-is_valid, threshold_bytes_range,
}
use open_bc.TextEditor.Decision.{reaches, choose_editor-virtual}
use open_bc.TextEditor.Choice.{FileInfo}

-- A threshold of 0 GB, which is not valid.
abbrev no_threshold : Settings
no_threshold = record { mode = Mode.hybrid; threshold_value = 0; threshold_unit = SizeUnit.gb }

abbrev large_files : FileInfo
large_files = record {
  exists = λ path. true;
  is_file = λ path. true;
  size = λ path. some 5000000;
  utf8_size = λ text. 3;
}

threshold_to_bytes_exact_example : (threshold_to_bytes 64 SizeUnit.gb ≡ bytes 68719476736) ↔ (
    (68719476736 ≡ 64 * unit_bytes SizeUnit.gb)
    × (0 < 64)
    × (64 * unit_bytes SizeUnit.gb ≤ max_threshold_bytes))
threshold_to_bytes_exact_example = threshold_to_bytes_exact 64 SizeUnit.gb 68719476736

sanitized-is_valid_example :
    (is_valid (sanitized no_threshold) ≡ true)
    × (sanitized (sanitized no_threshold) ≡ sanitized no_threshold)
sanitized-is_valid_example = sanitized-is_valid no_threshold

threshold_bytes_range_example :
    (min_threshold_bytes ≤ threshold_bytes no_threshold)
    × (threshold_bytes no_threshold ≤ max_threshold_bytes)
threshold_bytes_range_example = threshold_bytes_range no_threshold

choose_editor-virtual_example : (choose_editor no_threshold (some 10) none ≡ Editor.virtual) ↔ (
    (no_threshold.mode ≡ Mode.virtual)
    ⊎ ((no_threshold.mode ≢ Mode.virtual)
        × (no_threshold.mode ≢ Mode.existing)
        × ((reaches (threshold_bytes no_threshold) (some 10)
              || reaches (threshold_bytes no_threshold) none)
            ≡ true)))
choose_editor-virtual_example = choose_editor-virtual no_threshold (some 10) none
