-- ===== src/TextEditor.antt =====
-- Which text editor opens a comparison: the settings and the decision
-- (crates/openbc-ui-qt/cpp/options/text_editor_selection.h) and the facts about the two sides
-- (cpp/viewers/text/text_editor_choice.h).
pub mod Threshold
pub mod Tests
pub mod Decision
pub mod Choice
use open_bc.Prelude.{
  ℕ, ◌*◌, ◌/◌, ◌%◌, ◌^◌, Bool, true, false, ◌&&◌, ◌||◌, negate, Option, some, none, Text, codes,
  ltb, leb, ◌==◌, if◌then◌else◌,
}

-- `other` stands for every value of the underlying `int` that is no enumerator, as a preferences
-- file may hold.
pub data Mode : Type 0 where
  existing virtual hybrid other : Mode

pub data SizeUnit : Type 0 where
  kb mb gb other : SizeUnit

pub data Editor : Type 0 where
  existing virtual : Editor

abbrev pub kib : ℕ
kib = 1024

abbrev pub min_threshold_bytes : ℕ
min_threshold_bytes = 1 * kib

abbrev pub max_threshold_bytes : ℕ
max_threshold_bytes = 64 * kib * kib * kib

abbrev pub u64_mod : ℕ
u64_mod = 2 ^ 64

unfoldable pub unit_bytes : SizeUnit → ℕ
unit_bytes SizeUnit.kb = kib
unit_bytes SizeUnit.mb = kib * kib
unit_bytes SizeUnit.gb = kib * kib * kib
unit_bytes SizeUnit.other = kib * kib

unfoldable pub unit_name : SizeUnit → Text
unit_name SizeUnit.kb = codes "KB"
unit_name SizeUnit.gb = codes "GB"
unit_name _ = codes "MB"

pub record Settings : Type 0 where
  pub mode : Mode
  pub threshold_value : ℕ
  pub threshold_unit : SizeUnit

pub data Converted : Type 0 where
  bytes : ℕ → Converted
  invalid : Text → Converted

not_zero : Text
not_zero = codes "The threshold must be greater than zero."

too_large : Text
too_large = codes "The threshold is too large (maximum 64 GB)."

too_small : Text
too_small = codes "The threshold must be at least 1 KB."

-- The product is one of 64-bit words.
unfoldable pub threshold_to_bytes : ℕ → SizeUnit → Converted
unfolding not_zero too_large too_small
threshold_to_bytes value unit =
    let scale = unit_bytes unit in
    let result = (value * scale) % u64_mod in
    if value == 0
    then invalid not_zero
    else if ltb (max_threshold_bytes / scale) value
    then invalid too_large
    else if ltb result min_threshold_bytes
    then invalid too_small
    else bytes result

unfoldable pub is_valid : Settings → Bool
is_valid s = elim (threshold_to_bytes s.threshold_value s.threshold_unit) [
  | bytes n ↦ true
  | invalid message ↦ false
]

unfoldable pub known_mode : Mode → Mode
known_mode Mode.existing = Mode.existing
known_mode Mode.virtual = Mode.virtual
known_mode Mode.hybrid = Mode.hybrid
known_mode Mode.other = Mode.hybrid

unfoldable pub known_unit : SizeUnit → SizeUnit
known_unit SizeUnit.kb = SizeUnit.kb
known_unit SizeUnit.mb = SizeUnit.mb
known_unit SizeUnit.gb = SizeUnit.gb
known_unit SizeUnit.other = SizeUnit.mb

-- The unknown enumerators are replaced first, then a value that does not convert.
unfoldable pub with_known : Settings → Settings
unfolding known_mode known_unit
with_known s = record s { mode = known_mode s.mode; threshold_unit = known_unit s.threshold_unit }

unfoldable pub with_default : Settings → Settings
with_default s = record s { threshold_value = 3; threshold_unit = SizeUnit.mb }

unfoldable pub sanitized : Settings → Settings
sanitized s = let named = with_known s in if is_valid named then named else with_default named

unfoldable pub threshold_bytes : Settings → ℕ
threshold_bytes s =
    let clean = sanitized s in
    elim (threshold_to_bytes clean.threshold_value clean.threshold_unit) [
      | bytes n ↦ n
      | invalid message ↦ 0
    ]

-- A side's size in bytes is `none` where it is negative, which is unknown.
unfoldable pub by_size : ℕ → Option ℕ → Option ℕ → Editor
by_size limit none r = Editor.virtual
by_size limit (some l) none = Editor.virtual
by_size limit (some l) (some r) =
    if leb limit l || leb limit r then Editor.virtual else Editor.existing

-- The explicit modes override the sizes.
unfoldable pub by_mode : Mode → ℕ → Option ℕ → Option ℕ → Editor
by_mode Mode.existing limit left right = Editor.existing
by_mode Mode.virtual limit left right = Editor.virtual
by_mode _ limit left right = by_size limit left right

unfoldable pub choose_editor : Settings → Option ℕ → Option ℕ → Editor
choose_editor s left right = by_mode s.mode (threshold_bytes s) left right
