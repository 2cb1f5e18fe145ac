-- ===== src/Sessions.antt =====
-- The session history and the saved sessions of the Home tab
-- (crates/openbc-ui-qt/cpp/home/session_history.h).
pub mod Names
pub mod Recent
pub mod Saved
pub mod Tests
use open_bc.Prelude.{
  ℕ, suc, ◌-◌, Bool, true, false, Option, some, none, List, [], ◌∷◌, ◌++◌, Text, codes, is_empty,
  length, ltb, leb, ◌==◌, if◌then◌else◌,
}
use open_bc.Prelude.Qt.{Qt}

-- An entry of a JSON file. `opened_day` is the day of `openedAt.date()`, `none` if it is not valid.
pub record Entry : Type 0 where
  pub kind : Text
  pub left : Text
  pub right : Text
  pub label : Text
  pub opened_day : Option ℕ

-- The two clocks that the code reads: the day of `currentDateTimeUtc()`, which is written to the
-- files, and that of `QDate::currentDate()`, which is local.
pub record Clock : Type 0 where
  pub utc_day : ℕ
  pub local_day : ℕ

-- The files. `none`: the file cannot be opened for reading. A file that cannot be opened for
-- writing stays as it is.
pub record Files : Type 0 where
  pub history : Option (List Entry)
  pub history_writable : Bool
  pub saved : Text → Option (List Entry)
  pub saved_writable : Text → Bool

unfoldable pub read_array : Option (List Entry) → List Entry
read_array none = []
read_array (some entries) = entries

pub data RecentBucket : Type 0 where
  today yesterday this_week last_week older : RecentBucket

unfoldable pub bucket_for : ℕ → Option ℕ → RecentBucket
bucket_for local_day none = RecentBucket.older
bucket_for local_day (some day) =
    let days_ago = local_day - day in
    if leb local_day day
    then RecentBucket.today
    else if days_ago == 1
    then RecentBucket.yesterday
    else if leb days_ago 7
    then RecentBucket.this_week
    else if leb days_ago 14
    then RecentBucket.last_week
    else RecentBucket.older

-- An index that the user interface passes: a C++ `int`.
pub data Index : Type 0 where
  negative : Index
  at : ℕ → Index

-- The position, if it lies in the list.
unfoldable pub checked : Index → ℕ → Option ℕ
checked negative n = none
checked (at i) n = if ltb i n then some i else none

unfoldable pub remove_at {ℓ} : {A : Type ℓ} → ℕ → List A → List A
remove_at i [] = []
remove_at ℕ.zero (x ∷ xs) = xs
remove_at (suc i) (x ∷ xs) = x ∷ remove_at i xs

unfoldable pub replace_at {ℓ} : {A : Type ℓ} → ℕ → (A → A) → List A → List A
replace_at i f [] = []
replace_at ℕ.zero f (x ∷ xs) = f x ∷ xs
replace_at (suc i) f (x ∷ xs) = x ∷ replace_at i f xs

module _ (qt : Qt) where
  open qt use {trimmed, file_name}

  unfoldable pub default_label : Text → Text → Text
  default_label left right =
      (if is_empty left then codes "(missing)" else file_name left)
      ++ codes " <-> "
      ++ (if is_empty right then codes "(missing)" else file_name right)

  -- The label as given, or the default one if it is blank.
  unfoldable pub label_or_default : Text → Text → Text → Text
  label_or_default label left right =
      if is_empty (trimmed label) then default_label left right else trimmed label
