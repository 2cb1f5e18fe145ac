-- ===== src/Exif/Values.antt =====
-- Numbers and texts of EXIF entries (crates/openbc-ui-qt/cpp/viewers/picture/picture_exif.h).
use open_bc.Prelude.{
  ℕ, ◌-◌, Bool, ◌&&◌, some, none, List, [], ◌∷◌, ◌++◌, Text, codes, is_empty, length, get_elem?,
  drop, take, leb, ◌==◌, decimal, ℤ, print_int, if◌then◌else◌,
}

-- Doubles of C++: conversions from a number and from the opposite of one, arithmetic, comparisons,
-- conversions of the program, and the formats it prints with.
pub record Doubles : Type 1 where
  pub Double : Type 0
  pub of_nat : ℕ → Double
  pub of_negative : ℕ → Double
  pub divide : Double → Double → Double
  pub add : Double → Double → Double
  pub opposite : Double → Double
  -- `v > 0` and `v < 1.0`.
  pub is_positive : Double → Bool
  pub below_one : Double → Bool
  -- `int(v)`, `int(v) & 1`, `std::size_t(v)`, `std::uint32_t(v)` and `int(std::lround(1.0 / v))`.
  pub to_int : Double → ℤ
  pub is_odd : Double → Bool
  pub to_size : Double → ℕ
  pub to_uint32 : Double → ℕ
  pub round_inverse : Double → ℤ
  -- `%g`, `%.3g`, `%+.2f`, `%.6f` and `%.1f`.
  pub general : Double → Text
  pub general3 : Double → Text
  pub signed2 : Double → Text
  pub fixed6 : Double → Text
  pub fixed1 : Double → Text

pub record ExifEntry : Type 0 where
  pub group : Text
  pub key : Text
  pub value : Text

-- The buffer of 160 characters holds 159 and a NUL.
unfoldable pub sfmt : Text → Text
sfmt t = take 159 t

unfoldable pub add_entry : Text → Text → Text → List ExifEntry → List ExifEntry
add_entry group key value out =
    if is_empty value then out else out ++ record { group = group; key = key; value = value } ∷ []

-- `s[i] == c`.
unfoldable pub char_is : Text → ℕ → ℕ → Bool
char_is s i c = elim (get_elem? s i) [ none ↦ Bool.false | some d ↦ d == c ]

unfoldable pub pretty_date : Text → Text
pretty_date s =
    if leb 10 (length s) && (char_is s 4 b':' && char_is s 7 b':')
    then take 4 s ++ b'-' ∷ take 2 (drop 5 s) ++ b'-' ∷ drop 8 s
    else s

unfoldable pub orientation_names : List Text
orientation_names =
    codes "Normal"
    ∷ codes "Mirror horizontal"
    ∷ codes "Rotate 180"
    ∷ codes "Mirror vertical"
    ∷ codes "Mirror horizontal, rotate 270 CW"
    ∷ codes "Rotate 90 CW"
    ∷ codes "Mirror horizontal, rotate 90 CW"
    ∷ codes "Rotate 270 CW"
    ∷ []

-- `names[v - 1]`, or the number alone outside of 1 to 8.
unfoldable pub orientation_name : ℤ → Text
orientation_name (ℤ.negsuc n) = print_int (ℤ.negsuc n)
orientation_name (ℤ.pos v) =
    if leb 1 v && leb v 8
    then (elim (get_elem? orientation_names (v - 1)) [ none ↦ [] | some t ↦ t ])
      ++ codes " ("
      ++ decimal v
      ++ codes ")"
    else decimal v

module _ (floats : Doubles) where
  open floats use {Double, of_nat, add, divide}

  unfoldable pub gps_degrees : List Double → Double
  gps_degrees [] = of_nat 0
  gps_degrees (d ∷ []) = d
  gps_degrees (d ∷ m ∷ []) = add d (divide m (of_nat 60))
  gps_degrees (d ∷ m ∷ s ∷ _) = add (add d (divide m (of_nat 60))) (divide s (of_nat 3600))
