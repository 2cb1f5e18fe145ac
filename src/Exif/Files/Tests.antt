-- ===== src/Exif/Files/Tests.antt =====
-- A JPEG file whose Exif segment names the camera
-- (crates/openbc-ui-qt/cpp/viewers/picture/picture_exif.h).
use open_bc.Prelude.{ℤ, ℕ, ◌^◌, ◌<◌, false, List, [], ◌∷◌, ◌++◌, codes, length, take, ltb, arith}
use open_bc.Exif.Values.{Doubles}
use open_bc.Exif.Fields.Safety.{Ends}
use open_bc.Exif.Files.{parse_exif}
use open_bc.Exif.Files.Segments.{parse_exif-Ends}

-- Whole numbers in the place of doubles.
abbrev whole : Doubles
whole = record {
  Double = ℕ;
  of_nat = λ n. n;
  of_negative = λ n. 0;
  divide = λ a b. a;
  add = λ a b. a;
  opposite = λ a. a;
  is_positive = λ a. ltb 0 a;
  below_one = λ a. false;
  to_int = ℤ.pos;
  is_odd = λ a. false;
  to_size = λ a. a;
  to_uint32 = λ a. a;
  round_inverse = ℤ.pos;
  general = λ a. [];
  general3 = λ a. [];
  signed2 = λ a. [];
  fixed6 = λ a. [];
  fixed1 = λ a. [];
}

-- One field in the first directory: the make, "Me".
abbrev tiff : List ℕ
tiff =
    codes "MM"
    ++ 0 ∷ 42 ∷ 0 ∷ 0 ∷ 0 ∷ 8 ∷ 0 ∷ 1 ∷ 1 ∷ 15 ∷ 0 ∷ 2 ∷ 0 ∷ 0 ∷ 0 ∷ 3 ∷ codes "Me"
    ++ 0 ∷ 0 ∷ []

abbrev jpeg : List ℕ
jpeg = 0xFF ∷ 0xD8 ∷ 0xFF ∷ 0xE1 ∷ 0 ∷ 30 ∷ codes "Exif" ++ 0 ∷ 0 ∷ tiff

-- The same file, whose directory is said to lie at the end of the address space.
abbrev corrupt : List ℕ
corrupt = take 16 jpeg ++ 0xFF ∷ 0xFF ∷ 0xFF ∷ 0xFF ∷ []

jpeg_small : length jpeg < 2 ^ 64
jpeg_small = omega arith

parse_exif-Ends_example : Ends (parse_exif whole jpeg)
parse_exif-Ends_example = parse_exif-Ends whole jpeg jpeg_small
