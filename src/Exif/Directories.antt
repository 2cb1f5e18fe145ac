-- ===== src/Exif/Directories.antt =====
-- The Exif and GPS directories (`parseExifIfd` and `parseGpsIfd` of
-- crates/openbc-ui-qt/cpp/viewers/picture/picture_exif.h).
use open_bc.Prelude.{
  ℤ, print_int, is_int, ℕ, ◌&&◌, ◌||◌, negate, Option, some, none, List, [], ◌∷◌, ◌++◌, Text, codes,
  is_empty, decimal, ◌==◌, if◌then◌else◌,
}
use open_bc.Exif.Memory.{Read, value, ◌>>=◌, Reader}
use open_bc.Exif.Values.{Doubles, ExifEntry, sfmt, add_entry, pretty_date, gps_degrees}
use open_bc.Exif.Fields.{Field, for_each_field, ascii, numbers}

abbrev pub exif : Text
exif = codes "EXIF"

abbrev pub gps : Text
gps = codes "GPS"

-- What the loop over the Exif directory carries on.
pub record ExifState : Type 0 where
  pub pixel_x : ℕ
  pub pixel_y : ℕ
  pub out : List ExifEntry

unfoldable pub emit : Text → Text → ExifState → ExifState
emit key text s = record s { out = add_entry exif key text s.out }

-- What is done with the first number, if there is one.
unfoldable pub with_head {ℓ κ} : {A : Type ℓ} {S : Type κ} → (A → S → S) → List A → S → S
with_head k [] s = s
with_head k (v ∷ vs) s = k v s

module _ (floats : Doubles) (r : Reader) where
  open floats use {
    Double, of_nat, opposite, is_positive, below_one, to_int, is_odd, to_size, to_uint32,
    round_inverse, general, general3, signed2, fixed6, fixed1,
  }

  -- The cases of the switches: on the first number, or on the text.
  unfoldable pub on_first {ℓ} : {S : Type ℓ} → (Double → S → S) → Field → S → Read S
  on_first k f s = numbers floats r f 1 >>= λ v. value (with_head k v s)

  unfoldable pub on_ascii {ℓ} : {S : Type ℓ} → (Text → S → S) → Field → S → Read S
  on_ascii k f s = ascii r f >>= λ t. value (k t s)

  unfoldable pub exposure : Double → ExifState → ExifState
  exposure v s =
      if negate (is_positive v)
      then s
      else emit (codes "Exposure time")
          (if below_one v
            then sfmt (codes "1/" ++ print_int (round_inverse v) ++ codes " s")
            else sfmt (general v ++ codes " s"))
          s

  unfoldable pub color_space : ℤ → Text
  color_space cs =
      if is_int 1 cs
      then codes "sRGB"
      else if is_int 65535 cs
      then codes "Uncalibrated"
      else sfmt (print_int cs)

  unfoldable pub focal_35mm : Double → ExifState → ExifState
  focal_35mm v s =
      if is_positive v
      then emit (codes "Focal length (35mm)") (sfmt (print_int (to_int v) ++ codes " mm")) s
      else s

  unfoldable pub exif_field : Field → ExifState → Read ExifState
  exif_field f s =
      if f.tag == 0x829A
      then on_first exposure f s
      else if f.tag == 0x829D
      then on_first (λ v. emit (codes "Aperture") (sfmt (codes "f/" ++ general3 v))) f s
      else if f.tag == 0x8827
      then on_first (λ v. emit (codes "ISO") (sfmt (print_int (to_int v)))) f s
      else if f.tag == 0x9003
      then on_ascii (λ t. emit (codes "Date taken") (pretty_date t)) f s
      else if f.tag == 0x9004
      then on_ascii (λ t. emit (codes "Date digitized") (pretty_date t)) f s
      else if f.tag == 0x9204
      then on_first (λ v. emit (codes "Exposure bias") (sfmt (signed2 v ++ codes " EV"))) f s
      else if f.tag == 0x9209
      then on_first
          (λ v. emit (codes "Flash") (if is_odd v then codes "Fired" else codes "Did not fire")) f s
      else if f.tag == 0x920A
      then on_first (λ v. emit (codes "Focal length") (sfmt (general3 v ++ codes " mm"))) f s
      else if f.tag == 0xA001
      then on_first (λ v. emit (codes "Color space") (color_space (to_int v))) f s
      else if f.tag == 0xA002
      then on_first (λ v (t : ExifState). record t { pixel_x = to_uint32 v }) f s
      else if f.tag == 0xA003
      then on_first (λ v (t : ExifState). record t { pixel_y = to_uint32 v }) f s
      else if f.tag == 0xA405
      then on_first focal_35mm f s
      else if f.tag == 0xA434
      then on_ascii (λ t. emit (codes "Lens model") t) f s
      else value s

  unfoldable pub with_pixels : ExifState → List ExifEntry
  with_pixels s =
      if negate (s.pixel_x == 0) && negate (s.pixel_y == 0)
      then add_entry exif (codes "Pixel dimensions (EXIF)")
          (sfmt (decimal s.pixel_x ++ codes " x " ++ decimal s.pixel_y)) s.out
      else s.out

  unfoldable pub parse_exif_ifd : ℕ → List ExifEntry → Read (List ExifEntry)
  parse_exif_ifd off out =
      for_each_field r exif_field off (record { pixel_x = 0; pixel_y = 0; out = out }) >>= λ s.
      value (with_pixels s)

  -- What the loop over the GPS directory carries on.
  pub record GpsState : Type 0 where
    pub lat : List Double
    pub lon : List Double
    pub lat_ref : Text
    pub lon_ref : Text
    pub altitude : Option Double
    pub altitude_ref : ℤ

  unfoldable pub gps_field : Field → GpsState → Read GpsState
  gps_field f s =
      if f.tag == 1
      then on_ascii (λ t (g : GpsState). record g { lat_ref = t }) f s
      else if f.tag == 2
      then numbers floats r f 3 >>= (λ v. value (record s { lat = v }))
      else if f.tag == 3
      then on_ascii (λ t (g : GpsState). record g { lon_ref = t }) f s
      else if f.tag == 4
      then numbers floats r f 3 >>= (λ v. value (record s { lon = v }))
      else if f.tag == 5
      then on_first (λ v (g : GpsState). record g { altitude_ref = to_int v }) f s
      else if f.tag == 6
      then on_first (λ v (g : GpsState). record g { altitude = some v }) f s
      else value s

  -- The opposite on the southern or western half.
  unfoldable pub with_ref : ℕ → ℕ → Text → Double → Double
  with_ref upper lower [] v = v
  with_ref upper lower (c ∷ _) v = if c == upper || c == lower then opposite v else v

  unfoldable pub position_entry : GpsState → List ExifEntry → List ExifEntry
  position_entry s out =
      if negate (is_empty s.lat) && negate (is_empty s.lon)
      then add_entry gps (codes "Position")
          (sfmt (
            fixed6 (with_ref b'S' b's' s.lat_ref (gps_degrees floats s.lat))
            ++ codes ", "
            ++ fixed6 (with_ref b'W' b'w' s.lon_ref (gps_degrees floats s.lon))))
          out
      else out

  unfoldable pub altitude_entry : Option Double → ℤ → List ExifEntry → List ExifEntry
  altitude_entry none ref out = out
  altitude_entry (some v) ref out =
      add_entry gps (codes "Altitude")
        (sfmt (fixed1 (if is_int 1 ref then opposite v else v) ++ codes " m")) out

  unfoldable pub parse_gps_ifd : ℕ → List ExifEntry → Read (List ExifEntry)
  parse_gps_ifd off out =
      for_each_field r gps_field off (record {
        lat = [];
        lon = [];
        lat_ref = [];
        lon_ref = [];
        altitude = none;
        altitude_ref = ℤ.pos 0;
      })
      >>= λ s. value (altitude_entry s.altitude s.altitude_ref (position_entry s out))
