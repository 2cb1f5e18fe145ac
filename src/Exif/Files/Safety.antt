-- ===== src/Exif/Files/Safety.antt =====
-- Reading EXIF data stays inside of the buffer and comes to an end
-- (crates/openbc-ui-qt/cpp/viewers/picture/picture_exif.h).
use open_bc.Prelude.{
  ℕ, ◌^◌, ◌≤◌, ◌<◌, ◌&&◌, negate, List, [], Text, length, ltb, ltb→le, ◌==◌, ◌≡◌, arith,
}
use open_bc.Exif.Memory.{Read, Reader}
use open_bc.Exif.Values.{Doubles, ExifEntry}
use open_bc.Exif.Fields.{Field}
use open_bc.Exif.Fields.Safety.{
  Ends, ends, Ends-bind, Ends-if, IsWhole, byte-Ends, le-has, u16-Ends, u32-Ends,
  for_each_field-Ends, ascii-Ends, numbers-Ends,
}
use open_bc.Exif.Directories.{
  on_first, on_ascii, exif_field, gps_field, parse_exif_ifd, parse_gps_ifd, ExifState, GpsState,
}
use open_bc.Exif.Files.{
  tiff_field, TiffState, follow_pointer, parse_directories, parse_ordered, parse_tiff,
}

module _ (floats : Doubles) (r : Reader) (w : IsWhole r) where
  on_first-Ends {ℓ} :
      {S : Type ℓ} (k : floats.Double → S → S) (f : Field) (s : S) → Ends (on_first floats r k f s)
  unfolding on_first
  on_first-Ends k f s = Ends-bind (numbers-Ends r w floats f 1) (λ v. ends _)

  on_ascii-Ends {ℓ} :
      {S : Type ℓ} (k : Text → S → S) (f : Field) (s : S) → Ends (on_ascii floats r k f s)
  unfolding on_ascii
  on_ascii-Ends k f s = Ends-bind (ascii-Ends r w f) (λ t. ends _)

  exif_field-Ends : (f : Field) (s : ExifState) → Ends (exif_field floats r f s)
  unfolding exif_field
  exif_field-Ends f s =
      Ends-if (f.tag == 0x829A) (λ _. on_first-Ends _ f s)
        (λ _.
          Ends-if (f.tag == 0x829D) (λ _. on_first-Ends _ f s)
            (λ _.
              Ends-if (f.tag == 0x8827) (λ _. on_first-Ends _ f s)
                (λ _.
                  Ends-if (f.tag == 0x9003) (λ _. on_ascii-Ends _ f s)
                    (λ _.
                      Ends-if (f.tag == 0x9004) (λ _. on_ascii-Ends _ f s)
                        (λ _.
                          Ends-if (f.tag == 0x9204) (λ _. on_first-Ends _ f s)
                            (λ _.
                              Ends-if (f.tag == 0x9209) (λ _. on_first-Ends _ f s)
                                (λ _.
                                  Ends-if (f.tag == 0x920A) (λ _. on_first-Ends _ f s)
                                    (λ _.
                                      Ends-if (f.tag == 0xA001) (λ _. on_first-Ends _ f s)
                                        (λ _.
                                          Ends-if (f.tag == 0xA002) (λ _. on_first-Ends _ f s)
                                            (λ _.
                                              Ends-if (f.tag == 0xA003) (λ _. on_first-Ends _ f s)
                                                (λ _.
                                                  Ends-if (f.tag == 0xA405)
                                                    (λ _. on_first-Ends _ f s)
                                                    (λ _.
                                                      Ends-if (f.tag == 0xA434)
                                                        (λ _. on_ascii-Ends _ f s)
                                                        (λ _. ends s)))))))))))))

  gps_field-Ends : (f : Field) (s : GpsState floats r) → Ends (gps_field floats r f s)
  unfolding gps_field
  gps_field-Ends f s =
      Ends-if (f.tag == 1) (λ _. on_ascii-Ends _ f s)
        (λ _.
          Ends-if (f.tag == 2) (λ _. Ends-bind (numbers-Ends r w floats f 3) (λ v. ends _))
            (λ _.
              Ends-if (f.tag == 3) (λ _. on_ascii-Ends _ f s)
                (λ _.
                  Ends-if (f.tag == 4) (λ _. Ends-bind (numbers-Ends r w floats f 3) (λ v. ends _))
                    (λ _.
                      Ends-if (f.tag == 5) (λ _. on_first-Ends _ f s)
                        (λ _. Ends-if (f.tag == 6) (λ _. on_first-Ends _ f s) (λ _. ends s))))))

  tiff_field-Ends : (f : Field) (s : TiffState floats) → Ends (tiff_field floats r f s)
  unfolding tiff_field
  tiff_field-Ends f s =
      Ends-if (f.tag == 0x010E) (λ _. on_ascii-Ends _ f s)
        (λ _.
          Ends-if (f.tag == 0x010F) (λ _. on_ascii-Ends _ f s)
            (λ _.
              Ends-if (f.tag == 0x0110) (λ _. on_ascii-Ends _ f s)
                (λ _.
                  Ends-if (f.tag == 0x0112) (λ _. on_first-Ends _ f s)
                    (λ _.
                      Ends-if (f.tag == 0x011A) (λ _. on_first-Ends _ f s)
                        (λ _.
                          Ends-if (f.tag == 0x011B) (λ _. on_first-Ends _ f s)
                            (λ _.
                              Ends-if (f.tag == 0x0128) (λ _. on_first-Ends _ f s)
                                (λ _.
                                  Ends-if (f.tag == 0x0131) (λ _. on_ascii-Ends _ f s)
                                    (λ _.
                                      Ends-if (f.tag == 0x0132) (λ _. on_ascii-Ends _ f s)
                                        (λ _.
                                          Ends-if (f.tag == 0x013B) (λ _. on_ascii-Ends _ f s)
                                            (λ _.
                                              Ends-if (f.tag == 0x8298) (λ _. on_ascii-Ends _ f s)
                                                (λ _.
                                                  Ends-if (f.tag == 0x8769)
                                                    (λ _. on_first-Ends _ f s)
                                                    (λ _.
                                                      Ends-if (f.tag == 0x8825)
                                                        (λ _. on_first-Ends _ f s)
                                                        (λ _. ends s)))))))))))))

  follow_pointer-Ends :
      (parse_ifd : ℕ → List ExifEntry → Read (List ExifEntry)) (off : ℕ) (out : List ExifEntry)
      → ((o : ℕ) (l : List ExifEntry) → Ends (parse_ifd o l))
      → Ends (follow_pointer floats parse_ifd off out)
  unfolding follow_pointer
  follow_pointer-Ends parse_ifd off out h = Ends-if (off == 0) (λ _. ends out) (λ _. h off out)

  parse_exif_ifd-Ends : (off : ℕ) (out : List ExifEntry) → Ends (parse_exif_ifd floats r off out)
  unfolding parse_exif_ifd
  parse_exif_ifd-Ends off out =
      Ends-bind (for_each_field-Ends r w (exif_field floats r) exif_field-Ends off _) (λ s. ends _)

  parse_gps_ifd-Ends : (off : ℕ) (out : List ExifEntry) → Ends (parse_gps_ifd floats r off out)
  unfolding parse_gps_ifd
  parse_gps_ifd-Ends off out =
      Ends-bind (for_each_field-Ends r w (gps_field floats r) gps_field-Ends off _) (λ s. ends _)

  -- A buffer of at least eight bytes holds what the header reads.
  parse_ordered-Ends : 8 ≤ r.size → Ends (parse_ordered floats r)
  unfolding parse_ordered parse_directories
  parse_ordered-Ends h = Ends-bind (u16-Ends r w 2 (le-has r 2 2 (omega (arith, h)))) (λ magic.
      Ends-if (negate (magic == 42)) (λ _. ends [])
        (λ _. Ends-bind (u32-Ends r w 4 (le-has r 4 4 (omega (arith, h)))) (λ first.
          Ends-bind (for_each_field-Ends r w (tiff_field floats r) tiff_field-Ends first _) (λ s.
            Ends-bind
              (follow_pointer-Ends (parse_exif_ifd floats r) s.exif_off _ parse_exif_ifd-Ends)
              (λ out.
                follow_pointer-Ends (parse_gps_ifd floats r) s.gps_off out parse_gps_ifd-Ends)))))

module _ (floats : Doubles) where
  pub parse_tiff-Ends :
      (tiff : List ℕ) (size : ℕ)
      → size ≡ length tiff
      → size < 2 ^ 64
      → Ends (parse_tiff floats tiff size)
  unfolding parse_tiff
  parse_tiff-Ends tiff size whole small =
      Ends-if (ltb size 8) (λ _. ends [])
        (λ e. Ends-bind (byte-Ends tiff 0 (enough 0 (ltb→le size 8 e) (omega arith))) (λ a.
          Ends-bind (byte-Ends tiff 1 (enough 1 (ltb→le size 8 e) (omega arith))) (λ b.
            Ends-if (a == b'I' && b == b'I')
              (λ _.
                parse_ordered-Ends floats _ (record { whole = whole; small = small })
                  (ltb→le size 8 e))
              (λ _.
                Ends-if (a == b'M' && b == b'M')
                  (λ _.
                    parse_ordered-Ends floats _ (record { whole = whole; small = small })
                      (ltb→le size 8 e))
                  (λ _. ends [])))))
    where
      enough : (i : ℕ) → 8 ≤ size → i < 8 → i < length tiff
      enough i h l = omega (arith, whole, h, l)
