-- ===== src/Exif/Files.antt =====
-- The header of a TIFF file and the segments of a JPEG file (`parseTiff` and `parse` of
-- crates/openbc-ui-qt/cpp/viewers/picture/picture_exif.h).
pub mod Safety
pub mod Segments
pub mod Tests
use open_bc.Prelude.{
  ℤ, is_int, ℕ, zero, suc, ◌+◌, ◌-◌, ◌*◌, min, Bool, true, false, ◌&&◌, ◌||◌, negate, Option, some,
  none, List, [], ◌∷◌, ◌++◌, Text, codes, length, take, drop, ltb, leb, ◌==◌, if◌then◌else◌,
}
use open_bc.Exif.Memory.{Read, value, beyond, endless, ◌>>=◌, byte, Reader, u16, u32}
use open_bc.Exif.Values.{Doubles, ExifEntry, sfmt, add_entry, pretty_date, orientation_name}
use open_bc.Exif.Fields.{Field, for_each_field}
use open_bc.Exif.Directories.{exif, on_first, on_ascii, parse_exif_ifd, parse_gps_ifd}

-- `memcmp(data + at, magic, n) == 0`, which may read all of the `n` bytes.
unfoldable pub same_bytes : List ℕ → ℕ → List ℕ → Read Bool
same_bytes bytes at [] = value true
same_bytes bytes at (m ∷ ms) =
    byte bytes at >>= λ c. same_bytes bytes (suc at) ms >>= λ rest. value (c == m && rest)

module _ (floats : Doubles) where
  open floats use {Double, of_nat, is_positive, to_int, to_size, general}

  -- What the loop over the first directory carries on.
  pub record TiffState : Type 0 where
    pub out : List ExifEntry
    pub exif_off : ℕ
    pub gps_off : ℕ
    pub xres : Double
    pub yres : Double
    pub unit : ℤ

  unfoldable pub put : Text → Text → TiffState → TiffState
  put key text s = record s { out = add_entry exif key text s.out }

  unfoldable pub tiff_field : Reader → Field → TiffState → Read TiffState
  tiff_field r f s =
      if f.tag == 0x010E
      then on_ascii floats r (λ t. put (codes "Description") t) f s
      else if f.tag == 0x010F
      then on_ascii floats r (λ t. put (codes "Camera make") t) f s
      else if f.tag == 0x0110
      then on_ascii floats r (λ t. put (codes "Camera model") t) f s
      else if f.tag == 0x0112
      then on_first floats r (λ v. put (codes "Orientation") (orientation_name (to_int v))) f s
      else if f.tag == 0x011A
      then on_first floats r (λ v (t : TiffState). record t { xres = v }) f s
      else if f.tag == 0x011B
      then on_first floats r (λ v (t : TiffState). record t { yres = v }) f s
      else if f.tag == 0x0128
      then on_first floats r (λ v (t : TiffState). record t { unit = to_int v }) f s
      else if f.tag == 0x0131
      then on_ascii floats r (λ t. put (codes "Software") t) f s
      else if f.tag == 0x0132
      then on_ascii floats r (λ t. put (codes "Date modified (EXIF)") (pretty_date t)) f s
      else if f.tag == 0x013B
      then on_ascii floats r (λ t. put (codes "Artist") t) f s
      else if f.tag == 0x8298
      then on_ascii floats r (λ t. put (codes "Copyright") t) f s
      else if f.tag == 0x8769
      then on_first floats r (λ v (t : TiffState). record t { exif_off = to_size v }) f s
      else if f.tag == 0x8825
      then on_first floats r (λ v (t : TiffState). record t { gps_off = to_size v }) f s
      else value s

  unfoldable pub with_resolution : TiffState → List ExifEntry
  with_resolution s =
      if is_positive s.xres && is_positive s.yres && (is_int 2 s.unit || is_int 3 s.unit)
      then add_entry exif (codes "Resolution")
          (sfmt (
            general s.xres
            ++ codes " x "
            ++ general s.yres
            ++ (if is_int 2 s.unit then codes " dpi" else codes " dpcm")))
          s.out
      else s.out

  -- The other directories, where the first one points to them.
  unfoldable pub follow_pointer :
      (ℕ → List ExifEntry → Read (List ExifEntry)) → ℕ → List ExifEntry → Read (List ExifEntry)
  follow_pointer parse_ifd off out = if off == 0 then value out else parse_ifd off out

  unfoldable pub start_state : TiffState
  start_state = record {
    out = [];
    exif_off = 0;
    gps_off = 0;
    xres = of_nat 0;
    yres = of_nat 0;
    unit = ℤ.pos 2;
  }

  unfoldable pub parse_directories : Reader → Read (List ExifEntry)
  parse_directories r = do
    first ← u32 r 4
    s ← for_each_field r (tiff_field r) first start_state
    out ← follow_pointer (parse_exif_ifd floats r) s.exif_off (with_resolution s)
    follow_pointer (parse_gps_ifd floats r) s.gps_off out

  -- Behind the byte order.
  unfoldable pub parse_ordered : Reader → Read (List ExifEntry)
  parse_ordered r =
      u16 r 2 >>= λ magic. if negate (magic == 42) then value [] else parse_directories r

  -- `tiff` is the buffer of `size` bytes from the header on.
  unfoldable pub parse_tiff : List ℕ → ℕ → Read (List ExifEntry)
  parse_tiff tiff size =
      if ltb size 8
      then value []
      else byte tiff 0 >>= λ a. byte tiff 1 >>= λ b.
          if a == b'I' && b == b'I'
          then parse_ordered (record { base = tiff; size = size; little = true })
          else if a == b'M' && b == b'M'
          then parse_ordered (record { base = tiff; size = size; little = false })
          else value []

-- What a round of the loop over the segments does: it stops, goes on at a position, or has found the
-- Exif segment, `length` bytes from `at`.
pub data Round : Type 0 where
  stopped : Round
  goes_on : ℕ → Round
  found : (at length : ℕ) → Round

-- A segment with a payload of `len` bytes, the two of the length included. The positions of the loop do
-- not wrap at 64 bits, since a buffer in memory is more than 2^16 bytes shorter than that.
unfoldable pub segment : List ℕ → ℕ → ℕ → ℕ → ℕ → Read Round
segment bytes size pos marker len =
    if ltb len 2
    then value stopped
    else let seg = pos + 4 in
      let seg_len = min (len - 2) (size - seg) in
      if marker == 0xE1 && leb 6 seg_len
      then (same_bytes bytes seg (codes "Exif" ++ 0 ∷ 0 ∷ []) >>= λ e.
          value (if e then found (seg + 6) (seg_len - 6) else goes_on (pos + (2 + len))))
      else value (goes_on (pos + (2 + len)))

unfoldable pub marked : List ℕ → ℕ → ℕ → ℕ → Read Round
marked bytes size pos marker =
    if marker == 0xFF
    then value (goes_on (pos + 1))
    else if marker == 0x01 || (leb 0xD0 marker && leb marker 0xD8)
    then value (goes_on (pos + 2))
    else if marker == 0xDA || marker == 0xD9
    then value stopped
    else byte bytes (pos + 2) >>= λ high.
        byte bytes (pos + 3) >>= λ low. segment bytes size pos marker (high * 256 + low)

unfoldable pub segment_round : List ℕ → ℕ → ℕ → Read Round
segment_round bytes size pos =
    if ltb size (pos + 4)
    then value stopped
    else byte bytes pos >>= λ c.
        if negate (c == 0xFF)
        then value stopped
        else byte bytes (pos + 1) >>= λ marker. marked bytes size pos marker

module _ (floats : Doubles) where
  -- The loop over the segments, from `pos`, for a number of rounds.
  unfoldable pub walk_segments : List ℕ → ℕ → ℕ → ℕ → Read (List ExifEntry)
  walk_segments bytes size zero pos = endless
  walk_segments bytes size (suc k) pos = segment_round bytes size pos >>= λ x. elim x [
    | stopped ↦ value []
    | goes_on p ↦ walk_segments bytes size k p
    | found at n ↦ parse_tiff floats (take n (drop at bytes)) n
  ]

  unfoldable pub is_tiff_header : ℕ → ℕ → ℕ → ℕ → Bool
  is_tiff_header a b c d =
      (a == b'I' && b == b'I' && c == 42 && d == 0) || (a == b'M' && b == b'M' && c == 0 && d == 42)

  unfoldable pub parse_headed : ℕ → ℕ → ℕ → ℕ → List ℕ → Read (List ExifEntry)
  parse_headed a b c d bytes =
      if is_tiff_header a b c d then parse_tiff floats bytes (length bytes) else value []

  -- Every round goes on by a byte at least, so as many rounds as there are bytes are enough.
  unfoldable pub parse_exif : List ℕ → Read (List ExifEntry)
  parse_exif bytes =
      if ltb (length bytes) 8
      then value []
      else byte bytes 0 >>= λ a. byte bytes 1 >>= λ b.
          if a == 0xFF && b == 0xD8
          then walk_segments bytes (length bytes) (length bytes) 2
          else byte bytes 2 >>= λ c. byte bytes 3 >>= λ d. parse_headed a b c d bytes
