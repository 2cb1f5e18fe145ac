-- ===== src/Exif/Fields.antt =====
-- The fields of a directory and their contents
-- (crates/openbc-ui-qt/cpp/viewers/picture/picture_exif.h).
pub mod Safety
use mathlib.Core.List.{reverse}
use open_bc.Prelude.{
  ℕ, zero, suc, ◌+◌, ◌-◌, ◌*◌, ◌^◌, min, Bool, true, false, ◌&&◌, ◌||◌, negate, Option, some, none,
  List, [], ◌∷◌, Text, ltb, leb, ◌==◌, if◌then◌else◌,
}
use open_bc.Exif.Memory.{Read, value, ◌>>=◌, byte, add64, Reader, has, u16, u32}
use open_bc.Exif.Values.{Doubles}

pub record Field : Type 0 where
  pub tag : ℕ
  pub type : ℕ
  pub count : ℕ
  pub data_off : ℕ

unfoldable pub type_size : ℕ → ℕ
type_size t =
    if t == 1 || t == 2 || t == 6 || t == 7
    then 1
    else if t == 3 || t == 8
    then 2
    else if t == 4 || t == 9 || t == 11
    then 4
    else if t == 5 || t == 10 || t == 12
    then 8
    else 0

-- Where the data of a field stands: in the entry `e` itself if it is short.
unfoldable pub data_offset : Reader → ℕ → ℕ → Read ℕ
data_offset r e total = if leb total 4 then value (add64 e 8) else u32 r (add64 e 8)

-- Where the entry `i` of a directory stands.
unfoldable pub entry_offset : ℕ → ℕ → ℕ
entry_offset ifd i = add64 (add64 ifd 2) (i * 12)

module _ {ℓ} {S : Type ℓ} (r : Reader) (visit : Field → S → Read S) where
  -- The end of a round: the field is visited if its data lies in the buffer.
  unfoldable pub visit_inside : Field → ℕ → S → Read S
  visit_inside f total s =
      if negate (has r f.data_off (min total r.size))
      then value s
      else if ltb r.size total
      then value s
      else visit f s

  unfoldable pub visit_sized : ℕ → ℕ → ℕ → ℕ → ℕ → S → Read S
  visit_sized e tag type count unit s =
      if unit == 0 || count == 0
      then value s
      else data_offset r e (unit * count) >>= λ off.
          visit_inside (record { tag = tag; type = type; count = count; data_off = off })
            (unit * count) s

  -- The entry at `e`.
  unfoldable pub visit_entry : ℕ → S → Read S
  visit_entry e s = do
    tag ← u16 r e
    type ← u16 r (add64 e 2)
    count ← u32 r (add64 e 4)
    visit_sized e tag type count (type_size type) s

  -- The rounds that are left, from the entry `i`; it breaks at the first entry that is cut off.
  unfoldable pub visit_entries : ℕ → ℕ → ℕ → S → Read S
  visit_entries ifd zero i s = value s
  visit_entries ifd (suc k) i s = elim (has r (entry_offset ifd i) 12) [
    | true ↦ visit_entry (entry_offset ifd i) s >>= λ t. visit_entries ifd k (suc i) t
    | false ↦ value s
  ]

  unfoldable pub for_each_field : ℕ → S → Read S
  for_each_field ifd s =
      if negate (has r ifd 2)
      then value s
      else u16 r ifd >>= λ n. visit_entries ifd (min n 1024) 0 s

-- The loop of `ascii`: up to the end of the data, of the buffer, or a NUL.
unfoldable pub read_chars : Reader → ℕ → ℕ → ℕ → Read Text
read_chars r off zero i = value []
read_chars r off (suc k) i = elim (has r (add64 off i) 1) [
  | false ↦ value []
  | true ↦ byte r.base (add64 off i) >>= λ c. elim (c == 0) [
    | true ↦ value []
    | false ↦ read_chars r off k (suc i) >>= λ s. value (c ∷ s)
  ]
]

-- Blanks and line ends go from the front of the reversed text.
unfoldable pub strip_front : Text → Text
strip_front [] = []
strip_front (c ∷ s) =
    let rest = strip_front s in if c == 32 || c == 13 || c == 10 then rest else c ∷ s

unfoldable pub ascii : Reader → Field → Read Text
ascii r f =
    if negate (f.type == 2 || f.type == 7)
    then value []
    else read_chars r f.data_off f.count 0 >>= λ s. value (reverse (strip_front (reverse s)))

module _ (floats : Doubles) where
  open floats use {Double, of_nat, of_negative, divide}

  -- A value of `w` bits read as a signed one.
  unfoldable pub signed : ℕ → ℕ → Double
  signed w n = if ltb n (2 ^ (w - 1)) then of_nat n else of_negative (2 ^ w - n)

  -- A quotient of 32-bit values, unless the divisor is 0.
  unfoldable pub quotient : (ℕ → Double) → ℕ → ℕ → Option Double
  quotient convert n d = if d == 0 then none else some (divide (convert n) (convert d))

  unfoldable pub read_quotient : Reader → (ℕ → Double) → ℕ → Read (Option Double)
  read_quotient r convert o = do
    d ← u32 r (add64 o 4)
    if d == 0 then value none else u32 r o >>= λ n. value (quotient convert n d)

  unfoldable pub converted : Read ℕ → (ℕ → Double) → Read (Option Double)
  converted m convert = m >>= λ n. value (some (convert n))

  -- The number of a type at `o`; `none` if the switch pushes nothing.
  unfoldable pub number_at : Reader → ℕ → ℕ → Read (Option Double)
  number_at r t o =
      if t == 1 || t == 7
      then converted (byte r.base o) of_nat
      else if t == 6
      then converted (byte r.base o) (signed 8)
      else if t == 3
      then converted (u16 r o) of_nat
      else if t == 8
      then converted (u16 r o) (signed 16)
      else if t == 4
      then converted (u32 r o) of_nat
      else if t == 9
      then converted (u32 r o) (signed 32)
      else if t == 5
      then read_quotient r of_nat o
      else if t == 10
      then read_quotient r (signed 32) o
      else value none

  unfoldable pub push : Option Double → List Double → List Double
  push none out = out
  push (some d) out = d ∷ out

  unfoldable pub read_numbers : Reader → Field → ℕ → ℕ → Read (List Double)
  read_numbers r f zero i = value []
  read_numbers r f (suc k) i =
      let o = add64 f.data_off (i * type_size f.type) in
      elim (has r o (type_size f.type)) [
        | false ↦ value []
        | true ↦
            number_at r f.type o >>= λ d. read_numbers r f k (suc i) >>= λ out. value (push d out)
      ]

  unfoldable pub numbers : Reader → Field → ℕ → Read (List Double)
  numbers r f max_count = read_numbers r f (min f.count max_count) 0
