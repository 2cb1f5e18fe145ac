-- ===== src/Exif/Memory.antt =====
-- The bytes that the EXIF reader looks at (`Reader` of
-- crates/openbc-ui-qt/cpp/viewers/picture/picture_exif.h).
use open_bc.Prelude.{
  ℕ, ◌+◌, ◌-◌, ◌*◌, ◌%◌, ◌^◌, Bool, ◌&&◌, Option, some, none, List, get_elem?, leb, if◌then◌else◌,
}

-- How a run that reads memory ends: with a value, by an access outside of the buffer, or not within
-- the rounds it was given.
pub data Read {ℓ} (A : Type ℓ) : Type ℓ where
  value : A → Read A
  beyond endless : Read A

infixl 5 ◌>>=◌
abbrev pub ◌>>=◌ {ℓ κ} : {A : Type ℓ} {B : Type κ} → Read A → (A → Read B) → Read B
value a >>= f = f a
beyond >>= f = beyond
endless >>= f = endless

unfoldable pub of_option {ℓ} : {A : Type ℓ} → Option A → Read A
of_option none = beyond
of_option (some a) = value a

-- `base[i]`.
unfoldable pub byte : List ℕ → ℕ → Read ℕ
unfolding of_option
byte base i = of_option (get_elem? base i)

-- The sum of two 64-bit offsets.
unfoldable pub add64 : ℕ → ℕ → ℕ
add64 a b = (a + b) % 2 ^ 64

pub record Reader : Type 0 where
  pub base : List ℕ
  pub size : ℕ
  pub little : Bool

unfoldable pub has : Reader → ℕ → ℕ → Bool
has r off n = leb off r.size && leb n (r.size - off)

-- Two bytes, the low one given first.
unfoldable pub join16 : ℕ → ℕ → ℕ
join16 low high = (low + high * 256) % 2 ^ 16

unfoldable pub join32 : ℕ → ℕ → ℕ → ℕ → ℕ
join32 a b c d = (a + b * 256 + c * 65536 + d * 16777216) % 2 ^ 32

unfoldable pub u16 : Reader → ℕ → Read ℕ
unfolding byte add64 join16
u16 r o = do
  a ← byte r.base o
  b ← byte r.base (add64 o 1)
  value (if r.little then join16 a b else join16 b a)

unfoldable pub u32 : Reader → ℕ → Read ℕ
unfolding byte add64 join32
u32 r o = do
  a ← byte r.base o
  b ← byte r.base (add64 o 1)
  c ← byte r.base (add64 o 2)
  d ← byte r.base (add64 o 3)
  value (if r.little then join32 a b c d else join32 d c b a)
