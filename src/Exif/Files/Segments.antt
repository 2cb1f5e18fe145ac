-- ===== src/Exif/Files/Segments.antt =====
-- The loop over the segments of a JPEG file (`parse` of
-- crates/openbc-ui-qt/cpp/viewers/picture/picture_exif.h).
use open_bc.Prelude.{
  ℕ, zero, suc, ◌+◌, ◌-◌, ◌*◌, ◌^◌, ◌≤◌, ◌<◌, min, Bool, true, false, ◌&&◌, ◌||◌, negate, List, [],
  ◌∷◌, ◌++◌, codes, length, take, drop, ltb, ltb→le, leb, ◌==◌, if◌then◌else◌, ◌≡◌, refl, sym,
  arith,
}
use open_bc.Exif.Memory.{Read, value, ◌>>=◌, byte}
use open_bc.Exif.Values.{Doubles, ExifEntry}
use open_bc.Exif.Fields.Safety.{Ends, ends, Ends-bind, Ends-if, byte-Ends}
use open_bc.Exif.Files.{
  same_bytes, Round, stopped, goes_on, found, segment, marked, segment_round, walk_segments,
  is_tiff_header, parse_headed, parse_exif, parse_tiff,
}
use open_bc.Exif.Files.Safety.{parse_tiff-Ends}

-- The run ends with a value that satisfies `P`.
data Yields {ℓ κ} {A : Type ℓ} (P : A → Type κ) : Read A → Type (ℓ ⊔ κ) where
  yields : (a : A) → P a → Yields P (value a)

Yields-bind {ℓ κ ι} :
    {A : Type ℓ} {B : Type κ} {P : B → Type ι} {m : Read A} {f : A → Read B}
    → Ends m
    → ((a : A) → Yields P (f a))
    → Yields P (m >>= f)
Yields-bind (ends a) h = h a

Yields-if {ℓ κ} :
    {A : Type ℓ} {P : A → Type κ} (b : Bool) {x y : Read A}
    → (b ≡ true → Yields P x)
    → (b ≡ false → Yields P y)
    → Yields P (if b then x else y)
Yields-if true p q = p refl
Yields-if false p q = q refl

same_bytes-Ends :
    (bytes : List ℕ) (at : ℕ) (magic : List ℕ)
    → at + length magic ≤ length bytes
    → Ends (same_bytes bytes at magic)
unfolding same_bytes
same_bytes-Ends bytes at [] h = ends true
same_bytes-Ends bytes at (m ∷ ms) h =
    Ends-bind (byte-Ends bytes at (omega (arith, h)))
      (λ c. Ends-bind (same_bytes-Ends bytes (suc at) ms (omega (arith, h))) (λ rest. ends _))

length-slice {ℓ} :
    {A : Type ℓ} (at n : ℕ) (l : List A) → at + n ≤ length l → length (take n (drop at l)) ≡ n
length-slice zero zero l h = refl
length-slice zero (suc n) [] h = absurd (omega (arith, h))
length-slice zero (suc n) (x ∷ l) h = omega (arith, length-slice zero n l (omega (arith, h)))
length-slice (suc at) zero [] h = refl
length-slice (suc at) (suc n) [] h = absurd (omega (arith, h))
length-slice (suc at) n (x ∷ l) h = length-slice at n l (omega (arith, h))

-- A round from `pos` goes forward, and what it finds lies in the file.
IsForward : ℕ → List ℕ → Round → Type 0
IsForward pos bytes stopped = Unit
IsForward pos bytes (goes_on p) = (pos < p) × (pos + 4 ≤ length bytes)
IsForward pos bytes (found at n) = at + n ≤ length bytes

module _ (bytes : List ℕ) (pos : ℕ) (inside : pos + 4 ≤ length bytes) where
  segment-IsForward :
      (marker len : ℕ) → Yields (IsForward pos bytes) (segment bytes (length bytes) pos marker len)
  unfolding segment IsForward
  segment-IsForward marker len =
      Yields-if (ltb len 2) (λ _. yields stopped tt)
        (λ _.
          Yields-if (marker == 0xE1 && leb 6 (min (len - 2) (length bytes - (pos + 4))))
            (λ e.
              Yields-bind
                (same_bytes-Ends bytes (pos + 4) (codes "Exif" ++ 0 ∷ 0 ∷ []) (ground (arith, e)))
                (λ b. chosen b (ground (arith, e))))
            (λ _. yields _ (omega arith, inside)))
    where
      chosen :
          (b : Bool)
          → 6 ≤ min (len - 2) (length bytes - (pos + 4))
          → Yields (IsForward pos bytes) (
              value (
                if b
                then found (pos + 4 + 6) (min (len - 2) (length bytes - (pos + 4)) - 6)
                else goes_on (pos + (2 + len))))
      chosen true e = yields _ (omega (arith, e))
      chosen false e = yields _ (omega arith, inside)

  marked-IsForward :
      (marker : ℕ) → Yields (IsForward pos bytes) (marked bytes (length bytes) pos marker)
  unfolding marked IsForward
  marked-IsForward marker =
      Yields-if (marker == 0xFF) (λ _. yields _ (omega arith, inside))
        (λ _.
          Yields-if (marker == 0x01 || (leb 0xD0 marker && leb marker 0xD8))
            (λ _. yields _ (omega arith, inside))
            (λ _.
              Yields-if (marker == 0xDA || marker == 0xD9) (λ _. yields stopped tt)
                (λ _. Yields-bind (byte-Ends bytes (pos + 2) (omega (arith, inside))) (λ high.
                  Yields-bind (byte-Ends bytes (pos + 3) (omega (arith, inside)))
                    (λ low. segment-IsForward marker (high * 256 + low))))))

segment_round-IsForward :
    (bytes : List ℕ) (pos : ℕ)
    → Yields (IsForward pos bytes) (segment_round bytes (length bytes) pos)
unfolding segment_round IsForward
segment_round-IsForward bytes pos =
    Yields-if (ltb (length bytes) (pos + 4)) (λ _. yields stopped tt)
      (λ e. inside (ltb→le (length bytes) (pos + 4) e))
  where
    inside :
        pos + 4 ≤ length bytes
        → Yields (IsForward pos bytes) (
            byte bytes pos >>= λ c.
            if negate (c == 0xFF)
            then value stopped
            else (byte bytes (pos + 1) >>= λ marker. marked bytes (length bytes) pos marker))
    inside h = Yields-bind (byte-Ends bytes pos (omega (arith, h))) (λ c.
        Yields-if (negate (c == 0xFF)) (λ _. yields stopped tt)
          (λ _.
            Yields-bind (byte-Ends bytes (pos + 1) (omega (arith, h)))
              (λ marker. marked-IsForward bytes pos h marker)))

module _ (floats : Doubles) (bytes : List ℕ) (small : length bytes < 2 ^ 64) where
  walk_segments-Ends :
      (k pos : ℕ) → length bytes - pos < k → Ends (walk_segments floats bytes (length bytes) k pos)
  unfolding walk_segments IsForward
  walk_segments-Ends zero pos h = absurd (omega (arith, h))
  walk_segments-Ends (suc k) pos h =
      after (segment_round bytes (length bytes) pos) (segment_round-IsForward bytes pos)
        (λ p l. walk_segments-Ends k p l)
    where
      after :
          (m : Read Round)
          → Yields (IsForward pos bytes) m
          → ((p : ℕ) → length bytes - p < k → Ends (walk_segments floats bytes (length bytes) k p))
          → Ends {A = List ExifEntry} (
              m >>= λ x. elim x [
                | stopped ↦ value []
                | goes_on p ↦ walk_segments floats bytes (length bytes) k p
                | found at n ↦ parse_tiff floats (take n (drop at bytes)) n
              ])
      after _ (yields stopped _) rest = ends []
      after _ (yields (goes_on p) (forward, inside)) rest =
          rest p (omega (arith, h, forward, inside))
      after _ (yields (found at n) slice) rest =
          parse_tiff-Ends floats (take n (drop at bytes)) n (sym (length-slice at n bytes slice))
            (omega (arith, small, slice))

-- Reading EXIF data from any bytes, corrupt or cut off, ends with a list of entries: no access lies
-- outside of the buffer, whatever offsets the file holds, also where an offset wraps around at 64
-- bits, and the loop over the segments ends. The buffer's size is a 64-bit number.
pub parse_exif-Ends :
    (floats : Doubles) (bytes : List ℕ) → length bytes < 2 ^ 64 → Ends (parse_exif floats bytes)
unfolding parse_exif parse_headed
parse_exif-Ends floats bytes small =
    Ends-if (ltb (length bytes) 8) (λ _. ends []) (λ e. long (ltb→le (length bytes) 8 e))
  where
    headed : (a b c d : ℕ) → Ends (parse_headed floats a b c d bytes)
    headed a b c d =
        Ends-if (is_tiff_header floats a b c d)
          (λ _. parse_tiff-Ends floats bytes (length bytes) refl small) (λ _. ends [])

    long :
        8 ≤ length bytes
        → Ends (
            byte bytes 0 >>= λ a. byte bytes 1 >>= λ b.
            if a == 0xFF && b == 0xD8
            then walk_segments floats bytes (length bytes) (length bytes) 2
            else (byte bytes 2 >>= λ c. byte bytes 3 >>= λ d. parse_headed floats a b c d bytes))
    long h = Ends-bind (byte-Ends bytes 0 (omega (arith, h))) (λ a.
        Ends-bind (byte-Ends bytes 1 (omega (arith, h))) (λ b.
          Ends-if (a == 0xFF && b == 0xD8)
            (λ _. walk_segments-Ends floats bytes small (length bytes) 2 (omega (arith, h)))
            (λ _.
              Ends-bind (byte-Ends bytes 2 (omega (arith, h)))
                (λ c. Ends-bind (byte-Ends bytes 3 (omega (arith, h))) (λ d. headed a b c d)))))
