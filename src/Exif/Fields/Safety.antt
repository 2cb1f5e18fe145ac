-- ===== src/Exif/Fields/Safety.antt =====
-- The fields of a directory are read inside of the buffer
-- (crates/openbc-ui-qt/cpp/viewers/picture/picture_exif.h).
use open_bc.Prelude.{
  ℕ, zero, suc, ◌+◌, ◌*◌, ◌^◌, ◌≤◌, ◌<◌, min, Bool, true, false, ◌||◌, negate, none, List, [], ◌∷◌,
  length, ltb, leb, ◌==◌, if◌then◌else◌, ◌≡◌, refl, subst, arith, Bool-cases, inl, inr,
}
use open_bc.Exif.Memory.{Read, value, ◌>>=◌, of_option, byte, add64, Reader, has, u16, u32}
use open_bc.Exif.Values.{Doubles}
use open_bc.Exif.Fields.{
  Field, type_size, data_offset, visit_inside, visit_sized, visit_entry, entry_offset,
  visit_entries, for_each_field, read_chars, ascii, read_quotient, converted, number_at,
  read_numbers, numbers,
}

-- The run ends with a value.
pub data Ends {ℓ} {A : Type ℓ} : Read A → Type ℓ where
  ends : (a : A) → Ends (value a)

pub Ends-bind {ℓ κ} :
    {A : Type ℓ} {B : Type κ} {m : Read A} {f : A → Read B}
    → Ends m
    → ((a : A) → Ends (f a))
    → Ends (m >>= f)
Ends-bind (ends a) h = h a

pub Ends-if {ℓ} :
    {A : Type ℓ} (b : Bool) {x y : Read A}
    → (b ≡ true → Ends x)
    → (b ≡ false → Ends y)
    → Ends (if b then x else y)
Ends-if true p q = p refl
Ends-if false p q = q refl

pub Ends-elim {ℓ} :
    {A : Type ℓ} (b : Bool) {x y : Read A}
    → (b ≡ true → Ends x)
    → (b ≡ false → Ends y)
    → Ends (elim b [ true ↦ x | false ↦ y ])
Ends-elim true p q = p refl
Ends-elim false p q = q refl

-- The reader's size is that of its buffer, and a 64-bit number.
pub record IsWhole (r : Reader) : Type 0 where
  pub whole : r.size ≡ length r.base
  pub small : r.size < 2 ^ 64

pub byte-Ends : (base : List ℕ) (i : ℕ) → i < length base → Ends (byte base i)
unfolding byte of_option
byte-Ends [] i h = absurd (omega (arith, h))
byte-Ends (x ∷ base) zero h = ends x
byte-Ends (x ∷ base) (suc i) h = byte-Ends base i (omega (arith, h))

add64_small : (a b : ℕ) → a + b < 2 ^ 64 → add64 a b ≡ a + b
unfolding add64
add64_small a b h = omega (arith, h)

has-le : (r : Reader) (o n : ℕ) → has r o n ≡ true → o + n ≤ r.size
unfolding has
has-le r o n h = ground (arith, h)

pub le-has : (r : Reader) (o n : ℕ) → o + n ≤ r.size → has r o n ≡ true
unfolding has
le-has r o n h = ground (arith, h)

module _ (r : Reader) (w : IsWhole r) where
  add64_inside : (o n k : ℕ) → has r o n ≡ true → k < n → add64 o k ≡ o + k
  add64_inside o n k h l = add64_small o k (omega (arith, has-le r o n h, w.small, l))

  -- A part of what lies inside of the buffer lies inside of it.
  has-part : (o n k m : ℕ) → has r o n ≡ true → k < n → k + m ≤ n → has r (add64 o k) m ≡ true
  has-part o n k m h l p =
      rw (add64_inside o n k h l) (le-has r (o + k) m (omega (arith, has-le r o n h, p)))

  byte_at : (o n : ℕ) → has r o n ≡ true → 0 < n → Ends (byte r.base o)
  byte_at o n h p = byte-Ends r.base o (omega (arith, has-le r o n h, p, w.whole))

  byte_behind : (o n k : ℕ) → has r o n ≡ true → k < n → Ends (byte r.base (add64 o k))
  byte_behind o n k h l =
      rw (add64_inside o n k h l)
        (byte-Ends r.base (o + k) (omega (arith, has-le r o n h, l, w.whole)))

  pub u16-Ends : (o : ℕ) → has r o 2 ≡ true → Ends (u16 r o)
  unfolding u16
  u16-Ends o h =
      Ends-bind (byte_at o 2 h (omega arith))
        (λ a. Ends-bind (byte_behind o 2 1 h (omega arith)) (λ b. ends _))

  pub u32-Ends : (o : ℕ) → has r o 4 ≡ true → Ends (u32 r o)
  unfolding u32
  u32-Ends o h = Ends-bind (byte_at o 4 h (omega arith)) (λ a.
      Ends-bind (byte_behind o 4 1 h (omega arith)) (λ b.
        Ends-bind (byte_behind o 4 2 h (omega arith))
          (λ c. Ends-bind (byte_behind o 4 3 h (omega arith)) (λ d. ends _))))

  data_offset-Ends : (e total : ℕ) → has r e 12 ≡ true → Ends (data_offset r e total)
  unfolding data_offset
  data_offset-Ends e total h =
      Ends-if (leb total 4) (λ _. ends _)
        (λ _. u32-Ends (add64 e 8) (has-part e 12 8 4 h (omega arith) (omega arith)))

  module _ {ℓ} {S : Type ℓ} (visit : Field → S → Read S)
      (each : (f : Field) (s : S) → Ends (visit f s)) where
    visit_inside-Ends : (f : Field) (total : ℕ) (s : S) → Ends (visit_inside r visit f total s)
    unfolding visit_inside
    visit_inside-Ends f total s =
        Ends-if (negate (has r f.data_off (min total r.size))) (λ _. ends s)
          (λ _. Ends-if (ltb r.size total) (λ _. ends s) (λ _. each f s))

    visit_entry-Ends : (e : ℕ) (s : S) → has r e 12 ≡ true → Ends (visit_entry r visit e s)
    unfolding visit_entry visit_sized
    visit_entry-Ends e s h =
        Ends-bind (u16-Ends e (le-has r e 2 (omega (arith, has-le r e 12 h)))) (λ tag.
          Ends-bind (u16-Ends (add64 e 2) (has-part e 12 2 2 h (omega arith) (omega arith)))
            (λ type.
              Ends-bind (u32-Ends (add64 e 4) (has-part e 12 4 4 h (omega arith) (omega arith)))
                (λ count.
                  Ends-if (type_size type == 0 || count == 0) (λ _. ends s)
                    (λ _.
                      Ends-bind (data_offset-Ends e (type_size type * count) h)
                        (λ off. visit_inside-Ends _ (type_size type * count) s)))))

    visit_entries-Ends : (ifd k i : ℕ) (s : S) → Ends (visit_entries r visit ifd k i s)
    unfolding visit_entries
    visit_entries-Ends ifd zero i s = ends s
    visit_entries-Ends ifd (suc k) i s =
        Ends-elim (has r (entry_offset ifd i) 12)
          (λ e.
            Ends-bind (visit_entry-Ends (entry_offset ifd i) s e)
              (λ t. visit_entries-Ends ifd k (suc i) t))
          (λ _. ends s)

    pub for_each_field-Ends : (ifd : ℕ) (s : S) → Ends (for_each_field r visit ifd s)
    unfolding for_each_field
    for_each_field-Ends ifd s = elim (Bool-cases (has r ifd 2)) [
      | inr e ↦ rw e (ends s)
      | inl e ↦ rw e (Ends-bind (u16-Ends ifd e) (λ n. visit_entries-Ends ifd (min n 1024) 0 s))
    ]

  read_chars-Ends : (off k i : ℕ) → Ends (read_chars r off k i)
  unfolding read_chars
  read_chars-Ends off zero i = ends []
  read_chars-Ends off (suc k) i =
      Ends-elim (has r (add64 off i) 1)
        (λ e. Ends-bind (byte_at (add64 off i) 1 e (omega arith)) (λ c.
          Ends-elim (c == 0) (λ _. ends [])
            (λ _. Ends-bind (read_chars-Ends off k (suc i)) (λ s. ends (c ∷ s)))))
        (λ _. ends [])

  pub ascii-Ends : (f : Field) → Ends (ascii r f)
  unfolding ascii
  ascii-Ends f =
      Ends-if (negate (f.type == 2 || f.type == 7)) (λ _. ends [])
        (λ _. Ends-bind (read_chars-Ends f.data_off f.count 0) (λ s. ends _))

  module _ (floats : Doubles) where
    converted-Ends :
        {m : Read ℕ} (convert : ℕ → floats.Double) → Ends m → Ends (converted floats m convert)
    unfolding converted
    converted-Ends convert h = Ends-bind h (λ n. ends _)

    read_quotient-Ends :
        (convert : ℕ → floats.Double) (o : ℕ)
        → has r o 8 ≡ true
        → Ends (read_quotient floats r convert o)
    unfolding read_quotient
    read_quotient-Ends convert o h =
        Ends-bind (u32-Ends (add64 o 4) (has-part o 8 4 4 h (omega arith) (omega arith))) (λ d.
          Ends-if (d == 0) (λ _. ends none)
            (λ _.
              Ends-bind (u32-Ends o (le-has r o 4 (omega (arith, has-le r o 8 h)))) (λ n. ends _)))

    number_at-Ends : (t o : ℕ) → has r o (type_size t) ≡ true → Ends (number_at floats r t o)
    unfolding number_at type_size
    number_at-Ends t o h =
        Ends-if (t == 1 || t == 7) (λ e. bytewise _ (ground (arith, e)))
          (λ _.
            Ends-if (t == 6) (λ e. bytewise _ (ground (arith, e)))
              (λ _.
                Ends-if (t == 3) (λ e. halves _ (ground (arith, e)))
                  (λ _.
                    Ends-if (t == 8) (λ e. halves _ (ground (arith, e)))
                      (λ _.
                        Ends-if (t == 4) (λ e. words _ (ground (arith, e)))
                          (λ _.
                            Ends-if (t == 9) (λ e. words _ (ground (arith, e)))
                              (λ _.
                                Ends-if (t == 5) (λ e. quotients _ (ground (arith, e)))
                                  (λ _.
                                    Ends-if (t == 10) (λ e. quotients _ (ground (arith, e)))
                                      (λ _. ends none))))))))
      where
        sized : {n : ℕ} → type_size t ≡ n → has r o n ≡ true
        sized e = subst (λ n. has r o n ≡ true) e h

        bytewise :
            (convert : ℕ → floats.Double)
            → type_size t ≡ 1
            → Ends (converted floats (byte r.base o) convert)
        bytewise convert e = converted-Ends _ (byte_at o 1 (sized e) (omega arith))

        halves :
            (convert : ℕ → floats.Double)
            → type_size t ≡ 2
            → Ends (converted floats (u16 r o) convert)
        halves convert e = converted-Ends _ (u16-Ends o (sized e))

        words :
            (convert : ℕ → floats.Double)
            → type_size t ≡ 4
            → Ends (converted floats (u32 r o) convert)
        words convert e = converted-Ends _ (u32-Ends o (sized e))

        quotients :
            (convert : ℕ → floats.Double)
            → type_size t ≡ 8
            → Ends (read_quotient floats r convert o)
        quotients convert e = read_quotient-Ends _ o (sized e)

    read_numbers-Ends : (f : Field) (k i : ℕ) → Ends (read_numbers floats r f k i)
    unfolding read_numbers
    read_numbers-Ends f zero i = ends []
    read_numbers-Ends f (suc k) i =
        Ends-elim (has r (add64 f.data_off (i * type_size f.type)) (type_size f.type))
          (λ e.
            Ends-bind (number_at-Ends f.type (add64 f.data_off (i * type_size f.type)) e)
              (λ d. Ends-bind (read_numbers-Ends f k (suc i)) (λ out. ends _)))
          (λ _. ends [])

    pub numbers-Ends : (f : Field) (max_count : ℕ) → Ends (numbers floats r f max_count)
    unfolding numbers
    numbers-Ends f max_count = read_numbers-Ends f (min f.count max_count) 0
