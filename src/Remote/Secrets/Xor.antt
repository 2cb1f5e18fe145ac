-- ===== src/Remote/Secrets/Xor.antt =====
-- Masking with the key twice gives the text back
-- (crates/openbc-ui-qt/cpp/remote/remote_profile_store.h).
use Prim.Native.Nat.{bit_xor, bit_xor-bitwise, digits, differ}
use open_bc.Prelude.{
  ℕ, zero, suc, ◌+◌, ◌*◌, ◌/◌, ◌%◌, ◌^◌, ◌≤◌, ◌<◌, true, List, [], ◌∷◌, Text, is_empty, length, All,
  ◌≡◌, refl, sym, ap, ap₂, ◌∙◌, arith, if◌then◌else◌,
}
use open_bc.Remote.Secrets.{Encodings, key_byte, mask_bytes, obfuscate, deobfuscate}

-- The law for the lowest digit, from the definition that the native operation stands for.
abbrev xor_digits : ℕ → ℕ → ℕ → ℕ
xor_digits n a b = digits (λ b. b) differ n a b

xor_digits_fuel : (n m a b : ℕ) → a ≤ n → a ≤ m → xor_digits n a b ≡ xor_digits m a b
xor_digits_fuel zero zero a b p q = refl
xor_digits_fuel zero (suc m) zero b p q = refl
xor_digits_fuel zero (suc m) (suc a) b p q = absurd (omega arith)
xor_digits_fuel (suc n) zero zero b p q = refl
xor_digits_fuel (suc n) zero (suc a) b p q = absurd (omega arith)
xor_digits_fuel (suc n) (suc m) zero b p q = refl
xor_digits_fuel (suc n) (suc m) (suc a) b p q =
    omega (arith, xor_digits_fuel n m (suc a / 2) (b / 2) (omega arith) (omega arith))

bit_xor_zero : (b : ℕ) → bit_xor 0 b ≡ b
bit_xor_zero b = bit_xor-bitwise 0 b

bit_xor_step :
    (a b : ℕ) → bit_xor (suc a) b ≡ bit_xor (suc a / 2) (b / 2) * 2 + differ (suc a % 2) (b % 2)
bit_xor_step a b = omega (
  arith,
  bit_xor-bitwise (suc a) b,
  bit_xor-bitwise (suc a / 2) (b / 2),
  xor_digits_fuel a (suc a / 2) (suc a / 2) (b / 2) (omega arith) (omega arith),
)

-- The same for every number.
bit_xor_lowest : (a b : ℕ) → bit_xor a b ≡ bit_xor (a / 2) (b / 2) * 2 + differ (a % 2) (b % 2)
bit_xor_lowest zero b = omega (arith, bit_xor_zero b, bit_xor_zero (b / 2))
bit_xor_lowest (suc a) b = bit_xor_step a b

differ_bits : (x y : ℕ) → x < 2 → y < 2 → (differ x y < 2) × (differ (differ x y) y ≡ x)
differ_bits zero zero p q = (omega arith, refl)
differ_bits zero (suc zero) p q = (omega arith, refl)
differ_bits (suc zero) zero p q = (omega arith, refl)
differ_bits (suc zero) (suc zero) p q = (omega arith, refl)
differ_bits (suc (suc x)) y p q = absurd (omega arith)
differ_bits zero (suc (suc y)) p q = absurd (omega arith)
differ_bits (suc zero) (suc (suc y)) p q = absurd (omega arith)

-- The lowest digit of the exclusive or, and the digits above it.
bit_xor_halves :
    (a b : ℕ)
    → (bit_xor a b / 2 ≡ bit_xor (a / 2) (b / 2)) × (bit_xor a b % 2 ≡ differ (a % 2) (b % 2))
bit_xor_halves a b =
    let small = (differ_bits (a % 2) (b % 2) (omega arith) (omega arith)).0 in
    (omega (arith, bit_xor_lowest a b, small), omega (arith, bit_xor_lowest a b, small))

bit_xor_twice_lowest :
    (a b : ℕ)
    → bit_xor (bit_xor a b) b
      ≡ bit_xor (bit_xor (a / 2) (b / 2)) (b / 2) * 2 + differ (differ (a % 2) (b % 2)) (b % 2)
bit_xor_twice_lowest a b =
    bit_xor_lowest (bit_xor a b) b
    ∙ ap₂ (λ x y. bit_xor x (b / 2) * 2 + differ y (b % 2)) ((bit_xor_halves a b).0)
        ((bit_xor_halves a b).1)

bit_xor_twice_fuel : (n a b : ℕ) → a + b ≤ n → bit_xor (bit_xor a b) b ≡ a
bit_xor_twice_fuel zero zero zero h = bit_xor_zero (bit_xor 0 0) ∙ bit_xor_zero 0
bit_xor_twice_fuel zero (suc a) b h = absurd (omega arith)
bit_xor_twice_fuel zero zero (suc b) h = absurd (omega arith)
bit_xor_twice_fuel (suc n) a b h = omega (
  arith,
  bit_xor_twice_lowest a b,
  bit_xor_twice_fuel n (a / 2) (b / 2) (omega (arith, h)),
  (differ_bits (a % 2) (b % 2) (omega arith) (omega arith)).1,
)

bit_xor_twice : (a b : ℕ) → bit_xor (bit_xor a b) b ≡ a
bit_xor_twice a b = bit_xor_twice_fuel (a + b) a b (omega arith)

bit_xor_bound : (k a b : ℕ) → a < 2 ^ k → b < 2 ^ k → bit_xor a b < 2 ^ k
bit_xor_bound zero zero zero p q = omega (arith, bit_xor_zero 0)
bit_xor_bound zero (suc a) b p q = absurd (omega (arith, p))
bit_xor_bound zero zero (suc b) p q = absurd (omega (arith, q))
bit_xor_bound (suc k) a b p q = omega (
  arith,
  p,
  q,
  power,
  bit_xor_bound k (a / 2) (b / 2) (omega (arith, p, power)) (omega (arith, q, power)),
  bit_xor_lowest a b,
  (differ_bits (a % 2) (b % 2) (omega arith) (omega arith)).0,
)
  where
    power : 2 ^ suc k ≡ 2 ^ k * 2
    power = omega arith

key_byte_bound : (key : List ℕ) (i : ℕ) → All (λ b. b < 256) key → key_byte key i < 256
unfolding key_byte
key_byte_bound [] i h = omega arith
key_byte_bound (b ∷ key) zero h = h.0
key_byte_bound (b ∷ key) (suc i) h = key_byte_bound key i (h.1)

mask_bytes_bound :
    (key : List ℕ) (i : ℕ) (bs : List ℕ)
    → All (λ b. b < 256) key
    → All (λ b. b < 256) bs
    → All (λ b. b < 256) (mask_bytes key i bs)
unfolding mask_bytes
mask_bytes_bound key i [] k h = tt
mask_bytes_bound key i (b ∷ bs) k h = (
  bit_xor_bound 8 b (key_byte key (i % length key)) (h.0) (key_byte_bound key (i % length key) k),
  mask_bytes_bound key (suc i) bs k (h.1),
)

mask_bytes_twice :
    (key : List ℕ) (i : ℕ) (bs : List ℕ) → mask_bytes key i (mask_bytes key i bs) ≡ bs
unfolding mask_bytes
mask_bytes_twice key i [] = refl
mask_bytes_twice key i (b ∷ bs) =
    ap₂ (λ x xs. x ∷ xs) (bit_xor_twice b (key_byte key (i % length key)))
      (mask_bytes_twice key (suc i) bs)

module _ (encodings : Encodings) where
  open encodings use {
    machine_key, to_utf8, from_utf8, is_unicode, to_base64, from_base64, machine_key_bytes,
    to_utf8_bytes, from-to_utf8, from_utf8_empty, from-to_base64, from_base64_empty,
  }

  -- A password that is written is read again.
  pub deobfuscate-obfuscate :
      (plain : Text)
      → is_unicode plain ≡ true
      → deobfuscate encodings (obfuscate encodings plain) ≡ plain
  unfolding deobfuscate obfuscate mask_bytes
  deobfuscate-obfuscate [] u = refl
  deobfuscate-obfuscate (c ∷ plain) u = unmasked (to_base64 masked) (
      from-to_base64 masked
        (mask_bytes_bound machine_key 0 _ machine_key_bytes (to_utf8_bytes (c ∷ plain))))
    where
      masked : List ℕ
      masked = mask_bytes machine_key 0 (to_utf8 (c ∷ plain))

      whole : from_utf8 (mask_bytes machine_key 0 masked) ≡ c ∷ plain
      whole =
          ap from_utf8 (mask_bytes_twice machine_key 0 (to_utf8 (c ∷ plain)))
          ∙ from-to_utf8 (c ∷ plain) u

      unmasked :
          (encoded : Text)
          → from_base64 encoded ≡ masked
          → (if is_empty encoded
              then []
              else from_utf8 (mask_bytes machine_key 0 (from_base64 encoded)))
            ≡ c ∷ plain
      unmasked [] e =
          sym from_utf8_empty
          ∙ ap (λ l. from_utf8 (mask_bytes machine_key 0 l)) (sym from_base64_empty ∙ e)
          ∙ whole
      unmasked (d ∷ encoded) e = ap (λ l. from_utf8 (mask_bytes machine_key 0 l)) e ∙ whole
