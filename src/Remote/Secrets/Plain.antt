-- ===== src/Remote/Secrets/Plain.antt =====
-- Texts of one-byte characters, for the tests.
use open_bc.Prelude.{
  ℕ, ◌<◌, ◌%◌, Bool, true, ◌&&◌, List, [], ◌∷◌, Text, ltb, All, ◌≡◌, refl, ap₂, arith,
}
use open_bc.Remote.Secrets.{Encodings}

abbrev one_byte : Text → Bool
one_byte [] = true
one_byte (c ∷ t) = ltb c 256 && one_byte t

abbrev bytes : Text → List ℕ
bytes [] = []
bytes (c ∷ t) = c % 256 ∷ bytes t

pub bytes_bound : (t : Text) → All (λ b. b < 256) (bytes t)
bytes_bound [] = tt
bytes_bound (c ∷ t) = (omega arith, bytes_bound t)

pub bytes_same : (t : Text) → one_byte t ≡ true → bytes t ≡ t
bytes_same [] h = refl
bytes_same (c ∷ t) h = ap₂ (λ x xs. x ∷ xs) (ground (arith, h)) (bytes_same t (ground (arith, h)))

abbrev pub plain_encodings : Encodings
plain_encodings = record {
  machine_key = 7 ∷ 255 ∷ 18 ∷ [];
  to_utf8 = bytes;
  from_utf8 = λ t. t;
  is_unicode = one_byte;
  to_base64 = λ l. l;
  from_base64 = λ t. t;
  machine_key_bytes = (omega arith, (omega arith, (omega arith, tt)));
  to_utf8_bytes = bytes_bound;
  from-to_utf8 = bytes_same;
  from_utf8_empty = refl;
  from-to_base64 = λ l h. refl;
  from_base64_empty = refl;
}
