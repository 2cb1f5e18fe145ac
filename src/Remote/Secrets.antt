-- ===== src/Remote/Secrets.antt =====
-- How passwords are written (`obfuscate` and `deobfuscate` of
-- crates/openbc-ui-qt/cpp/remote/remote_profile_store.h).
pub mod Xor
pub mod Plain
use Prim.Native.Nat.{bit_xor}
use open_bc.Prelude.{
  ℕ, suc, ◌<◌, ◌%◌, Bool, true, Option, none, some, List, [], ◌∷◌, Text, is_empty, length,
  get_elem?, All, ◌≡◌, if◌then◌else◌,
}

-- What the code takes from Qt: the key of the machine, a SHA-256 hash, and the conversions of texts,
-- with the documented behaviour that it relies on. A text of whole Unicode characters has a UTF-8 form.
pub record Encodings : Type 0 where
  pub machine_key : List ℕ
  pub to_utf8 : Text → List ℕ
  pub from_utf8 : List ℕ → Text
  pub is_unicode : Text → Bool
  -- `fromLatin1(data.toBase64())` and `fromBase64(t.toLatin1())`.
  pub to_base64 : List ℕ → Text
  pub from_base64 : Text → List ℕ
  pub machine_key_bytes : All (λ b. b < 256) machine_key
  pub to_utf8_bytes : (t : Text) → All (λ b. b < 256) (to_utf8 t)
  pub from-to_utf8 : (t : Text) → is_unicode t ≡ true → from_utf8 (to_utf8 t) ≡ t
  pub from_utf8_empty : from_utf8 [] ≡ []
  pub from-to_base64 : (l : List ℕ) → All (λ b. b < 256) l → from_base64 (to_base64 l) ≡ l
  pub from_base64_empty : from_base64 [] ≡ []

-- `key[i]`.
unfoldable pub key_byte : List ℕ → ℕ → ℕ
key_byte key i = elim (get_elem? key i) [ none ↦ 0 | some b ↦ b ]

-- The loop over the bytes, from index `i`.
unfoldable pub mask_bytes : List ℕ → ℕ → List ℕ → List ℕ
mask_bytes key i [] = []
mask_bytes key i (b ∷ bs) = bit_xor b (key_byte key (i % length key)) ∷ mask_bytes key (suc i) bs

module _ (encodings : Encodings) where
  open encodings use {machine_key, to_utf8, from_utf8, to_base64, from_base64}

  unfoldable pub obfuscate : Text → Text
  obfuscate plain =
      if is_empty plain then [] else to_base64 (mask_bytes machine_key 0 (to_utf8 plain))

  unfoldable pub deobfuscate : Text → Text
  deobfuscate encoded =
      if is_empty encoded then [] else from_utf8 (mask_bytes machine_key 0 (from_base64 encoded))
