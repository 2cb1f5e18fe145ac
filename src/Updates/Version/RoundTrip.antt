-- ===== src/Updates/Version/RoundTrip.antt =====
-- A printed version is parsed back (crates/openbc-ui-qt/cpp/home/release_logic.h).
use native.Mathlib.Nat.{pow-suc}
use open_bc.Prelude.{
  ℕ, zero, suc, ◌+◌, ◌*◌, ◌/◌, ◌%◌, ◌^◌, ◌<◌, ◌≤◌, Option, some, none, List, [], ◌∷◌, ◌++◌, Text,
  All, arith, ◌≡◌, ◌≢◌, refl, digits, decimal, Bool-cases, inl, inr, append_assoc, append-nil, ltb,
  ltb→lt, ltb→le, ◌∙◌,
}
use open_bc.Updates.Version.{
  parse_version, scan, flush, push_digit, to_long, move, max_component, skip_v, is_digit,
}

-- The usual spelling of a version, "v1.0.23".
print_parts : List ℕ → Text
print_parts [] = []
print_parts (n ∷ []) = decimal n
print_parts (n ∷ m ∷ ns) = decimal n ++ b'.' ∷ print_parts (m ∷ ns)

pub print_version : List ℕ → Text
print_version parts = b'v' ∷ print_parts parts

scan_digit :
    (d : ℕ) (s : Text) (current : Option ℕ) (parts : List ℕ)
    → d < 10
    → scan ((b'0' + d) ∷ s) current parts ≡ scan s (some (push_digit current (b'0' + d))) parts
unfolding scan move is_digit
scan_digit d s current parts h = ground arith

push_digit_next : (n : ℕ) → n ≤ max_component → push_digit (some (n / 10)) (b'0' + n % 10) ≡ n
unfolding push_digit to_long
push_digit_next n h = ground arith

push_digit_first : (n : ℕ) → n < 10 → push_digit none (b'0' + n) ≡ n
unfolding push_digit to_long
push_digit_first n h = ground arith

digits-zero : (f : ℕ) (out : Text) → digits f 0 out ≡ out
unfolding digits
digits-zero zero out = refl
digits-zero (suc f) out = refl

digits-append : (f n : ℕ) (out rest : Text) → digits f n out ++ rest ≡ digits f n (out ++ rest)
unfolding digits
digits-append zero n out rest = refl
digits-append (suc f) n out rest =
    ground (arith, digits-append f (n / 10) ((b'0' + n % 10) ∷ out) rest)

digits_step :
    (f n : ℕ) (out : Text)
    → 0 < n
    → digits (suc f) n out ≡ digits f (n / 10) ((b'0' + n % 10) ∷ out)
unfolding digits
digits_step f n out h = ground arith

scan_small :
    (f n : ℕ) (out : Text) (parts : List ℕ)
    → 0 < n
    → n < 10
    → scan (digits f (n / 10) ((b'0' + n % 10) ∷ out)) none parts ≡ scan out (some n) parts
scan_small f n out parts pos h =
    let quotient : n / 10 ≡ 0 = omega arith in
    let remainder : n % 10 ≡ n = omega arith in
    rw (quotient, remainder, digits-zero, scan_digit n out none parts h, push_digit_first n h)

scan-digits :
    (f n : ℕ) (out : Text) (parts : List ℕ)
    → n < 10 ^ f
    → n ≤ max_component
    → 0 < n
    → scan (digits f n out) none parts ≡ scan out (some n) parts
scan-digits zero n out parts h le pos = absurd (omega arith)
scan-digits (suc f) n out parts h le pos = elim (Bool-cases (ltb n 10)) [
  | inl small ↦ rw (digits_step f n out pos) (scan_small f n out parts pos (ltb→lt n 10 small))
  | inr large ↦
      let big : 10 ≤ n = ltb→le n 10 large in
      let fits : n < 10 ^ f * 10 = rw pow-suc at h in
      rw (
        digits_step f n out pos,
        scan-digits f (n / 10) ((b'0' + n % 10) ∷ out) parts (omega arith) (omega arith)
            (omega arith),
        scan_digit (n % 10) out (some (n / 10)) parts (omega arith),
        push_digit_next n le,
      )
]

decimal-digits : (n : ℕ) → 0 < n → decimal n ≡ digits 64 n []
unfolding decimal
decimal-digits n h = ground arith

decimal-zero : decimal 0 ≡ b'0' ∷ []
unfolding decimal
decimal-zero = refl

scan-decimal :
    (n : ℕ) (rest : Text) (parts : List ℕ)
    → n ≤ max_component
    → scan (decimal n ++ rest) none parts ≡ scan rest (some n) parts
scan-decimal zero rest parts h =
    rw (decimal-zero, scan_digit 0 rest none parts (omega arith), push_digit_first 0 (omega arith))
scan-decimal (suc n) rest parts h =
    rw (decimal-digits (suc n) (omega arith), digits-append 64 (suc n) [] rest)
      (scan-digits 64 (suc n) rest parts (omega arith) h (omega arith))

scan_dot :
    (n : ℕ) (s : Text) (parts : List ℕ)
    → scan (b'.' ∷ s) (some n) parts ≡ scan s none (parts ++ n ∷ [])
unfolding scan move is_digit flush
scan_dot n s parts = refl

scan_end : (n : ℕ) (parts : List ℕ) → scan [] (some n) parts ≡ parts ++ n ∷ []
unfolding scan flush
scan_end n parts = refl

scan-print_parts :
    (ns : List ℕ) (parts : List ℕ)
    → All (λ n. n ≤ max_component) ns
    → ns ≢ []
    → scan (print_parts ns) none parts ≡ parts ++ ns
unfolding print_parts
scan-print_parts [] parts h ne = absurd (ne refl)
scan-print_parts (n ∷ []) parts h ne =
    rw (← append-nil (decimal n)) (scan-decimal n [] parts (h.0) ∙ scan_end n parts)
scan-print_parts (n ∷ m ∷ ns) parts h ne =
    scan-decimal n (b'.' ∷ print_parts (m ∷ ns)) parts (h.0)
    ∙ (scan_dot n _ parts
        ∙ (scan-print_parts (m ∷ ns) (parts ++ n ∷ []) (h.1) (λ e. cc)
            ∙ append_assoc parts (n ∷ []) (m ∷ ns)))

-- A version of one or more components, none above 1,000,000, is read back from its print "v1.2.3".
pub parse-print_version :
    (ns : List ℕ)
    → All (λ n. n ≤ max_component) ns
    → ns ≢ []
    → parse_version (print_version ns) ≡ ns
unfolding parse_version skip_v print_version
parse-print_version ns h ne = scan-print_parts ns [] h ne
