-- ===== src/Conformance/Hex.antt =====
-- Hex texts and their bytes (conformance/src/main.rs).
use real_time_data_platform.Base.{
  ℕ, ◌+◌, ◌-◌, ◌*◌, ◌/◌, ◌%◌, ◌<◌, ◌≡◌, refl, ◌==◌, false, some, List, [], ◌∷◌, if◌then◌else◌, ltb,
  arith,
}
use real_time_data_platform.Conformance.{hex_digit, two_digits, byte_from_hex, before, hex_to_bytes}
use real_time_data_platform.Wire.{AllBytes}

-- The digit of a number below 16.
abbrev pub digit_of : ℕ → ℕ
digit_of n = if ltb n 10 then b'0' + n else b'a' + (n - 10)

-- The hex text of bytes, as the file of the vectors has it.
abbrev pub to_hex : List ℕ → List ℕ
to_hex [] = []
to_hex (b ∷ bs) = digit_of (b / 16) ∷ digit_of (b % 16) ∷ to_hex bs

hex_digit-digit_of : (n : ℕ) → n < 16 → hex_digit (digit_of n) ≡ some n
unfolding hex_digit
hex_digit-digit_of n h = ground arith

byte_from_hex-digit_of :
    (b : ℕ) → b < 256 → byte_from_hex (digit_of (b / 16)) (digit_of (b % 16)) ≡ some b
unfolding byte_from_hex two_digits
byte_from_hex-digit_of b h =
    let no_sign : (digit_of (b / 16) == b'+') ≡ false = ground arith in
    let hi = hex_digit-digit_of (b / 16) (omega arith) in
    let lo = hex_digit-digit_of (b % 16) (omega arith) in
    let whole : b / 16 * 16 + b % 16 ≡ b = omega arith in rw (no_sign, hi, lo, whole) refl

-- Bytes come back from their hex text in lower case.
pub hex_to_bytes-to_hex :
    (bytes : List ℕ) → AllBytes bytes → hex_to_bytes (to_hex bytes) ≡ some bytes
unfolding hex_to_bytes before
hex_to_bytes-to_hex [] h = refl
hex_to_bytes-to_hex (b ∷ bs) (h, hs) =
    rw (byte_from_hex-digit_of b h, hex_to_bytes-to_hex bs hs) refl
