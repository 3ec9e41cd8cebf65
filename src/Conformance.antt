-- ===== src/Conformance.antt =====
-- conformance/src/main.rs: the run of the golden vectors. The vectors are what serde_json gives for
-- the file; the hex text is the list of its bytes. A panic is `none`.
pub mod Hex
pub mod Verdicts
use Prim.Native.String.{String}
use text.Mathlib.Text.{◌==◌ as ◌==ₛ◌}
use real_time_data_platform.Base.{
  ℕ, ◌+◌, ◌-◌, ◌*◌, Bool, true, false, ◌&&◌, Option, none, some, List, [], ◌∷◌, if◌then◌else◌, ◌==◌,
  ltb, leb,
}
use real_time_data_platform.Error.{ErrorCode, RtdpError, Result, ok, err, error_code, error_as_u16}
use real_time_data_platform.Protocol.Frame.{FrameView}
use real_time_data_platform.Serialization.Codec.{FrameCodec, decode}
use real_time_data_platform.Wire.{Wire}

pub record GoldenVector : Type 0 where
  pub description : String
  pub hex : List ℕ
  pub expected_result : String
  pub expected_error : Option String

-- A digit to the base 16.
unfoldable pub hex_digit : ℕ → Option ℕ
hex_digit c =
    if leb b'0' c && leb c b'9'
    then some (c - b'0')
    else if leb b'a' c && leb c b'f'
    then some (c - b'a' + 10)
    else if leb b'A' c && leb c b'F'
    then some (c - b'A' + 10)
    else none

two_digits : Option ℕ → Option ℕ → Option ℕ
two_digits (some hi) (some lo) = some (hi * 16 + lo)
two_digits _ _ = none

-- `u8::from_str_radix` on two characters, with base 16: a sign may stand first.
unfoldable pub byte_from_hex : ℕ → ℕ → Option ℕ
unfolding hex_digit two_digits
byte_from_hex a b = if a == b'+' then hex_digit b else two_digits (hex_digit a) (hex_digit b)

before : Option ℕ → Option (List ℕ) → Option (List ℕ)
before (some b) (some bytes) = some (b ∷ bytes)
before _ _ = none

-- An odd length panics at the last slice.
unfoldable pub hex_to_bytes : List ℕ → Option (List ℕ)
unfolding before
hex_to_bytes [] = some []
hex_to_bytes (a ∷ []) = none
hex_to_bytes (a ∷ b ∷ s) = before (byte_from_hex a b) (hex_to_bytes s)

-- The `==` that `ErrorCode` derives.
abbrev same_code : ErrorCode → ErrorCode → Bool
same_code a b = error_as_u16 a == error_as_u16 b

-- The value of `matches`.
unfoldable pub expected_matches : String → ErrorCode → Bool
expected_matches expected err_code =
    if expected ==ₛ "MALFORMED_FRAME"
    then same_code err_code ErrorCode.malformed_frame
    else if expected ==ₛ "VERSION_MISMATCH"
    then same_code err_code ErrorCode.version_mismatch
    else if expected ==ₛ "CHECKSUM_FAILED"
    then same_code err_code ErrorCode.checksum_failed
    else if expected ==ₛ "UNSUPPORTED_EXTENSION"
    then same_code err_code ErrorCode.unsupported_extension
    else if expected ==ₛ "FRAME_TOO_LARGE"
    then same_code err_code ErrorCode.frame_too_large
    else false

-- `vec.expected_error.as_deref().unwrap_or("")`
abbrev pub expected_str : Option String → String
expected_str none = ""
expected_str (some s) = s

-- Whether a vector passes, by its expectation and the answer of `decode`.
unfoldable pub verdict : GoldenVector → Result FrameView RtdpError → Option Bool
unfolding expected_matches
verdict v (ok view) = some (v.expected_result ==ₛ "OK")
verdict v (err e) = if v.expected_result ==ₛ "OK" then some false else (elim (error_code e) [
  | none ↦ none
  | some err_code ↦ some (expected_matches (expected_str v.expected_error) err_code)
])

module _ (w : Wire) where
  -- One round of the loop.
  unfoldable pub test_vector : FrameCodec → GoldenVector → Option Bool
  unfolding verdict hex_to_bytes
  test_vector codec v = elim (hex_to_bytes v.hex) [
    | none ↦ none
    | some raw_bytes ↦ verdict v (decode w codec raw_bytes).1
  ]

  count : Option Bool → Option (ℕ × ℕ) → Option (ℕ × ℕ)
  count (some true) (some (passed, failed)) = some (passed + 1, failed)
  count (some false) (some (passed, failed)) = some (passed, failed + 1)
  count _ _ = none

  -- The numbers of the vectors that passed and that failed.
  unfoldable pub run_vectors : FrameCodec → List GoldenVector → Option (ℕ × ℕ)
  unfolding test_vector count
  run_vectors codec [] = some (0, 0)
  run_vectors codec (v ∷ vs) = count (test_vector codec v) (run_vectors codec vs)

  -- The exit status.
  unfoldable pub conformance : List GoldenVector → Option ℕ
  unfolding run_vectors
  conformance vectors =
      elim (run_vectors (record { max_frame_size = 1472; validate_checksum = true }) vectors) [
        | none ↦ none
        | some (passed, failed) ↦ some (if ltb 0 failed then 1 else 0)
      ]
