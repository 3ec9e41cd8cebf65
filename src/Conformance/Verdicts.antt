-- ===== src/Conformance/Verdicts.antt =====
-- What the run of the golden vectors (conformance/src/main.rs) comes to.
use Prim.Native.String.{String}
use text.Mathlib.Text.{◌==◌ as ◌==ₛ◌}
use text.Mathlib.TextEquality.{eq_iff}
use real_time_data_platform.Base.{
  ℕ, ◌+◌, ◌≡◌, ◌≢◌, ◌↔◌, ◌⊎◌, inl, inr, refl, Bool, true, false, none, some, List, [], ◌∷◌, arith,
  length, Each, Bool-cases,
}
use real_time_data_platform.Error.{ErrorCode, RtdpError, Result, ok, err, error_code, error_as_u16}
use real_time_data_platform.Protocol.Frame.{FrameView}
use real_time_data_platform.Serialization.Codec.{FrameCodec, decode}
use real_time_data_platform.Serialization.Codec.Decode.{Result-cases}
use real_time_data_platform.Serialization.Codec.Errors.{decode_code}
use real_time_data_platform.Conformance.{
  GoldenVector, hex_to_bytes, expected_matches, expected_str, verdict, test_vector, count,
  run_vectors,
}
use real_time_data_platform.Wire.{Wire}

-- The names of the errors (protocol/spec/error-codes.md).
abbrev pub name_of : ErrorCode → String
name_of ErrorCode.malformed_frame = "MALFORMED_FRAME"
name_of ErrorCode.unsupported_message_type = "UNSUPPORTED_MESSAGE_TYPE"
name_of ErrorCode.version_mismatch = "VERSION_MISMATCH"
name_of ErrorCode.checksum_failed = "CHECKSUM_FAILED"
name_of ErrorCode.unsupported_extension = "UNSUPPORTED_EXTENSION"
name_of ErrorCode.replay_unavailable = "REPLAY_UNAVAILABLE"
name_of ErrorCode.replay_range_invalid = "REPLAY_RANGE_INVALID"
name_of ErrorCode.stream_not_found = "STREAM_NOT_FOUND"
name_of ErrorCode.publisher_not_authorized = "PUBLISHER_NOT_AUTHORIZED"
name_of ErrorCode.frame_too_large = "FRAME_TOO_LARGE"
name_of ErrorCode.rate_limited = "RATE_LIMITED"
name_of ErrorCode.backpressure = "BACKPRESSURE"

-- A name that the run compares a code with.
abbrev pub IsCompared : String → Type 0
IsCompared s =
    (s ≡ "MALFORMED_FRAME")
    ⊎ (s ≡ "VERSION_MISMATCH")
    ⊎ (s ≡ "CHECKSUM_FAILED")
    ⊎ (s ≡ "UNSUPPORTED_EXTENSION")
    ⊎ (s ≡ "FRAME_TOO_LARGE")

at_malformed_frame :
    (code : ErrorCode)
    → expected_matches "MALFORMED_FRAME" code ≡ ("MALFORMED_FRAME" ==ₛ name_of code)
unfolding expected_matches error_as_u16
at_malformed_frame ErrorCode.malformed_frame = refl
at_malformed_frame ErrorCode.unsupported_message_type = refl
at_malformed_frame ErrorCode.version_mismatch = refl
at_malformed_frame ErrorCode.checksum_failed = refl
at_malformed_frame ErrorCode.unsupported_extension = refl
at_malformed_frame ErrorCode.replay_unavailable = refl
at_malformed_frame ErrorCode.replay_range_invalid = refl
at_malformed_frame ErrorCode.stream_not_found = refl
at_malformed_frame ErrorCode.publisher_not_authorized = refl
at_malformed_frame ErrorCode.frame_too_large = refl
at_malformed_frame ErrorCode.rate_limited = refl
at_malformed_frame ErrorCode.backpressure = refl

at_version_mismatch :
    (code : ErrorCode)
    → expected_matches "VERSION_MISMATCH" code ≡ ("VERSION_MISMATCH" ==ₛ name_of code)
unfolding expected_matches error_as_u16
at_version_mismatch ErrorCode.malformed_frame = refl
at_version_mismatch ErrorCode.unsupported_message_type = refl
at_version_mismatch ErrorCode.version_mismatch = refl
at_version_mismatch ErrorCode.checksum_failed = refl
at_version_mismatch ErrorCode.unsupported_extension = refl
at_version_mismatch ErrorCode.replay_unavailable = refl
at_version_mismatch ErrorCode.replay_range_invalid = refl
at_version_mismatch ErrorCode.stream_not_found = refl
at_version_mismatch ErrorCode.publisher_not_authorized = refl
at_version_mismatch ErrorCode.frame_too_large = refl
at_version_mismatch ErrorCode.rate_limited = refl
at_version_mismatch ErrorCode.backpressure = refl

at_checksum_failed :
    (code : ErrorCode)
    → expected_matches "CHECKSUM_FAILED" code ≡ ("CHECKSUM_FAILED" ==ₛ name_of code)
unfolding expected_matches error_as_u16
at_checksum_failed ErrorCode.malformed_frame = refl
at_checksum_failed ErrorCode.unsupported_message_type = refl
at_checksum_failed ErrorCode.version_mismatch = refl
at_checksum_failed ErrorCode.checksum_failed = refl
at_checksum_failed ErrorCode.unsupported_extension = refl
at_checksum_failed ErrorCode.replay_unavailable = refl
at_checksum_failed ErrorCode.replay_range_invalid = refl
at_checksum_failed ErrorCode.stream_not_found = refl
at_checksum_failed ErrorCode.publisher_not_authorized = refl
at_checksum_failed ErrorCode.frame_too_large = refl
at_checksum_failed ErrorCode.rate_limited = refl
at_checksum_failed ErrorCode.backpressure = refl

at_unsupported_extension :
    (code : ErrorCode)
    → expected_matches "UNSUPPORTED_EXTENSION" code ≡ ("UNSUPPORTED_EXTENSION" ==ₛ name_of code)
unfolding expected_matches error_as_u16
at_unsupported_extension ErrorCode.malformed_frame = refl
at_unsupported_extension ErrorCode.unsupported_message_type = refl
at_unsupported_extension ErrorCode.version_mismatch = refl
at_unsupported_extension ErrorCode.checksum_failed = refl
at_unsupported_extension ErrorCode.unsupported_extension = refl
at_unsupported_extension ErrorCode.replay_unavailable = refl
at_unsupported_extension ErrorCode.replay_range_invalid = refl
at_unsupported_extension ErrorCode.stream_not_found = refl
at_unsupported_extension ErrorCode.publisher_not_authorized = refl
at_unsupported_extension ErrorCode.frame_too_large = refl
at_unsupported_extension ErrorCode.rate_limited = refl
at_unsupported_extension ErrorCode.backpressure = refl

at_frame_too_large :
    (code : ErrorCode)
    → expected_matches "FRAME_TOO_LARGE" code ≡ ("FRAME_TOO_LARGE" ==ₛ name_of code)
unfolding expected_matches error_as_u16
at_frame_too_large ErrorCode.malformed_frame = refl
at_frame_too_large ErrorCode.unsupported_message_type = refl
at_frame_too_large ErrorCode.version_mismatch = refl
at_frame_too_large ErrorCode.checksum_failed = refl
at_frame_too_large ErrorCode.unsupported_extension = refl
at_frame_too_large ErrorCode.replay_unavailable = refl
at_frame_too_large ErrorCode.replay_range_invalid = refl
at_frame_too_large ErrorCode.stream_not_found = refl
at_frame_too_large ErrorCode.publisher_not_authorized = refl
at_frame_too_large ErrorCode.frame_too_large = refl
at_frame_too_large ErrorCode.rate_limited = refl
at_frame_too_large ErrorCode.backpressure = refl

expected_matches-name_of :
    (s : String) (code : ErrorCode) → IsCompared s → expected_matches s code ≡ (s ==ₛ name_of code)
expected_matches-name_of s code (inl e) = rw e (at_malformed_frame code)
expected_matches-name_of s code (inr (inl e)) = rw e (at_version_mismatch code)
expected_matches-name_of s code (inr (inr (inl e))) = rw e (at_checksum_failed code)
expected_matches-name_of s code (inr (inr (inr (inl e)))) = rw e (at_unsupported_extension code)
expected_matches-name_of s code (inr (inr (inr (inr e)))) = rw e (at_frame_too_large code)

-- What a vector asks of the answer of `decode`.
abbrev pub Met : GoldenVector → Result FrameView RtdpError → Type 0
Met v (ok view) = v.expected_result ≡ "OK"
Met v (err (RtdpError.protocol code)) =
    (v.expected_result ≢ "OK") × (expected_str v.expected_error ≡ name_of code)
Met v (err e) = ⊥

-- A vector that expects OK, or an error by a name that the run compares.
abbrev pub IsComparable : GoldenVector → Type 0
IsComparable v = (v.expected_result ≡ "OK") ⊎ IsCompared (expected_str v.expected_error)

verdict-Met_ok :
    (v : GoldenVector) (view : FrameView)
    → (passes : Bool) × (verdict v (ok view) ≡ some passes) × ((passes ≡ true) ↔ Met v (ok view))
unfolding verdict
verdict-Met_ok v view = (v.expected_result ==ₛ "OK", refl, eq_iff v.expected_result "OK")

verdict-Met_err :
    (v : GoldenVector) (code : ErrorCode)
    → IsComparable v
    → (passes : Bool) × (verdict v (err (RtdpError.protocol code)) ≡ some passes)
      × ((passes ≡ true) ↔ Met v (err (RtdpError.protocol code)))
unfolding verdict error_code
verdict-Met_err v code comparable = elim (Bool-cases (v.expected_result ==ₛ "OK")) [
  | inl wanted ↦
      let is_ok = (eq_iff v.expected_result "OK").0 wanted in
      (
        false,
        rw (verdict, wanted) refl,
        (λ h. absurd (ground arith), λ (other, h). absurd (other is_ok)),
      )
  | inr refusal ↦
      let other : v.expected_result ≢ "OK" =
        λ e. absurd (let wanted = (eq_iff v.expected_result "OK").1 e in ground arith) in
      let expected = expected_str v.expected_error in
      let named : expected_matches expected code ≡ (expected ==ₛ name_of code) = elim comparable [
        | inl is_ok ↦ absurd (other is_ok)
        | inr compared ↦ expected_matches-name_of expected code compared
      ] in
      (
        expected ==ₛ name_of code,
        rw (verdict, refusal, named) refl,
        (
          λ h. (other, (eq_iff expected (name_of code)).0 h),
          λ (o, h). (eq_iff expected (name_of code)).1 h,
        ),
      )
]

-- The bytes of a vector, empty where its text is no hex.
abbrev pub raw : GoldenVector → List ℕ
raw v = elim (hex_to_bytes v.hex) [ none ↦ [] | some bytes ↦ bytes ]

abbrev pub IsReadable : GoldenVector → Type 0
IsReadable v = hex_to_bytes v.hex ≡ some (raw v)

module _ (w : Wire) (codec : FrameCodec) where
  -- What a vector expects is what decoding its bytes comes to.
  abbrev pub IsMet : GoldenVector → Type 0
  IsMet v = Met v (decode w codec (raw v)).1

  test_vector-Met :
      (v : GoldenVector)
      → IsReadable v
      → IsComparable v
      → (passes : Bool) × (test_vector w codec v ≡ some passes) × ((passes ≡ true) ↔ IsMet v)
  unfolding test_vector
  test_vector-Met v readable comparable = elim (Result-cases (decode w codec (raw v)).1) [
    | inl (view, e) ↦
        let (passes, answer, means) = verdict-Met_ok v view in
        (passes, rw (test_vector, readable, e) answer, rw e means)
    | inr (fault, refused) ↦
        let (code, is_code) = decode_code w codec (raw v) fault refused in
        let (passes, answer, means) = verdict-Met_err v code comparable in
        let refused' = rw is_code at refused in
        (passes, rw (test_vector, readable, refused') answer, rw refused' means)
  ]

  -- Over vectors whose texts are hex and which expect either OK or one of the five errors
  -- MALFORMED_FRAME, VERSION_MISMATCH, CHECKSUM_FAILED, UNSUPPORTED_EXTENSION and FRAME_TOO_LARGE
  -- by name, the conformance run does not panic, the numbers of passed and failed vectors add up
  -- to that of all, and none has failed just when each vector is met: those that expect OK are
  -- decoded, and the others are refused with the error code that they name.
  pub run_vectors-IsMet :
      (vectors : List GoldenVector)
      → Each IsReadable vectors
      → Each IsComparable vectors
      → (passed : ℕ) × (failed : ℕ) × (run_vectors w codec vectors ≡ some (passed, failed))
        × (passed + failed ≡ length vectors)
        × ((failed ≡ 0) ↔ Each IsMet vectors)
  unfolding run_vectors count
  run_vectors-IsMet [] rs cs = (0, 0, refl, refl, (λ h. tt, λ h. refl))
  run_vectors-IsMet (v ∷ vs) (r, rs) (c, cs) =
      let (passed, failed, counted, total, means) = run_vectors-IsMet vs rs cs in
      let (passes, answer, meets) = test_vector-Met v r c in
      elim (Bool-cases passes) [
        | inl good ↦ (
          passed + 1,
          failed,
          rw (run_vectors, answer, good, counted) refl,
          omega arith,
          (λ h. (meets.0 good, means.0 h), λ (m, ms). means.1 ms),
        )
        | inr bad ↦ (
          passed,
          failed + 1,
          rw (run_vectors, answer, bad, counted) refl,
          omega arith,
          (λ h. absurd (omega arith), λ (m, ms). absurd (let good = meets.1 m in ground arith)),
        )
      ]
