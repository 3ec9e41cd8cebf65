-- ===== src/Error.antt =====
-- core/src/error.rs: the error type and results.
-- The diagnostic text of an error (`detail`) is not modelled.
pub mod Code
use real_time_data_platform.Base.{ℕ, Option, none, some}
pub use Code.{ErrorCode}
unfoldable pub use Code.{error_from_u16, error_as_u16}

pub data RtdpError : Type 0 where
  protocol : ErrorCode → RtdpError
  io : RtdpError
  buffer_exhausted : RtdpError
  unrecoverable_gap : ℕ → ℕ → RtdpError

-- `RtdpError::malformed` and its siblings; what they take is only for the text.
abbrev pub malformed : RtdpError
malformed = RtdpError.protocol ErrorCode.malformed_frame

abbrev pub version_mismatch : RtdpError
version_mismatch = RtdpError.protocol ErrorCode.version_mismatch

abbrev pub checksum_failed : RtdpError
checksum_failed = RtdpError.protocol ErrorCode.checksum_failed

abbrev pub unsupported_extension : RtdpError
unsupported_extension = RtdpError.protocol ErrorCode.unsupported_extension

abbrev pub frame_too_large : RtdpError
frame_too_large = RtdpError.protocol ErrorCode.frame_too_large

unfoldable pub error_code : RtdpError → Option ErrorCode
error_code (RtdpError.protocol code) = some code
error_code RtdpError.io = none
error_code RtdpError.buffer_exhausted = none
error_code (RtdpError.unrecoverable_gap from to) = none

-- Rust's `Result<A, E>`.
pub data Result {ℓ κ} (A : Type ℓ) (E : Type κ) : Type (ℓ ⊔ κ) where
  ok : A → Result A E
  err : E → Result A E

-- The operator `?`.
infixl 5 ◌>>=◌
abbrev pub ◌>>=◌ {ℓ κ μ} :
    {A : Type ℓ} {B : Type κ} {E : Type μ} → Result A E → (A → Result B E) → Result B E
ok a >>= f = f a
err e >>= f = err e
