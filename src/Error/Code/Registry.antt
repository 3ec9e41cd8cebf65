-- ===== src/Error/Code/Registry.antt =====
-- The numbering of the error codes.
use real_time_data_platform.Base.{ℕ, ◌≤◌, ◌≡◌, some, arith}
use real_time_data_platform.Error.Code.{ErrorCode, error_from_u16, error_as_u16}

-- Decoding the number of an error code gives the code back, and the numbers are 1 to 12.
pub error_from_u16-error_as_u16 :
    (c : ErrorCode)
    → (error_from_u16 (error_as_u16 c) ≡ some c) × (1 ≤ error_as_u16 c) × (error_as_u16 c ≤ 12)
unfolding error_from_u16 error_as_u16
error_from_u16-error_as_u16 c = ground arith

-- A number that decodes is the number of the code that it decodes to; all others are refused.
pub error_as_u16_of_from : (n : ℕ) (c : ErrorCode) → error_from_u16 n ≡ some c → error_as_u16 c ≡ n
unfolding error_from_u16 error_as_u16
error_as_u16_of_from n c h = ground arith
