-- ===== src/Error/Code.antt =====
-- core/src/error.rs: the registry of error codes.
pub mod Registry
use real_time_data_platform.Base.{ℕ, Option, none, some, if◌then◌else◌, ◌==◌}

pub data ErrorCode : Type 0 where
  version_mismatch malformed_frame checksum_failed unsupported_message_type : ErrorCode
  unsupported_extension replay_unavailable replay_range_invalid stream_not_found : ErrorCode
  publisher_not_authorized frame_too_large rate_limited backpressure : ErrorCode

unfoldable pub error_from_u16 : ℕ → Option ErrorCode
error_from_u16 val =
    if val == 0x0001
    then some ErrorCode.version_mismatch
    else if val == 0x0002
    then some ErrorCode.malformed_frame
    else if val == 0x0003
    then some ErrorCode.checksum_failed
    else if val == 0x0004
    then some ErrorCode.unsupported_message_type
    else if val == 0x0005
    then some ErrorCode.unsupported_extension
    else if val == 0x0006
    then some ErrorCode.replay_unavailable
    else if val == 0x0007
    then some ErrorCode.replay_range_invalid
    else if val == 0x0008
    then some ErrorCode.stream_not_found
    else if val == 0x0009
    then some ErrorCode.publisher_not_authorized
    else if val == 0x000a
    then some ErrorCode.frame_too_large
    else if val == 0x000b
    then some ErrorCode.rate_limited
    else if val == 0x000c
    then some ErrorCode.backpressure
    else none

unfoldable pub error_as_u16 : ErrorCode → ℕ
error_as_u16 ErrorCode.version_mismatch = 0x0001
error_as_u16 ErrorCode.malformed_frame = 0x0002
error_as_u16 ErrorCode.checksum_failed = 0x0003
error_as_u16 ErrorCode.unsupported_message_type = 0x0004
error_as_u16 ErrorCode.unsupported_extension = 0x0005
error_as_u16 ErrorCode.replay_unavailable = 0x0006
error_as_u16 ErrorCode.replay_range_invalid = 0x0007
error_as_u16 ErrorCode.stream_not_found = 0x0008
error_as_u16 ErrorCode.publisher_not_authorized = 0x0009
error_as_u16 ErrorCode.frame_too_large = 0x000a
error_as_u16 ErrorCode.rate_limited = 0x000b
error_as_u16 ErrorCode.backpressure = 0x000c
