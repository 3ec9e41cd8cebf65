-- ===== src/Protocol/Header.antt =====
-- core/src/protocol/header.rs: message types and the fixed header as data.
use Prim.Native.Nat.{bit_and}
use real_time_data_platform.Base.{ℕ, Bool, not, if◌then◌else◌, ◌==◌, leb, ◌&&◌}
use real_time_data_platform.Error.{ErrorCode, RtdpError, Result, ok, err}

abbrev pub magic_rtdp : ℕ
magic_rtdp = 0x5254

abbrev pub rtdp_version_1 : ℕ
rtdp_version_1 = 0x01

abbrev pub fixed_header_size : ℕ
fixed_header_size = 48

abbrev pub default_max_frame_size : ℕ
default_max_frame_size = 1472

pub data MessageType : Type 0 where
  data_message : MessageType
  heartbeat : MessageType
  replay_request : MessageType
  replay_response : MessageType
  replay_unavailable : MessageType
  snapshot_request : MessageType
  snapshot_response : MessageType
  error_message : MessageType
  experimental : ℕ → MessageType

unfoldable pub message_from_u16 : ℕ → Result MessageType RtdpError
message_from_u16 val =
    if val == 0x0001
    then ok MessageType.data_message
    else if val == 0x0002
    then ok MessageType.heartbeat
    else if val == 0x0003
    then ok MessageType.replay_request
    else if val == 0x0004
    then ok MessageType.replay_response
    else if val == 0x0005
    then ok MessageType.replay_unavailable
    else if val == 0x0006
    then ok MessageType.snapshot_request
    else if val == 0x0007
    then ok MessageType.snapshot_response
    else if val == 0x0008
    then ok MessageType.error_message
    else if leb 0xff00 val && leb val 0xffff
    then ok (MessageType.experimental val)
    else err (RtdpError.protocol ErrorCode.unsupported_message_type)

unfoldable pub message_as_u16 : MessageType → ℕ
message_as_u16 MessageType.data_message = 0x0001
message_as_u16 MessageType.heartbeat = 0x0002
message_as_u16 MessageType.replay_request = 0x0003
message_as_u16 MessageType.replay_response = 0x0004
message_as_u16 MessageType.replay_unavailable = 0x0005
message_as_u16 MessageType.snapshot_request = 0x0006
message_as_u16 MessageType.snapshot_response = 0x0007
message_as_u16 MessageType.error_message = 0x0008
message_as_u16 (MessageType.experimental v) = v

-- `FrameFlags(pub u8)` is its byte.
abbrev pub FrameFlags : Type 0
FrameFlags = ℕ

pub is_fragmented : FrameFlags → Bool
is_fragmented flags = not (bit_and flags 1 == 0)

pub is_last_fragment : FrameFlags → Bool
is_last_fragment flags = not (bit_and flags 2 == 0)

pub is_compressed : FrameFlags → Bool
is_compressed flags = not (bit_and flags 4 == 0)

pub record FixedHeader : Type 0 where
  pub magic : ℕ
  pub version : ℕ
  pub flags : FrameFlags
  pub message_type : MessageType
  pub header_length : ℕ
  pub stream_id : ℕ
  pub sequence : ℕ
  pub timestamp_ns : ℕ
  pub publisher_id : ℕ
  pub payload_length : ℕ
  pub checksum : ℕ

unfoldable pub new_data_header : ℕ → ℕ → ℕ → ℕ → ℕ → ℕ → FixedHeader
new_data_header stream_id sequence timestamp_ns publisher_id payload_length header_length = record {
  magic = magic_rtdp;
  version = rtdp_version_1;
  flags = 0;
  message_type = MessageType.data_message;
  header_length = header_length;
  stream_id = stream_id;
  sequence = sequence;
  timestamp_ns = timestamp_ns;
  publisher_id = publisher_id;
  payload_length = payload_length;
  checksum = 0;
}
