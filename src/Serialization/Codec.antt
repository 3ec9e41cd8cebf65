-- ===== src/Serialization/Codec.antt =====
-- core/src/serialization/codec.rs: decoding and encoding of whole frames.
pub mod Decode
pub mod Accepted
pub mod RoundTrip
pub mod Decoded
pub mod Encoded
pub mod Errors
pub mod HeaderBytes
pub mod Canonical
use real_time_data_platform.Base.{
  ℕ, ◌+◌, ◌%◌, ◌^◌, Bool, not, true, false, List, [], ◌∷◌, ◌++◌, if◌then◌else◌, ◌==◌, ltb, length,
  take, drop, slice, write_at,
}
use real_time_data_platform.Error.{
  ErrorCode, RtdpError, Result, ok, err, malformed, version_mismatch, checksum_failed,
  frame_too_large, ◌>>=◌,
}
use real_time_data_platform.Protocol.Header.{
  FixedHeader, MessageType, fixed_header_size, default_max_frame_size, magic_rtdp, rtdp_version_1,
}
use real_time_data_platform.Protocol.Frame.{FrameView, OwnedFrame}
use real_time_data_platform.Protocol.HeaderCodec.{byte_at, encode_header, decode_header}
use real_time_data_platform.Protocol.Extensions.{new_iterator, scan_extensions}
use real_time_data_platform.Wire.{Wire}

pub record CodecConfig : Type 0 where
  pub max_frame_size : ℕ
  pub validate_checksum : Bool

abbrev pub default_codec_config : CodecConfig
default_codec_config = record { max_frame_size = default_max_frame_size; validate_checksum = true }

-- `FrameCodec` is its configuration.
abbrev pub FrameCodec : Type 0
FrameCodec = CodecConfig

-- `if test { return Err(e) }`
abbrev pub reject_if : Bool → RtdpError → Result (Unit {0}) RtdpError
reject_if true e = err e
reject_if false e = ok tt

infixl 5 ◌>>◌
abbrev pub ◌>>◌ {ℓ} :
    {B : Type ℓ} → Result (Unit {0}) RtdpError → Result B RtdpError → Result B RtdpError
m >> k = m >>= λ _. k

module _ (w : Wire) where
  open w use {write_u32, read_u16, read_u32, read_u64, crc32c}

  -- Step 5, for a header that is longer than the fixed one.
  unfoldable pub check_extensions : ℕ → List ℕ → Result (Unit {0}) RtdpError
  unfolding new_iterator
  check_extensions header_length packet =
      let ext = slice fixed_header_size header_length packet in
      if ltb fixed_header_size header_length
      then scan_extensions w (length ext) (new_iterator ext)
      else ok tt

  -- The sizes of the packet, its magic and its version.
  unfoldable pub check_preamble : FrameCodec → List ℕ → Result (Unit {0}) RtdpError
  check_preamble c packet = do
    reject_if (ltb (length packet) fixed_header_size) malformed
    reject_if (ltb c.max_frame_size (length packet)) frame_too_large
    reject_if (not (read_u16 (slice 0 2 packet) == magic_rtdp)) malformed
    reject_if (not (byte_at 2 packet == rtdp_version_1)) version_mismatch

  -- The lengths that the packet declares.
  unfoldable pub check_lengths : List ℕ → ℕ → ℕ → Result (Unit {0}) RtdpError
  check_lengths packet header_length payload_length = do
    reject_if (ltb header_length fixed_header_size) malformed
    reject_if (not (header_length % 4 == 0)) malformed
    reject_if (ltb (length packet) header_length) malformed
    reject_if (not (header_length + payload_length == length packet)) malformed

  -- Steps 1 to 5: the header length and the payload length of an acceptable packet.
  unfoldable pub validate : FrameCodec → List ℕ → Result (ℕ × ℕ) RtdpError
  unfolding check_preamble check_lengths check_extensions
  validate c packet =
      let header_length = read_u16 (slice 6 8 packet) in
      let payload_length = read_u32 (slice 40 44 packet) in
      do
        check_preamble c packet
        check_lengths packet header_length payload_length
        check_extensions header_length packet
        ok (header_length, payload_length)

  -- The structural rules of the message types.
  unfoldable pub check_message : MessageType → ℕ → ℕ → List ℕ → Result (Unit {0}) RtdpError
  check_message MessageType.heartbeat header_length payload_length packet =
      reject_if (not (payload_length == 0)) malformed
  check_message MessageType.replay_request header_length payload_length packet =
      let from_seq = read_u64 (slice (header_length + 8) (header_length + 16) packet) in
      let to_seq = read_u64 (slice (header_length + 16) (header_length + 24) packet) in
      do
        reject_if (not (payload_length == 24)) malformed
        reject_if (ltb to_seq from_seq) (RtdpError.protocol ErrorCode.replay_range_invalid)
  check_message MessageType.replay_unavailable header_length payload_length packet =
      reject_if (not (payload_length == 24)) malformed
  check_message MessageType.replay_response header_length payload_length packet =
      reject_if (ltb payload_length 8) malformed
  check_message _ header_length payload_length packet = ok tt

  -- What follows the checksum.
  unfoldable pub decode_validated : List ℕ → ℕ → ℕ → Result FrameView RtdpError
  unfolding check_message
  decode_validated packet header_length payload_length = do
    header ← decode_header w (take fixed_header_size packet)
    check_message header.message_type header_length payload_length packet
    ok (record {
      header = header;
      extension_bytes = slice fixed_header_size header_length packet;
      payload = drop header_length packet;
    })

  -- Step 6, and what follows: the packet as it is left, and the result.
  unfoldable pub decode_checked : FrameCodec → List ℕ → ℕ × ℕ → List ℕ × Result FrameView RtdpError
  decode_checked c packet (header_length, payload_length) =
      let wire_checksum = read_u32 (slice 44 48 packet) in
      let zeroed = write_at 44 (write_u32 0) packet in
      let restored = write_at 44 (write_u32 wire_checksum) zeroed in
      if c.validate_checksum
      then (if not (crc32c zeroed == wire_checksum)
          then (restored, err checksum_failed)
          else (restored, decode_validated restored header_length payload_length))
      else (packet, decode_validated packet header_length payload_length)

  unfoldable pub decode : FrameCodec → List ℕ → List ℕ × Result FrameView RtdpError
  unfolding validate
  decode c packet = elim (validate c packet) [
    | ok lengths ↦ decode_checked c packet lengths
    | err e ↦ (packet, err e)
  ]

  -- The header that `encode` writes, its checksum still zero.
  abbrev pub sized_header : OwnedFrame → FixedHeader
  sized_header frame = record (frame.header) {
    header_length = (fixed_header_size + length frame.extension_bytes) % 2 ^ 16;
    payload_length = length frame.payload % 2 ^ 32;
    checksum = 0;
  }

  -- The writes behind the header, the checksum last.
  unfoldable pub write_body : OwnedFrame → List ℕ → List ℕ
  write_body frame dst =
      let ext_len = length frame.extension_bytes in
      let total_hl = fixed_header_size + ext_len in
      let total_frame_len = total_hl + length frame.payload in
      let dst =
        if ltb 0 ext_len then write_at fixed_header_size frame.extension_bytes dst else dst in
      let dst = write_at total_hl frame.payload dst in
      write_at 44 (write_u32 (crc32c (take total_frame_len dst))) dst

  -- The destination as it is left, and the length of the frame.
  unfoldable pub encode : FrameCodec → OwnedFrame → List ℕ → List ℕ × Result ℕ RtdpError
  unfolding write_body
  encode c frame dst =
      let total_hl = fixed_header_size + length frame.extension_bytes in
      let total_frame_len = total_hl + length frame.payload in
      if not (total_hl % 4 == 0)
      then (dst, err malformed)
      else if ltb c.max_frame_size total_frame_len
      then (dst, err frame_too_large)
      else if ltb (length dst) total_frame_len
      then (dst, err malformed)
      else elim (encode_header w (sized_header frame) (take fixed_header_size dst)) [
        | err e ↦ (dst, err e)
        | ok head ↦ (write_body frame (head ++ drop fixed_header_size dst), ok total_frame_len)
      ]
