-- ===== src/Protocol/HeaderCodec.antt =====
-- core/src/protocol/header.rs: `FixedHeader::encode` and `FixedHeader::decode`.
pub mod RoundTrip
use real_time_data_platform.Base.{
  ℕ, Bool, not, Option, some, none, List, [], ◌∷◌, if◌then◌else◌, ◌==◌, ltb, length, slice,
  write_at, get_elem?,
}
use real_time_data_platform.Error.{RtdpError, Result, ok, err, malformed, version_mismatch, ◌>>=◌}
use real_time_data_platform.Protocol.Header.{
  FixedHeader, fixed_header_size, magic_rtdp, rtdp_version_1, message_from_u16, message_as_u16,
}
use real_time_data_platform.Wire.{Wire}

-- `src[i]` at an index that the length checks have put in range.
abbrev pub byte_at : ℕ → List ℕ → ℕ
byte_at i src = elim (get_elem? src i) [ none ↦ 0 | some b ↦ b ]

module _ (w : Wire) where
  open w use {write_u16, write_u32, write_u64, read_u16, read_u32, read_u64}

  -- The writes, in the order of the source.
  unfoldable pub write_fields : FixedHeader → List ℕ → List ℕ
  write_fields h dst =
      let dst = write_at 0 (write_u16 h.magic) dst in
      let dst = write_at 2 (h.version ∷ []) dst in
      let dst = write_at 3 (h.flags ∷ []) dst in
      let dst = write_at 4 (write_u16 (message_as_u16 h.message_type)) dst in
      let dst = write_at 6 (write_u16 h.header_length) dst in
      let dst = write_at 8 (write_u64 h.stream_id) dst in
      let dst = write_at 16 (write_u64 h.sequence) dst in
      let dst = write_at 24 (write_u64 h.timestamp_ns) dst in
      let dst = write_at 32 (write_u64 h.publisher_id) dst in
      let dst = write_at 40 (write_u32 h.payload_length) dst in
      write_at 44 (write_u32 h.checksum) dst

  -- The buffer as it is left.
  unfoldable pub encode_header : FixedHeader → List ℕ → Result (List ℕ) RtdpError
  encode_header h dst =
      if ltb (length dst) fixed_header_size then err malformed else ok (write_fields h dst)

  unfoldable pub decode_header : List ℕ → Result FixedHeader RtdpError
  decode_header src =
      if ltb (length src) fixed_header_size
      then err malformed
      else (let magic = read_u16 (slice 0 2 src) in
          let version = byte_at 2 src in
          if not (magic == magic_rtdp)
          then err malformed
          else if not (version == rtdp_version_1)
          then err version_mismatch
          else (message_from_u16 (read_u16 (slice 4 6 src)) >>= λ message_type. ok (record {
            magic = magic;
            version = version;
            flags = byte_at 3 src;
            message_type = message_type;
            header_length = read_u16 (slice 6 8 src);
            stream_id = read_u64 (slice 8 16 src);
            sequence = read_u64 (slice 16 24 src);
            timestamp_ns = read_u64 (slice 24 32 src);
            publisher_id = read_u64 (slice 32 40 src);
            payload_length = read_u32 (slice 40 44 src);
            checksum = read_u32 (slice 44 48 src);
          })))
