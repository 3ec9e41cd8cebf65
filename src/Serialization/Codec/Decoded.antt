-- ===== src/Serialization/Codec/Decoded.antt =====
-- Decoding what `encode` has written.
use real_time_data_platform.Base.{
  ℕ, ◌+◌, ◌%◌, ◌≤◌, ◌≡◌, inl, inr, refl, sym, ap, ◌∙◌, List, [], ◌++◌, append-nil, arith, ltb,
  Bool-cases, length, take, drop, slice, write_at, take-append, drop-append, drop-add-append,
}
use real_time_data_platform.Error.{ok}
use real_time_data_platform.Protocol.Header.{MessageType, magic_rtdp, rtdp_version_1}
use real_time_data_platform.Protocol.Frame.{FrameView, OwnedFrame}
use real_time_data_platform.Protocol.HeaderCodec.{byte_at, decode_header}
use real_time_data_platform.Protocol.HeaderCodec.RoundTrip.{
  IsWellTyped, Reads, header_packet, header_packet-Reads, decode_header-Reads,
}
use real_time_data_platform.Protocol.Extensions.Scan.{Tlvs, scan_extensions-Tlvs}
use real_time_data_platform.Serialization.Codec.{
  FrameCodec, check_preamble, check_lengths, check_extensions, validate, check_message,
  decode_validated, decode_checked, decode, encode, sized_header,
}
use real_time_data_platform.Serialization.Codec.Decode.{IsAcceptable}
use real_time_data_platform.Serialization.Codec.Accepted.{IsMessage, payload_slice}
use real_time_data_platform.Serialization.Codec.RoundTrip.{
  IsEncodable, frame_length, frame_packet, checked_header, header_bytes, length-header_bytes,
  length-frame_packet, set_checksum, encode-frame_packet,
}
use real_time_data_platform.Wire.{Wire}

module _ (w : Wire) where
  open w use {write_u32, read_u16, read_u32, read_u64, crc32c}

  check_preamble-IsAcceptable :
      (c : FrameCodec) (packet : List ℕ)
      → 48 ≤ length packet
      → length packet ≤ c.max_frame_size
      → read_u16 (slice 0 2 packet) ≡ magic_rtdp
      → byte_at 2 packet ≡ rtdp_version_1
      → check_preamble w c packet ≡ ok tt
  unfolding check_preamble
  check_preamble-IsAcceptable c packet long small magic version = ground arith

  check_lengths-IsAcceptable :
      (packet : List ℕ) (hl pl : ℕ)
      → 48 ≤ hl
      → hl % 4 ≡ 0
      → hl + pl ≡ length packet
      → check_lengths w packet hl pl ≡ ok tt
  unfolding check_lengths
  check_lengths-IsAcceptable packet hl pl long aligned sizes = ground arith

  check_extensions_complete :
      (hl : ℕ) (packet : List ℕ)
      → Tlvs w (slice 48 hl packet) 0
      → check_extensions w hl packet ≡ ok tt
  unfolding check_extensions
  check_extensions_complete hl packet t = elim (Bool-cases (ltb 48 hl)) [
    | inl more ↦ rw more ((scan_extensions-Tlvs w (slice 48 hl packet)).1 t)
    | inr none_left ↦ rw none_left refl
  ]

  pub validate_complete :
      (c : FrameCodec) (packet : List ℕ) (hl pl : ℕ)
      → IsAcceptable w c packet hl pl
      → validate w c packet ≡ ok (hl, pl)
  unfolding validate
  validate_complete c packet hl pl a = rw (
    check_preamble-IsAcceptable c packet a.long_enough a.small_enough a.magic a.version,
    a.header_length,
    a.payload_length,
    check_lengths-IsAcceptable packet hl pl a.header_long a.aligned a.sizes,
    check_extensions_complete hl packet a.extensions,
  )

  check_message_complete :
      (type : MessageType) (hl pl : ℕ) (packet : List ℕ)
      → pl ≡ length (drop hl packet)
      → IsMessage w type (drop hl packet)
      → check_message w type hl pl packet ≡ ok tt
  unfolding check_message
  check_message_complete MessageType.heartbeat hl pl packet e h = ground (arith, ap length h)
  check_message_complete MessageType.replay_request hl pl packet e (exact, ordered) =
      rw (payload_slice w hl 8 16 packet, payload_slice w hl 16 24 packet) (ground arith)
  check_message_complete MessageType.replay_unavailable hl pl packet e h = ground arith
  check_message_complete MessageType.replay_response hl pl packet e h = ground arith
  check_message_complete MessageType.data_message hl pl packet e h = refl
  check_message_complete MessageType.snapshot_request hl pl packet e h = refl
  check_message_complete MessageType.snapshot_response hl pl packet e h = refl
  check_message_complete MessageType.error_message hl pl packet e h = refl
  check_message_complete (MessageType.experimental v) hl pl packet e h = refl

  decode_checked_complete :
      (c : FrameCodec) (packet zeroed : List ℕ) (hl pl : ℕ) (view : FrameView)
      → write_at 44 (write_u32 0) packet ≡ zeroed
      → write_at 44 (write_u32 (read_u32 (slice 44 48 packet))) zeroed ≡ packet
      → crc32c zeroed ≡ read_u32 (slice 44 48 packet)
      → decode_validated w packet hl pl ≡ ok view
      → (decode_checked w c packet (hl, pl)).1 ≡ ok view
  unfolding decode_checked
  decode_checked_complete c packet zeroed hl pl view is_zeroed is_restored sum decoded =
      ground arith

  module _ (c : FrameCodec) (frame : OwnedFrame) (v : IsEncodable w c frame) where
    -- The frame as `decode` gives it back.
    abbrev pub decoded_frame : FrameView
    decoded_frame = record {
      header = checked_header w frame;
      extension_bytes = frame.extension_bytes;
      payload = frame.payload;
    }

    checked_header-IsWellTyped : IsWellTyped (checked_header w frame)
    checked_header-IsWellTyped =
        let t = v.well_typed in
        record {
          is_rtdp = t.is_rtdp;
          is_version_1 = t.is_version_1;
          message = t.message;
          message_small = t.message_small;
          header_length_small = omega (arith, v.header_small);
          stream_id_small = t.stream_id_small;
          sequence_small = t.sequence_small;
          timestamp_small = t.timestamp_small;
          publisher_id_small = t.publisher_id_small;
          payload_length_small = omega (arith, v.payload_small);
          checksum_small = w.crc32c-lt (frame_packet w (sized_header w frame) frame);
        }

    packet_extensions :
        slice 48 (48 + length frame.extension_bytes) (frame_packet w (checked_header w frame) frame)
        ≡ frame.extension_bytes
    packet_extensions =
        let h = checked_header w frame in
        rw
          (drop-append (header_bytes w h) (frame.extension_bytes ++ frame.payload) 48
            (sym (length-header_bytes w h)))
          (take-append frame.extension_bytes frame.payload _ (omega arith))

    packet_payload :
        drop (48 + length frame.extension_bytes) (frame_packet w (checked_header w frame) frame)
        ≡ frame.payload
    packet_payload =
        let h = checked_header w frame in
        rw
          (drop-add-append (header_bytes w h) (frame.extension_bytes ++ frame.payload)
            (48 + length frame.extension_bytes) (length frame.extension_bytes)
            (omega (arith, length-header_bytes w h)))
          (drop-append frame.extension_bytes frame.payload _ refl)

    packet-Reads : Reads w (frame_packet w (checked_header w frame) frame) (checked_header w frame)
    packet-Reads =
        header_packet-Reads w (checked_header w frame) (frame.extension_bytes ++ frame.payload)
          checked_header-IsWellTyped

    packet-IsAcceptable :
        IsAcceptable w c
          (frame_packet w (checked_header w frame) frame)
          (48 + length frame.extension_bytes)
          (length frame.payload)
    packet-IsAcceptable =
        let r = packet-Reads in
        let n = length-frame_packet w (checked_header w frame) frame in
        record {
          long_enough = r.long;
          small_enough = omega (arith, n, v.fits);
          magic = r.magic ∙ v.well_typed.is_rtdp;
          version = r.version ∙ v.well_typed.is_version_1;
          header_length = omega (arith, r.header_length, v.header_small);
          payload_length = omega (arith, r.payload_length, v.payload_small);
          header_long = omega arith;
          aligned = v.aligned;
          sizes = sym n;
          extensions = rw packet_extensions v.extensions;
        }

    packet_header :
        decode_header w (take 48 (frame_packet w (checked_header w frame) frame))
        ≡ ok (checked_header w frame)
    packet_header =
        let h = checked_header w frame in
        let alone =
          take-append (header_bytes w h) (frame.extension_bytes ++ frame.payload) 48
            (sym (length-header_bytes w h)) in
        rw (alone, ← append-nil (header_bytes w h))
          (decode_header-Reads w (header_packet w h []) h checked_header-IsWellTyped
            (header_packet-Reads w h [] checked_header-IsWellTyped))

    decode_validated-frame_packet :
        decode_validated w
          (frame_packet w (checked_header w frame) frame)
          (48 + length frame.extension_bytes)
          (length frame.payload)
        ≡ ok decoded_frame
    unfolding decode_validated
    decode_validated-frame_packet =
        let rules =
          check_message_complete frame.header.message_type (48 + length frame.extension_bytes)
            (length frame.payload) (frame_packet w (checked_header w frame) frame)
            (ap length (sym packet_payload)) (rw packet_payload v.message) in
        rw (packet_header, rules, packet_extensions, packet_payload) refl

    decode_checked-frame_packet :
        (decode_checked w c
          (frame_packet w (checked_header w frame) frame)
          (48 + length frame.extension_bytes, length frame.payload)).1
        ≡ ok decoded_frame
    decode_checked-frame_packet =
        let h = checked_header w frame in
        let tail = frame.extension_bytes ++ frame.payload in
        let sum = packet-Reads.checksum in
        decode_checked_complete c (frame_packet w h frame)
          (frame_packet w (sized_header w frame) frame) (48 + length frame.extension_bytes)
          (length frame.payload) decoded_frame (set_checksum w h tail 0)
          (rw sum (set_checksum w (sized_header w frame) tail h.checksum)) (sym sum)
          decode_validated-frame_packet

    -- An encodable frame is decoded from its packet.
    decode-frame_packet :
        (decode w c (frame_packet w (checked_header w frame) frame)).1 ≡ ok decoded_frame
    unfolding decode
    decode-frame_packet =
        rw (decode, validate_complete c _ _ _ packet-IsAcceptable) decode_checked-frame_packet

    -- An encodable frame, encoded into a destination with room for it, takes the length of its
    -- parts, and decoding the written bytes gives the frame back, its header with the lengths and
    -- the checksum filled in. Encodable means: field values of the widths of the Rust types, this
    -- protocol and version, an aligned header below 2^16 bytes, a payload below 2^32 bytes, a
    -- total within the configured maximum, well-formed extensions, and a payload that follows the
    -- rules of its message type.
    pub decode-encode :
        (dst : List ℕ)
        → frame_length w frame ≤ length dst
        → ((encode w c frame dst).1 ≡ ok (frame_length w frame))
          × ((decode w c (take (frame_length w frame) (encode w c frame dst).0)).1
              ≡ ok decoded_frame)
    decode-encode dst room =
        let h = checked_header w frame in
        let written = encode-frame_packet w c frame dst v room in
        let packet =
          take-append (frame_packet w h frame) (drop (frame_length w frame) dst)
            (frame_length w frame) (sym (length-frame_packet w h frame)) in
        rw written (refl, rw packet decode-frame_packet)
