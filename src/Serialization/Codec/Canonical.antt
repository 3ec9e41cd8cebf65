-- ===== src/Serialization/Codec/Canonical.antt =====
-- Encoding what `decode` accepted (core/src/serialization/codec.rs) gives the same packet.
use real_time_data_platform.Base.{
  ℕ, ◌+◌, ◌%◌, ◌^◌, ◌≤◌, ◌≡◌, sym, ap, ◌∙◌, true, List, ◌++◌, arith, length, take, drop, slice,
  write_at, length-take,
}
use real_time_data_platform.Error.{ok}
use real_time_data_platform.Protocol.Frame.{FrameView, OwnedFrame}
use real_time_data_platform.Serialization.Codec.{FrameCodec, encode, decode, sized_header}
use real_time_data_platform.Serialization.Codec.Accepted.{IsDecoded, decode-IsDecoded}
use real_time_data_platform.Serialization.Codec.RoundTrip.{
  frame_length, frame_packet, checked_header, set_checksum, encode_written,
}
use real_time_data_platform.Wire.{Wire, AllBytes, take-AllBytes}
use real_time_data_platform.Serialization.Codec.HeaderBytes.{
  IsRead, decode_header-IsRead, header_bytes-IsRead, slice-take,
}

-- The frame with the parts of a view.
abbrev pub frame_of : FrameView → OwnedFrame
frame_of view = record {
  header = view.header;
  extension_bytes = view.extension_bytes;
  payload = view.payload;
}

module _ (w : Wire) where
  open w use {write_u16, write_u32, write_u64, read_u16, read_u32, read_u64, crc32c}

  module _ (c : FrameCodec) (packet : List ℕ) (view : FrameView) (bytes : AllBytes packet)
      (d : IsDecoded w c packet view) where
    abbrev src : List ℕ
    src = take 48 packet

    src-length : length src ≡ 48
    src-length = omega (arith, length-take 48 packet, d.acceptable.long_enough)

    src-IsRead : IsRead w src view.header
    src-IsRead = decode_header-IsRead w src view.header d.header

    frame_packet-packet : frame_packet w view.header (frame_of view) ≡ packet
    frame_packet-packet =
        rw
          (header_bytes-IsRead w src (take-AllBytes 48 packet bytes) src-length view.header
            src-IsRead)
          d.parts

    header_length_is : (48 + length view.extension_bytes) % 2 ^ 16 ≡ view.header.header_length
    header_length_is =
        let whole = d.acceptable.header_length in
        let same = ap read_u16 (slice-take 6 8 48 packet (omega arith) (omega arith)) in
        let small = w.read_u16-lt (slice 6 8 packet) in
        let read = src-IsRead.header_length in omega (arith, whole, same, small, read)

    payload_length_is : length view.payload % 2 ^ 32 ≡ view.header.payload_length
    payload_length_is =
        let whole = d.acceptable.payload_length in
        let same = ap read_u32 (slice-take 40 44 48 packet (omega arith) (omega arith)) in
        let small = w.read_u32-lt (slice 40 44 packet) in
        let read = src-IsRead.payload_length in omega (arith, whole, same, small, read)

    sized_header_is : sized_header w (frame_of view) ≡ record (view.header) { checksum = 0 }
    sized_header_is = cc (header_length_is, payload_length_is)

    checksum_is :
        c.validate_checksum ≡ true
        → (checked_header w (frame_of view)).checksum ≡ view.header.checksum
    checksum_is checked =
        let h = view.header in
        let tail = view.extension_bytes ++ view.payload in
        ap crc32c (
          ap (λ g. frame_packet w g (frame_of view)) sized_header_is
          ∙ sym (set_checksum w h tail 0)
          ∙ ap (write_at 44 (write_u32 0)) frame_packet-packet)
        ∙ d.checksum checked
        ∙ sym (ap read_u32 (slice-take 44 48 48 packet (omega arith) (omega arith)))
        ∙ sym src-IsRead.checksum

    checked_header_is : c.validate_checksum ≡ true → checked_header w (frame_of view) ≡ view.header
    checked_header_is checked = cc (header_length_is, payload_length_is, checksum_is checked)

  -- A packet of bytes that decode accepts with its checksum tested is the one packet of its frame:
  -- encoding the decoded header, extensions and payload, into a destination with room for them,
  -- writes the same bytes, and leaves the rest of the destination.
  pub encode-decode :
      (c : FrameCodec) (packet : List ℕ) (view : FrameView) (dst : List ℕ)
      → AllBytes packet
      → c.validate_checksum ≡ true
      → (decode w c packet).1 ≡ ok view
      → length packet ≤ length dst
      → encode w c (frame_of view) dst ≡ (packet ++ drop (length packet) dst, ok (length packet))
  encode-decode c packet view dst bytes checked h room =
      let d = decode-IsDecoded w c packet view bytes h in
      let a = d.acceptable in
      let n : frame_length w (frame_of view) ≡ length packet = a.sizes in
      let same : frame_packet w (checked_header w (frame_of view)) (frame_of view) ≡ packet =
        ap (λ g. frame_packet w g (frame_of view)) (checked_header_is c packet view bytes d checked)
        ∙ frame_packet-packet c packet view bytes d in
      let written =
        encode_written w c (frame_of view) dst a.aligned (omega (arith, n, a.small_enough))
          (omega (arith, n, room)) in
      rw (n, same) at written
