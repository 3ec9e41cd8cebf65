-- ===== src/Serialization/Codec/RoundTrip.antt =====
-- The bytes that `encode` leaves in its destination.
use real_time_data_platform.Base.{
  ℕ, ◌+◌, ◌%◌, ◌^◌, ◌≤◌, ◌<◌, ◌≡◌, refl, sym, ap, List, [], ◌∷◌, ◌++◌, append-nil, append_assoc,
  arith, if◌then◌else◌, ◌==◌, true, false, suc, ltb, length, take, drop, write_at, concat,
  take-append, drop_all, write_next, write_at_chunk, length-append, length-take,
}
use real_time_data_platform.Error.{ok}
use real_time_data_platform.Protocol.Header.{FixedHeader}
use real_time_data_platform.Protocol.Frame.{OwnedFrame}
use real_time_data_platform.Protocol.HeaderCodec.RoundTrip.{
  IsWellTyped, leading_chunks, header_packet, length-header_packet, encode_header-header_packet,
}
use real_time_data_platform.Protocol.Extensions.Scan.{Tlvs}
use real_time_data_platform.Serialization.Codec.{FrameCodec, sized_header, write_body, encode}
use real_time_data_platform.Serialization.Codec.Accepted.{IsMessage}
use real_time_data_platform.Wire.{Wire, widths}

module _ (w : Wire) where
  open w use {write_u32, crc32c}

  abbrev pub frame_length : OwnedFrame → ℕ
  frame_length frame = 48 + length frame.extension_bytes + length frame.payload

  -- A frame that the wire format can carry under a configuration.
  pub record IsEncodable (c : FrameCodec) (frame : OwnedFrame) : Type 0 where
    pub well_typed : IsWellTyped frame.header
    pub aligned : (48 + length frame.extension_bytes) % 4 ≡ 0
    pub header_small : 48 + length frame.extension_bytes < 2 ^ 16
    pub payload_small : length frame.payload < 2 ^ 32
    pub fits : frame_length frame ≤ c.max_frame_size
    pub extensions : Tlvs w frame.extension_bytes 0
    pub message : IsMessage w frame.header.message_type frame.payload

  -- The packet of a frame under a given header.
  abbrev pub frame_packet : FixedHeader → OwnedFrame → List ℕ
  frame_packet h frame = header_packet w h (frame.extension_bytes ++ frame.payload)

  -- The header that `encode` writes, its checksum filled in.
  abbrev pub checked_header : OwnedFrame → FixedHeader
  checked_header frame = record (sized_header w frame) {
    checksum = crc32c (frame_packet (sized_header w frame) frame);
  }

  pub length-frame_packet :
      (h : FixedHeader) (frame : OwnedFrame) → length (frame_packet h frame) ≡ frame_length frame
  length-frame_packet h frame = omega (
    arith,
    length-header_packet w h (frame.extension_bytes ++ frame.payload),
    length-append frame.extension_bytes frame.payload,
  )

  -- Overwriting the checksum of a packet.
  pub set_checksum :
      (h : FixedHeader) (tail : List ℕ) (sum : ℕ)
      → write_at 44 (write_u32 sum) (header_packet w h tail)
        ≡ header_packet w (record h { checksum = sum }) tail
  set_checksum h tail sum =
      write_at_chunk (leading_chunks w h) (write_u32 h.checksum) (write_u32 sum) [] tail 44
        (omega widths) (omega widths)

  extensions_written :
      (h ext dst buf : List ℕ)
      → length h ≡ 48
      → buf ≡ h ++ drop 48 dst
      → (if ltb 0 (length ext) then write_at 48 ext buf else buf)
        ≡ concat (h ∷ ext ∷ []) ++ drop (48 + length ext) dst
  extensions_written h [] dst buf lh e = rw (append-nil h) e
  extensions_written h (x ∷ ext) dst buf lh e =
      let more : ltb 0 (suc (length ext)) ≡ true = ground arith in
      rw more (
        write_next (h ∷ []) (x ∷ ext) dst buf 48 (48 + suc (length ext)) (omega arith) refl
          (rw (append-nil h) e))

  body_written :
      (h ext payload dst buf : List ℕ)
      → length h ≡ 48
      → buf ≡ h ++ drop 48 dst
      → write_at (48 + length ext) payload (if ltb 0 (length ext) then write_at 48 ext buf else buf)
        ≡ (h ++ (ext ++ payload)) ++ drop (48 + length ext + length payload) dst
  body_written h ext payload dst buf lh e = rw (append-nil payload) at (
      write_next (h ∷ ext ∷ []) payload dst _ (48 + length ext) _ (omega arith) refl
        (extensions_written h ext dst buf lh e))

  abbrev pub header_bytes : FixedHeader → List ℕ
  header_bytes h = concat (leading_chunks w h ++ write_u32 h.checksum ∷ [])

  pub length-header_bytes : (h : FixedHeader) → length (header_bytes h) ≡ 48
  length-header_bytes h =
      omega (arith, length-header_packet w h [], length-append (header_bytes h) [])

  write_body-frame_packet :
      (frame : OwnedFrame) (h : FixedHeader) (dst buf : List ℕ)
      → buf ≡ header_bytes h ++ drop 48 dst
      → write_body w frame buf
        ≡ frame_packet (record h { checksum = crc32c (frame_packet h frame) }) frame
          ++ drop (frame_length frame) dst
  unfolding write_body
  write_body-frame_packet frame h dst buf e =
      let written =
        body_written (header_bytes h) frame.extension_bytes frame.payload dst buf
          (length-header_bytes h) e in
      let packet = frame_packet h frame in
      let sum = crc32c packet in
      let rest = drop (frame_length frame) dst in
      rw
        (
          written,
          take-append packet rest (frame_length frame) (omega (arith, length-frame_packet h frame)),
          append_assoc (header_bytes h) (frame.extension_bytes ++ frame.payload) rest,
          set_checksum h ((frame.extension_bytes ++ frame.payload) ++ rest) sum,
        )
        (sym (
          append_assoc (header_bytes (record h { checksum = sum }))
            (frame.extension_bytes ++ frame.payload) rest))

  -- A frame that passes the tests of its sizes is written to a destination with room for it, and
  -- the rest of the destination stays.
  pub encode_written :
      (c : FrameCodec) (frame : OwnedFrame) (dst : List ℕ)
      → (48 + length frame.extension_bytes) % 4 ≡ 0
      → frame_length frame ≤ c.max_frame_size
      → frame_length frame ≤ length dst
      → encode w c frame dst ≡ (
        frame_packet (checked_header frame) frame ++ drop (frame_length frame) dst,
        ok (frame_length frame),
      )
  unfolding encode
  encode_written c frame dst whole small room =
      let n = 48 + length frame.extension_bytes in
      let aligned : (n % 4 == 0) ≡ true = ground arith in
      let fits : ltb c.max_frame_size (frame_length frame) ≡ false = ground arith in
      let enough : ltb (length dst) (frame_length frame) ≡ false = ground arith in
      let h = sized_header w frame in
      let head =
        encode_header-header_packet w h (take 48 dst) (omega (arith, length-take 48 dst)) in
      let none_left = drop_all 48 (take 48 dst) (omega (arith, length-take 48 dst)) in
      rw (encode, aligned, fits, enough, head)
        (ap (λ buf. (buf, ok (frame_length frame)))
          (write_body-frame_packet frame h dst _
            (rw (none_left, append-nil (header_bytes h)) refl)))

  pub encode-frame_packet :
      (c : FrameCodec) (frame : OwnedFrame) (dst : List ℕ)
      → IsEncodable c frame
      → frame_length frame ≤ length dst
      → encode w c frame dst ≡ (
        frame_packet (checked_header frame) frame ++ drop (frame_length frame) dst,
        ok (frame_length frame),
      )
  encode-frame_packet c frame dst v room = encode_written c frame dst v.aligned v.fits room
