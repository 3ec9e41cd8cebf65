-- ===== src/Transport/Subscriber/Requests.antt =====
-- The replay requests between a subscriber and a publisher (transports/udp/src).
use real_time_data_platform.Base.{
  ℕ, ◌^◌, ◌≤◌, ◌<◌, ◌≡◌, refl, false, List, [], ◌∷◌, arith, length, replicate, ltb,
}
use real_time_data_platform.Error.{ok}
use real_time_data_platform.Protocol.Header.{MessageType, message_from_u16, message_as_u16}
use real_time_data_platform.Protocol.Frame.{FrameView}
use real_time_data_platform.Protocol.HeaderCodec.RoundTrip.{IsWellTyped}
use real_time_data_platform.Protocol.Extensions.Scan.{done}
use real_time_data_platform.Serialization.Codec.{FrameCodec}
use real_time_data_platform.Serialization.Codec.RoundTrip.{IsEncodable}
use real_time_data_platform.Serialization.Codec.Decoded.{decoded_frame}
use real_time_data_platform.Buffers.Ring.{RingBuffer}
use real_time_data_platform.Recovery.Data.{ReplayRequestPayload}
use real_time_data_platform.Recovery.Payloads.{
  write_three, encode_request, decode_request, length-write_three_exact, read_second, read_third,
  decode_request-encode_request,
}
use real_time_data_platform.Transport.Publisher.{
  control_header, handle_replay_request, on_frame, on_packet,
}
use real_time_data_platform.Transport.Publisher.Replay.{attempt-decoded}
use real_time_data_platform.Transport.Subscriber.{
  SocketAddr, request_bytes, request_frame, send_replay_request,
}
use real_time_data_platform.Wire.{Wire}

-- Some types of messages come back from their numbers.
abbrev pub IsNumbered : MessageType → Type 0
IsNumbered type =
    (message_from_u16 (message_as_u16 type) ≡ ok type) × (message_as_u16 type < 2 ^ 16)

pub control_header-IsWellTyped :
    (type : MessageType) (stream_id sequence timestamp_ns publisher_id payload_length : ℕ)
    → IsNumbered type
    → stream_id < 2 ^ 64
    → sequence < 2 ^ 64
    → timestamp_ns < 2 ^ 64
    → publisher_id < 2 ^ 64
    → payload_length < 2 ^ 32
    → IsWellTyped (control_header type stream_id sequence timestamp_ns publisher_id payload_length)
unfolding control_header
control_header-IsWellTyped type s q t p n (back, small) hs hq ht hp hn = record {
  is_rtdp = refl;
  is_version_1 = refl;
  message = back;
  message_small = small;
  header_length_small = omega arith;
  stream_id_small = hs;
  sequence_small = hq;
  timestamp_small = ht;
  publisher_id_small = hp;
  payload_length_small = hn;
  checksum_small = omega arith;
}

module _ (w : Wire) where
  open w use {write_u64, read_u64}

  length-zeros : length (replicate {A = ℕ} 24 0) ≡ 24
  length-zeros = refl

  request_bytes-write_three :
      (req : ReplayRequestPayload)
      → request_bytes w req
        ≡ write_three w req.request_id req.from_sequence req.to_sequence (replicate 24 0)
  unfolding request_bytes encode_request
  request_bytes-write_three req = refl

  pub request_frame-IsEncodable :
      (c : FrameCodec) (stream_id : ℕ) (req : ReplayRequestPayload)
      → stream_id < 2 ^ 64
      → req.from_sequence < 2 ^ 64
      → req.to_sequence < 2 ^ 64
      → req.from_sequence ≤ req.to_sequence
      → 72 ≤ c.max_frame_size
      → IsEncodable w c (request_frame w stream_id req)
  unfolding request_frame message_from_u16 message_as_u16 control_header
  request_frame-IsEncodable c stream_id req hs hf ht ordered room =
      let a = req.request_id in
      let from = req.from_sequence in
      let to = req.to_sequence in
      let bytes = request_bytes-write_three req in
      let long = length-write_three_exact w a from to (replicate 24 0) refl in
      let long' : length (request_bytes w req) ≡ 24 = rw bytes long in
      record {
        well_typed =
            control_header-IsWellTyped MessageType.replay_request stream_id 0 0 0 24
              (refl, omega arith) hs (omega arith) (omega arith) (omega arith) (omega arith);
        aligned = refl;
        header_small = omega arith;
        payload_small = omega arith;
        fits = omega arith;
        extensions = done (omega arith);
        message = (
          long',
          rw
              (
                bytes,
                read_second w a from to (replicate 24 0) hf,
                read_third w a from to (replicate 24 0) ht,
              )
              ordered,
        );
      }

  decode_request-request_bytes :
      (req : ReplayRequestPayload)
      → req.request_id < 2 ^ 64
      → req.from_sequence < 2 ^ 64
      → req.to_sequence < 2 ^ 64
      → req.from_sequence ≤ req.to_sequence
      → decode_request w (request_bytes w req) ≡ ok req
  unfolding encode_request request_bytes
  decode_request-request_bytes req hi hf ht ordered =
      let in_order : ltb req.to_sequence req.from_sequence ≡ false = ground arith in
      rw in_order at (decode_request-encode_request w req (replicate 24 0) hi hf ht (omega arith))

  on_frame-request :
      (c : FrameCodec) (ring : RingBuffer) (own_stream publisher_id : ℕ)
      (req : ReplayRequestPayload) (view : FrameView)
      → view.header.message_type ≡ MessageType.replay_request
      → decode_request w view.payload ≡ ok req
      → on_frame w c ring own_stream publisher_id view
        ≡ handle_replay_request w c ring own_stream publisher_id req
  unfolding on_frame
  on_frame-request c ring own_stream publisher_id req view is_request decoded =
      rw (on_frame, is_request, decoded) refl

  -- A replay request that a subscriber sends, its values of 64 bits and its range in order, is one
  -- packet, if a frame of 72 bytes is allowed; and the publisher that receives it answers just
  -- that request from its ring.
  pub on_packet-send_replay_request :
      (c : FrameCodec) (target : SocketAddr) (stream_id : ℕ) (req : ReplayRequestPayload)
      (ring : RingBuffer) (own_stream publisher_id : ℕ)
      → stream_id < 2 ^ 64
      → req.request_id < 2 ^ 64
      → req.from_sequence < 2 ^ 64
      → req.to_sequence < 2 ^ 64
      → req.from_sequence ≤ req.to_sequence
      → 72 ≤ c.max_frame_size
      → (packet : List ℕ) × (send_replay_request w c target stream_id req ≡ (target, packet) ∷ [])
        × (on_packet w c ring own_stream publisher_id packet
            ≡ handle_replay_request w c ring own_stream publisher_id req)
  unfolding send_replay_request on_packet on_frame
  on_packet-send_replay_request c target stream_id req ring own_stream publisher_id hs hi hf ht
        ordered room =
      let v = request_frame-IsEncodable c stream_id req hs hf ht ordered room in
      let long : length (request_bytes w req) ≡ 24 = rw (request_bytes-write_three req) (
        length-write_three_exact w req.request_id req.from_sequence req.to_sequence (replicate 24 0)
          refl) in
      let (packet, sent, decoded) =
        attempt-decoded w c (request_frame w stream_id req) v
          (unfold request_frame in omega arith) in
      (
        packet,
        rw (send_replay_request, sent) refl,
        rw (on_packet, decoded)
            (on_frame-request c ring own_stream publisher_id req
              (decoded_frame w c (request_frame w stream_id req) v)
              (unfold request_frame control_header in refl)
              (unfold request_frame in decode_request-request_bytes req hi hf ht ordered)),
      )
