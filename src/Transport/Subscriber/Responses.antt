-- ===== src/Transport/Subscriber/Responses.antt =====
-- The replay responses between a publisher and a subscriber (transports/udp/src).
use real_time_data_platform.Base.{
  ℕ, ◌+◌, ◌^◌, ◌≤◌, ◌<◌, ◌≡◌, refl, sym, true, List, [], ◌∷◌, arith, length, slice, take-append,
  drop-append, length-append, leb, ◌==◌,
}
use real_time_data_platform.Protocol.Header.{MessageType, message_from_u16, message_as_u16}
use real_time_data_platform.Protocol.Frame.{FrameView, OwnedFrame}
use real_time_data_platform.Protocol.HeaderCodec.RoundTrip.{IsWellTyped}
use real_time_data_platform.Protocol.Extensions.Scan.{done}
use real_time_data_platform.Serialization.Codec.{FrameCodec}
use real_time_data_platform.Serialization.Codec.RoundTrip.{IsEncodable}
use real_time_data_platform.Serialization.Codec.Decoded.{decoded_frame}
use real_time_data_platform.Recovery.Data.{ReplayRequestPayload}
use real_time_data_platform.Recovery.Engine.{handle_replay_response}
use real_time_data_platform.Transport.Publisher.{attempt, control_header, response_frame}
use real_time_data_platform.Transport.Publisher.Replay.{attempt-decoded}
use real_time_data_platform.Transport.Subscriber.{
  SocketAddr, Worker, Output, request_bytes, request_frame, send_replay_request, recovered_frame,
  on_response, on_drained, on_message, on_view,
}
use real_time_data_platform.Transport.Subscriber as Subscriber
use real_time_data_platform.Wire.{Wire, widths}
use real_time_data_platform.Transport.Subscriber.Requests.{control_header-IsWellTyped}

-- Two frames with the same contents: the lengths and the checksum aside.
pub record SameContents (f g : OwnedFrame) : Type 0 where
  pub message_type : f.header.message_type ≡ g.header.message_type
  pub stream_id : f.header.stream_id ≡ g.header.stream_id
  pub sequence : f.header.sequence ≡ g.header.sequence
  pub timestamp_ns : f.header.timestamp_ns ≡ g.header.timestamp_ns
  pub publisher_id : f.header.publisher_id ≡ g.header.publisher_id
  pub extensions : f.extension_bytes ≡ g.extension_bytes
  pub payload : f.payload ≡ g.payload

module _ (w : Wire) where
  open w use {write_u64, read_u64}

  pub response_frame-IsEncodable :
      (c : FrameCodec) (req : ReplayRequestPayload) (original : OwnedFrame)
      → IsWellTyped original.header
      → 56 + length original.payload ≤ c.max_frame_size
      → c.max_frame_size < 2 ^ 32
      → IsEncodable w c (response_frame w req original)
  unfolding response_frame message_from_u16 message_as_u16 control_header
  response_frame-IsEncodable c req original t room small =
      let h = original.header in
      let long = length-append (write_u64 req.request_id) original.payload in
      record {
        well_typed =
            control_header-IsWellTyped MessageType.replay_response h.stream_id h.sequence
              h.timestamp_ns h.publisher_id _ (refl, omega arith) t.stream_id_small t.sequence_small
              t.timestamp_small t.publisher_id_small (omega arith);
        aligned = refl;
        header_small = omega arith;
        payload_small = omega (widths, long);
        fits = omega (widths, long);
        extensions = done (omega arith);
        message = omega (widths, long);
      }

  -- What the subscriber restores from a response to a request for a data frame.
  pub recovered-SameContents :
      (c : FrameCodec) (req : ReplayRequestPayload) (original : OwnedFrame)
      (v : IsEncodable w c (response_frame w req original))
      → original.header.message_type ≡ MessageType.data_message
      → original.extension_bytes ≡ []
      → SameContents
          (recovered_frame (decoded_frame w c (response_frame w req original) v))
          original
  unfolding recovered_frame response_frame control_header
  recovered-SameContents c req original v is_data none_extended = record {
    message_type = sym is_data;
    stream_id = refl;
    sequence = refl;
    timestamp_ns = refl;
    publisher_id = refl;
    extensions = sym none_extended;
    payload = drop-append (write_u64 req.request_id) original.payload 8 (omega widths);
  }

  response_id :
      (req : ReplayRequestPayload) (original : OwnedFrame)
      → req.request_id < 2 ^ 64
      → read_u64 (slice 0 8 (response_frame w req original).payload) ≡ req.request_id
  unfolding response_frame
  response_id req original h =
      rw (take-append (write_u64 req.request_id) original.payload 8 (omega widths))
        (w.read-write_u64 req.request_id h)

  on_view-response :
      (k : Worker) (peer : SocketAddr) (view : FrameView) (now id : ℕ)
      → view.header.message_type ≡ MessageType.replay_response
      → view.header.stream_id ≡ k.stream_id
      → 8 ≤ length view.payload
      → read_u64 (slice 0 8 view.payload) ≡ id
      → on_view w k peer view now
        ≡ on_drained w k (handle_replay_response k.stream_rx.recovery id (recovered_frame view))
  unfolding on_view on_message on_response
  on_view-response k peer view now id is_response own long read =
      let enough : leb 8 (length view.payload) ≡ true = ground arith in
      let same : (view.header.stream_id == k.stream_id) ≡ true = ground arith in
      rw (on_view, same, is_response, on_message, enough, read) refl

  -- The response of a publisher to a request for a data frame without extensions, 56 bytes below
  -- the maximum of at most 1500 or less, is one packet; and the subscriber of the stream that
  -- receives it hands to its recovery engine, under the id of the request, a frame with the
  -- contents of the published one.
  pub on_packet-response_frame :
      (k : Worker) (peer : SocketAddr) (now : ℕ) (req : ReplayRequestPayload)
      (original : OwnedFrame)
      → IsWellTyped original.header
      → original.header.message_type ≡ MessageType.data_message
      → original.extension_bytes ≡ []
      → original.header.stream_id ≡ k.stream_id
      → req.request_id < 2 ^ 64
      → 56 + length original.payload ≤ k.codec.max_frame_size
      → k.codec.max_frame_size ≤ 1500
      → (packet : List ℕ) × (restored : OwnedFrame) × (attempt w k.codec
            (response_frame w req original)
          ≡ packet ∷ [])
        × SameContents restored original
        × (Subscriber.on_packet w k peer packet now
            ≡ on_drained w k (handle_replay_response k.stream_rx.recovery req.request_id restored))
  unfolding Subscriber.on_packet
  on_packet-response_frame k peer now req original t is_data plain own hi room small =
      let c = k.codec in
      let v = response_frame-IsEncodable c req original t room (omega arith) in
      let view = decoded_frame w c (response_frame w req original) v in
      let long = length-append (write_u64 req.request_id) original.payload in
      let (packet, sent, decoded) =
        attempt-decoded w c (response_frame w req original) v
          (unfold response_frame in omega (widths, long)) in
      (
        packet,
        recovered_frame view,
        sent,
        recovered-SameContents c req original v is_data plain,
        rw (Subscriber.on_packet, decoded)
            (on_view-response k peer view now req.request_id
              (unfold response_frame control_header in refl)
              (unfold response_frame control_header in own)
              (unfold response_frame in omega (widths, long))
              (unfold response_frame in response_id req original hi)),
      )
