-- ===== src/Transport/Publisher.antt =====
-- transports/udp/src/publisher.rs: a publisher, and its answers to replay requests. What goes to
-- the socket is a list of packets. Whether the socket takes a packet is the argument `taken`, and
-- the time is the argument `now_ns`. The addresses and the receive timeout are left out; the replay
-- thread is its answer to a packet, `on_packet`.
pub mod Replay
pub mod Opened
use real_time_data_platform.Base.{
  ℕ, ◌+◌, ◌%◌, ◌^◌, Bool, true, false, Option, none, some, List, [], ◌∷◌, ◌++◌, if◌then◌else◌,
  inc64, length, take, replicate,
}
use real_time_data_platform.Error.{ErrorCode, RtdpError, Result, ok, err}
use real_time_data_platform.Protocol.Header.{
  FixedHeader, MessageType, fixed_header_size, magic_rtdp, rtdp_version_1,
}
use real_time_data_platform.Protocol.Frame.{FrameView, OwnedFrame, new_data_frame}
use real_time_data_platform.Serialization.Codec.{FrameCodec, encode, decode}
use real_time_data_platform.Buffers.Ring.{RingBuffer, RangeError, new_ring, push, get_range, clear}
use real_time_data_platform.Recovery.Data.{ReplayRequestPayload, ReplayUnavailablePayload}
use real_time_data_platform.Recovery.Payloads.{encode_unavailable, decode_request}
use real_time_data_platform.Wire.{Wire}

pub record Publisher : Type 0 where
  pub stream_id : ℕ
  pub publisher_id : ℕ
  pub max_frame_size : ℕ
  pub codec : FrameCodec
  pub ring_buffer : RingBuffer
  pub sequence_counter : ℕ

-- The fields of the configuration that are not about the socket.
pub record UdpPublisherConfig : Type 0 where
  pub stream_id : ℕ
  pub publisher_id : ℕ
  pub ring_buffer_capacity : ℕ
  pub max_frame_size : ℕ

unfoldable pub default_publisher_config : UdpPublisherConfig
default_publisher_config = record {
  stream_id = 1;
  publisher_id = 100;
  ring_buffer_capacity = 10_000;
  max_frame_size = 1_472;
}

-- `UdpPublisher::new`, when the socket opens. `none` is the failed assertion of the ring.
unfoldable pub new_publisher : UdpPublisherConfig → Option Publisher
new_publisher config = elim (new_ring config.ring_buffer_capacity) [
  | none ↦ none
  | some ring_buffer ↦ some (record {
    stream_id = config.stream_id;
    publisher_id = config.publisher_id;
    max_frame_size = config.max_frame_size;
    codec = record { max_frame_size = config.max_frame_size; validate_checksum = true };
    ring_buffer = ring_buffer;
    sequence_counter = 1;
  })
]

unfoldable pub store_in_ring_only : Publisher → OwnedFrame → Publisher
store_in_ring_only p frame = record p { ring_buffer = push p.ring_buffer frame }

unfoldable pub restart_with_new_publisher_id : Publisher → ℕ → Publisher
restart_with_new_publisher_id p new_publisher_id = record p {
  publisher_id = new_publisher_id;
  sequence_counter = 1;
  ring_buffer = clear p.ring_buffer;
}

-- The frame that `publish` stores and sends.
unfoldable pub next_frame : Publisher → ℕ → List ℕ → OwnedFrame
next_frame p now_ns payload =
    new_data_frame p.stream_id p.sequence_counter now_ns p.publisher_id payload

-- The header of a control frame.
unfoldable pub control_header : MessageType → ℕ → ℕ → ℕ → ℕ → ℕ → FixedHeader
control_header message_type stream_id sequence timestamp_ns publisher_id payload_length = record {
  magic = magic_rtdp;
  version = rtdp_version_1;
  flags = 0;
  message_type = message_type;
  header_length = fixed_header_size;
  stream_id = stream_id;
  sequence = sequence;
  timestamp_ns = timestamp_ns;
  publisher_id = publisher_id;
  payload_length = payload_length;
  checksum = 0;
}

-- `view.header.message_type == MessageType::ReplayRequest`
abbrev pub is_replay_request : MessageType → Bool
is_replay_request MessageType.replay_request = true
is_replay_request _ = false

module _ (w : Wire) where
  open w use {write_u64}

  -- `codec.encode` into a buffer of zeros, and the packet for the socket.
  unfoldable pub encoded : FrameCodec → OwnedFrame → ℕ → Result (List ℕ) RtdpError
  encoded codec frame size =
      let (dst, answer) = encode w codec frame (replicate size 0) in
      elim answer [ ok len ↦ ok (take len dst) | err e ↦ err e ]

  -- Encode and send: the packets that went to the socket, and the length of the packet.
  unfoldable pub send : Result (List ℕ) RtdpError → Bool → List (List ℕ) × Result ℕ RtdpError
  send (err e) taken = ([], err e)
  send (ok packet) true = (packet ∷ [], ok (length packet))
  send (ok packet) false = ([], err RtdpError.io)

  unfoldable pub publish :
      Publisher → ℕ → List ℕ → Bool → Publisher × List (List ℕ) × Result ℕ RtdpError
  unfolding send
  publish p now_ns payload taken =
      let seq = p.sequence_counter in
      let frame = next_frame p now_ns payload in
      let p' = record p { sequence_counter = inc64 seq; ring_buffer = push p.ring_buffer frame } in
      let (packets, answer) = send (encoded p.codec frame p.max_frame_size) taken in
      elim answer [ ok len ↦ (p', packets, ok seq) | err e ↦ (p', packets, err e) ]

  unfoldable pub publish_frame :
      Publisher → OwnedFrame → Bool → Bool → Publisher × List (List ℕ) × Result ℕ RtdpError
  publish_frame p frame store_in_ring taken =
      let p' = if store_in_ring then record p { ring_buffer = push p.ring_buffer frame } else p in
      let (packets, answer) = send (encoded p.codec frame p.max_frame_size) taken in
      (p', packets, answer)

  -- A REPLAY_RESPONSE: the id of the request before the payload of the stored frame.
  unfoldable pub response_frame : ReplayRequestPayload → OwnedFrame → OwnedFrame
  unfolding control_header
  response_frame req original =
      let resp_payload = write_u64 req.request_id ++ original.payload in
      let h = original.header in
      record {
        header =
            control_header MessageType.replay_response h.stream_id h.sequence h.timestamp_ns
              h.publisher_id (length resp_payload % 2 ^ 32);
        extension_bytes = [];
        payload = resp_payload;
      }

  -- The 24 bytes of `payload.encode`, whose error is dropped.
  unfoldable pub unavailable_bytes : ReplayUnavailablePayload → List ℕ
  unavailable_bytes payload = elim (encode_unavailable w payload (replicate 24 0)) [
    | ok bytes ↦ bytes
    | err e ↦ replicate 24 0
  ]

  unfoldable pub unavailable_frame : ℕ → ℕ → ReplayUnavailablePayload → OwnedFrame
  unfolding control_header unavailable_bytes
  unavailable_frame stream_id publisher_id payload = record {
    header = control_header MessageType.replay_unavailable stream_id 0 0 publisher_id 24;
    extension_bytes = [];
    payload = unavailable_bytes payload;
  }

  -- `if let Ok(len) = codec.encode(..)`, into a buffer of 1500 bytes.
  unfoldable pub attempt : FrameCodec → OwnedFrame → List (List ℕ)
  attempt codec frame = elim (encoded codec frame 1500) [ ok packet ↦ packet ∷ [] | err e ↦ [] ]

  unfoldable pub send_responses :
      FrameCodec → ReplayRequestPayload → List OwnedFrame → List (List ℕ)
  send_responses codec req [] = []
  send_responses codec req (frame ∷ frames) =
      attempt codec (response_frame req frame) ++ send_responses codec req frames

  -- The two arms of `match frames_res`.
  unfoldable pub answer_range :
      FrameCodec
      → ℕ
      → ℕ
      → ReplayRequestPayload
      → Result (List OwnedFrame) RangeError
      → List (List ℕ)
  answer_range codec stream_id publisher_id req (ok frames) = send_responses codec req frames
  answer_range codec stream_id publisher_id req (err (code, first_unavail, last_unavail)) =
      attempt codec (
        unavailable_frame stream_id publisher_id (record {
          request_id = req.request_id;
          first_unavailable = first_unavail;
          last_unavailable = last_unavail;
        }))

  -- The packets that go to the peer.
  unfoldable pub handle_replay_request :
      FrameCodec → RingBuffer → ℕ → ℕ → ReplayRequestPayload → List (List ℕ)
  handle_replay_request codec ring stream_id publisher_id req =
      answer_range codec stream_id publisher_id req
        (get_range ring req.from_sequence req.to_sequence)

  -- What the replay thread does with a decoded packet.
  unfoldable pub on_frame : FrameCodec → RingBuffer → ℕ → ℕ → FrameView → List (List ℕ)
  on_frame codec ring stream_id publisher_id view =
      if is_replay_request view.header.message_type
      then (elim (decode_request w view.payload) [
        | ok req ↦ handle_replay_request codec ring stream_id publisher_id req
        | err e ↦ []
      ])
      else []

  -- The body of the replay thread's loop, for a packet that was received.
  unfoldable pub on_packet : FrameCodec → RingBuffer → ℕ → ℕ → List ℕ → List (List ℕ)
  on_packet codec ring stream_id publisher_id packet = elim (decode w codec packet).1 [
    | ok view ↦ on_frame codec ring stream_id publisher_id view
    | err e ↦ []
  ]
