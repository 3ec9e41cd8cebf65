-- ===== src/Transport/Subscriber.antt =====
-- transports/udp/src/subscriber.rs: the worker of a subscriber. What it gives to the socket and to
-- the channel of delivered frames are lists; the channel itself stands in Transport/Application. The
-- times are arguments.
pub mod Requests
pub mod Responses
pub mod Sources
use real_time_data_platform.Base.{
  ℕ, ◌+◌, Bool, true, false, not, ◌&&◌, ◌||◌, Option, none, some, List, [], ◌∷◌, ◌++◌, map,
  if◌then◌else◌, ◌==◌, leb, length, drop, slice, replicate, max,
}
use real_time_data_platform.Error.{RtdpError, Result, ok, err}
use real_time_data_platform.Protocol.Header.{MessageType}
use real_time_data_platform.Protocol.Frame.{FrameView, OwnedFrame}
use real_time_data_platform.Serialization.Codec.{FrameCodec, decode}
use real_time_data_platform.Recovery.Data.{
  ReplayRequestPayload, RecoveryConfig, RecoveryEngine, default_config,
}
use real_time_data_platform.Recovery.Engine.{
  check_timeouts, handle_replay_response, handle_replay_unavailable,
}
use real_time_data_platform.Recovery.Payloads.{encode_request, decode_unavailable}
use real_time_data_platform.Delivery.Receiver.{
  DeliveryMode, StreamReceiver, Delivery, new_receiver, process_data_frame,
}
use real_time_data_platform.Transport.Publisher.{attempt, control_header}
use real_time_data_platform.Wire.{Wire}

-- `view.header.message_type != MessageType::ReplayUnavailable`, negated
abbrev pub is_replay_unavailable : MessageType → Bool
is_replay_unavailable MessageType.replay_unavailable = true
is_replay_unavailable _ = false

-- The frame of a DATA packet.
unfoldable pub owned : FrameView → OwnedFrame
owned view = record {
  header = view.header;
  extension_bytes = view.extension_bytes;
  payload = view.payload;
}

-- The frame that a REPLAY_RESPONSE restores.
unfoldable pub recovered_frame : FrameView → OwnedFrame
recovered_frame view = record {
  header = record (view.header) { message_type = MessageType.data_message };
  extension_bytes = view.extension_bytes;
  payload = drop 8 view.payload;
}

-- The loop over the drained frames.
unfoldable pub raise_highest : ℕ → List OwnedFrame → ℕ
raise_highest highest [] = highest
raise_highest highest (f ∷ fs) = raise_highest (max highest f.header.sequence) fs

-- `std::net::SocketAddr`: the bits of the IP address, and the port.
abbrev pub SocketAddr : Type 0
SocketAddr = ℕ × ℕ

-- What the socket has for the worker: a packet, cut to the frame size, and its sender; nothing in
-- time; or an error.
pub data Arrival : Type 0 where
  packet : SocketAddr → List ℕ → Arrival
  nothing : Arrival
  broken : Arrival

-- What a turn gives to the socket, and to the channel of delivered frames.
pub record Output : Type 0 where
  pub sent : List (SocketAddr × List ℕ)
  pub offered : List OwnedFrame

abbrev pub silent : Output
silent = record { sent = []; offered = [] }

pub record Worker : Type 0 where
  pub stream_rx : StreamReceiver
  pub codec : FrameCodec
  pub stream_id : ℕ
  pub publisher_addr : SocketAddr

unfoldable pub new_worker : ℕ → DeliveryMode → RecoveryConfig → ℕ → SocketAddr → Worker
new_worker stream_id mode recovery_config max_frame_size publisher_addr = record {
  stream_rx = new_receiver stream_id mode recovery_config;
  codec = record { max_frame_size = max_frame_size; validate_checksum = true };
  stream_id = stream_id;
  publisher_addr = publisher_addr;
}

-- The configuration without the address of the socket.
pub record UdpSubscriberConfig : Type 0 where
  pub publisher_addr : SocketAddr
  pub stream_id : ℕ
  pub mode : DeliveryMode
  pub recovery_config : RecoveryConfig
  pub max_frame_size : ℕ
  pub channel_capacity : ℕ

-- 127.0.0.1:9875
abbrev pub default_publisher_addr : SocketAddr
default_publisher_addr = (0x7f000001, 9_875)

unfoldable pub default_subscriber_config : UdpSubscriberConfig
default_subscriber_config = record {
  publisher_addr = default_publisher_addr;
  stream_id = 1;
  mode = DeliveryMode.reliable_ordered;
  recovery_config = default_config;
  max_frame_size = 1_472;
  channel_capacity = 10_000;
}

-- The worker that `UdpSubscriber::new` starts, when the socket opens.
unfoldable pub new_subscriber : UdpSubscriberConfig → Worker
unfolding new_worker
new_subscriber config =
    new_worker config.stream_id config.mode config.recovery_config config.max_frame_size
      config.publisher_addr

module _ (w : Wire) where
  open w use {read_u64}

  -- The 24 bytes of `req.encode`, whose error is dropped.
  unfoldable pub request_bytes : ReplayRequestPayload → List ℕ
  request_bytes req = elim (encode_request w req (replicate 24 0)) [
    | ok bytes ↦ bytes
    | err e ↦ replicate 24 0
  ]

  unfoldable pub request_frame : ℕ → ReplayRequestPayload → OwnedFrame
  unfolding request_bytes control_header
  request_frame stream_id req = record {
    header = control_header MessageType.replay_request stream_id 0 0 0 24;
    extension_bytes = [];
    payload = request_bytes req;
  }

  unfoldable pub send_replay_request :
      FrameCodec → SocketAddr → ℕ → ReplayRequestPayload → List (SocketAddr × List ℕ)
  send_replay_request codec target stream_id req =
      map (λ p. (target, p)) (attempt w codec (request_frame stream_id req))

  unfoldable pub send_retries : Worker → List ReplayRequestPayload → List (SocketAddr × List ℕ)
  send_retries k [] = []
  send_retries k (retry ∷ retries) =
      send_replay_request k.codec k.publisher_addr k.stream_id retry ++ send_retries k retries

  -- 1. The timeouts of the requests.
  unfoldable pub on_timeouts : Worker → ℕ → Worker × Output
  on_timeouts k now =
      let (engine, answer) = check_timeouts k.stream_rx.recovery now in
      let k' = record k { stream_rx = record (k.stream_rx) { recovery = engine } } in
      elim answer [
        | ok retries ↦ (k', record { sent = send_retries k retries; offered = [] })
        | err e ↦ (k', silent)
      ]

  -- The request that a DATA frame leads to.
  unfoldable pub send_optional :
      Worker → SocketAddr → Option ReplayRequestPayload → List (SocketAddr × List ℕ)
  send_optional k peer none = []
  send_optional k peer (some req) = send_replay_request k.codec peer k.stream_id req

  -- The arm `MessageType::Data`.
  unfoldable pub on_data : Worker → SocketAddr → FrameView → ℕ → Worker × Output
  unfolding owned
  on_data k peer view now =
      let (receiver, answer) = process_data_frame k.stream_rx (owned view) now in
      let k' = record k { stream_rx = receiver } in
      elim answer [
        | ok (to_deliver, maybe_replay) ↦
            (k', record { sent = send_optional k peer maybe_replay; offered = to_deliver })
        | err e ↦ (k', silent)
      ]

  -- What follows the call of `handle_replay_response`.
  unfoldable pub on_drained :
      Worker → RecoveryEngine × Result (Option (List OwnedFrame)) RtdpError → Worker × Output
  unfolding raise_highest
  on_drained k (engine, ok (some drained)) = (
    record k {
      stream_rx = record (k.stream_rx) {
        recovery = engine;
        highest_delivered_sequence = raise_highest k.stream_rx.highest_delivered_sequence drained;
      };
    },
    record { sent = []; offered = drained },
  )
  on_drained k (engine, ok none) =
      (record k { stream_rx = record (k.stream_rx) { recovery = engine } }, silent)
  on_drained k (engine, err e) =
      (record k { stream_rx = record (k.stream_rx) { recovery = engine } }, silent)

  -- The arm `MessageType::ReplayResponse`.
  unfoldable pub on_response : Worker → FrameView → Worker × Output
  unfolding recovered_frame on_drained
  on_response k view =
      if leb 8 (length view.payload)
      then on_drained k (
          handle_replay_response k.stream_rx.recovery (read_u64 (slice 0 8 view.payload))
            (recovered_frame view))
      else (k, silent)

  -- The arm `MessageType::ReplayUnavailable`.
  unfoldable pub on_unavailable : Worker → FrameView → Worker × Output
  on_unavailable k view = elim (decode_unavailable w view.payload) [
    | ok unavail ↦ (
      record k {
        stream_rx = record (k.stream_rx) {
          recovery = (handle_replay_unavailable k.stream_rx.recovery unavail).0;
        };
      },
      silent,
    )
    | err e ↦ (k, silent)
  ]

  -- The `match view.header.message_type`.
  unfoldable pub on_message : MessageType → Worker → SocketAddr → FrameView → ℕ → Worker × Output
  unfolding on_data on_response on_unavailable
  on_message MessageType.data_message k peer view now = on_data k peer view now
  on_message MessageType.replay_response k peer view now = on_response k view
  on_message MessageType.replay_unavailable k peer view now = on_unavailable k view
  on_message _ k peer view now = (k, silent)

  unfoldable pub on_view : Worker → SocketAddr → FrameView → ℕ → Worker × Output
  unfolding on_message
  on_view k peer view now =
      if not (view.header.stream_id == k.stream_id)
        && not (is_replay_unavailable view.header.message_type)
      then (k, silent)
      else on_message view.header.message_type k peer view now

  unfoldable pub on_packet : Worker → SocketAddr → List ℕ → ℕ → Worker × Output
  unfolding on_view
  on_packet k peer bytes now = elim (decode w k.codec bytes).1 [
    | ok view ↦ on_view k peer view now
    | err e ↦ (k, silent)
  ]

  -- 2. What the socket has; `false` leaves the loop.
  unfoldable pub on_arrival : Worker → Arrival → ℕ → Worker × Output × Bool
  unfolding on_packet
  on_arrival k (packet peer bytes) now =
      let (k', output) = on_packet k peer bytes now in (k', output, true)
  on_arrival k nothing now = (k, silent, true)
  on_arrival k broken now = (k, silent, false)

  -- One round of the loop: `checked` is the time of the first part, `now` that of the second.
  unfoldable pub turn : Worker → ℕ → Arrival → ℕ → Worker × Output × Bool
  unfolding on_timeouts on_arrival
  turn k checked arrival now =
      let (k', first) = on_timeouts k checked in
      let (k'', second, more) = on_arrival k' arrival now in
      (
        k'',
        record { sent = first.sent ++ second.sent; offered = first.offered ++ second.offered },
        more,
      )
