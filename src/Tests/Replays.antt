-- ===== src/Tests/Replays.antt =====
-- The replay messages, the modes and the encoder at concrete inputs.
use real_time_data_platform.Base.{
  ℕ, ◌≡◌, ◌⊎◌, refl, some, List, [], ◌∷◌, ◌++◌, arith, length, take, drop, replicate,
}
use real_time_data_platform.Error.{ErrorCode, RtdpError, ok, err}
use real_time_data_platform.Protocol.Header.{new_data_header, message_from_u16, message_as_u16}
use real_time_data_platform.Protocol.HeaderCodec.RoundTrip.{IsWellTyped}
use real_time_data_platform.Protocol.Frame.{OwnedFrame, new_data_frame}
use real_time_data_platform.Protocol.Extensions.{
  HeaderExtension, encode_extension, wire_len, new_iterator, is_critical_type, next,
}
use real_time_data_platform.Protocol.Extensions.RoundTrip.{next-encode_extension}
use real_time_data_platform.Serialization.Codec.{
  default_codec_config, encode, decode, validate, check_preamble,
}
use real_time_data_platform.Serialization.Codec.Decoded.{decoded_frame}
use real_time_data_platform.Serialization.Codec.Encoded.{Fits, encode-IsBounded}
use real_time_data_platform.Serialization.Codec.Canonical.{frame_of, encode-decode}
use real_time_data_platform.Recovery.Data.{default_config, ReplayRequestPayload}
use real_time_data_platform.Recovery.Engine.{handle_replay_response}
use real_time_data_platform.Delivery.Receiver.{
  DeliveryMode, StreamReceiver, new_receiver, process_data_frame,
}
use real_time_data_platform.Sequence.Tracker.{observe}
use real_time_data_platform.Delivery.Receiver.Every.{IsDelivered, process_data_frame-IsDelivered}
use real_time_data_platform.Transport.Publisher.{
  attempt, response_frame, handle_replay_request, on_packet,
}
use real_time_data_platform.Transport.Subscriber.{
  Worker, new_worker, send_replay_request, on_drained,
}
use real_time_data_platform.Transport.Subscriber as Subscriber
use real_time_data_platform.Transport.Subscriber.Requests.{on_packet-send_replay_request}
use real_time_data_platform.Transport.Subscriber.Responses.{SameContents, on_packet-response_frame}
use real_time_data_platform.Tests.Bytes.{big_endian}
use real_time_data_platform.Tests.Frames.{
  request, request_packet, request_packet-AllBytes, request-IsEncodable, request_decoded,
}
use real_time_data_platform.Tests.Publishing.{empty_ring}

abbrev asked : ReplayRequestPayload
asked = record { request_id = 1; from_sequence = 2; to_sequence = 3 }

on_packet-send_replay_request_example :
    (packet : List ℕ) × (send_replay_request big_endian default_codec_config (0, 9875) 1 asked
      ≡ ((0, 9875), packet) ∷ [])
    × (on_packet big_endian default_codec_config empty_ring 1 100 packet
        ≡ handle_replay_request big_endian default_codec_config empty_ring 1 100 asked)
on_packet-send_replay_request_example =
    on_packet-send_replay_request big_endian default_codec_config (0, 9875) 1 asked empty_ring 1 100
      (omega arith) (omega arith) (omega arith) (omega arith) (omega arith) (omega arith)

abbrev worker : Worker
worker = new_worker 1 DeliveryMode.reliable_ordered default_config 1472 (0, 9875)

-- The second frame of a stream.
abbrev original : OwnedFrame
original = new_data_frame 1 2 0 100 (42 ∷ [])

original-IsWellTyped : IsWellTyped original.header
unfolding new_data_frame new_data_header message_from_u16 message_as_u16
original-IsWellTyped = record {
  is_rtdp = refl;
  is_version_1 = refl;
  message = refl;
  message_small = omega arith;
  header_length_small = omega arith;
  stream_id_small = omega arith;
  sequence_small = omega arith;
  timestamp_small = omega arith;
  publisher_id_small = omega arith;
  payload_length_small = omega arith;
  checksum_small = omega arith;
}

on_packet-response_frame_example :
    (packet : List ℕ) × (restored : OwnedFrame) × (attempt big_endian worker.codec
        (response_frame big_endian asked original)
      ≡ packet ∷ [])
    × SameContents restored original
    × (Subscriber.on_packet big_endian worker (0, 9875) packet 5
        ≡ on_drained big_endian worker
            (handle_replay_response worker.stream_rx.recovery 1 restored))
unfolding new_data_frame new_data_header new_worker new_receiver
on_packet-response_frame_example =
    on_packet-response_frame big_endian worker (0, 9875) 5 asked original original-IsWellTyped refl
      refl refl (omega arith) (omega arith) (omega arith)

abbrev receiver : StreamReceiver
receiver = new_receiver 1 DeliveryMode.at_least_once default_config

process_data_frame-IsDelivered_example :
    IsDelivered DeliveryMode.at_least_once
      (observe receiver.tracker original.header.publisher_id original.header.sequence).1
      receiver.recovery
      original
      5
      (process_data_frame receiver original 5)
unfolding new_receiver
process_data_frame-IsDelivered_example = process_data_frame-IsDelivered receiver original 5 tt

encode-IsBounded_example :
    ((len : ℕ) × ((encode big_endian default_codec_config request (replicate 90 0)).1 ≡ ok len)
      × Fits big_endian default_codec_config request (replicate 90 0) len
      × (length (encode big_endian default_codec_config request (replicate 90 0)).0 ≡ 90)
      × (drop len (encode big_endian default_codec_config request (replicate 90 0)).0
          ≡ drop len (replicate 90 0)))
    ⊎ ((e : RtdpError) × (encode big_endian default_codec_config request (replicate 90 0)
          ≡ (replicate 90 0, err e)))
encode-IsBounded_example = encode-IsBounded big_endian default_codec_config request (replicate 90 0)

nothing_refused :
    (decode big_endian default_codec_config []).1
    ≡ err (RtdpError.protocol ErrorCode.malformed_frame)
unfolding decode validate check_preamble
nothing_refused = refl

encode-decode_example :
    encode big_endian default_codec_config
      (frame_of (decoded_frame big_endian default_codec_config request request-IsEncodable))
      (replicate 90 0)
    ≡ (request_packet ++ drop (length request_packet) (replicate 90 0), ok (length request_packet))
unfolding message_as_u16
encode-decode_example =
    encode-decode big_endian default_codec_config request_packet
      (decoded_frame big_endian default_codec_config request request-IsEncodable) (replicate 90 0)
      request_packet-AllBytes refl request_decoded (omega arith)

-- A correlation id of 2 bytes.
abbrev correlation : HeaderExtension
correlation = record { ext_type = 2; is_critical = is_critical_type 2; value = 17 ∷ 18 ∷ [] }

next-encode_extension_example :
    (written : List ℕ) × (encode_extension big_endian correlation (replicate 12 0)
      ≡ ok (written, wire_len correlation))
    × (next big_endian (new_iterator (take (wire_len correlation) written)) ≡ (
      record { bytes = take (wire_len correlation) written; offset = wire_len correlation },
      some (ok correlation),
    ))
unfolding wire_len is_critical_type
next-encode_extension_example =
    next-encode_extension big_endian correlation (replicate 12 0) refl (omega arith) (omega arith)
      (omega arith)
