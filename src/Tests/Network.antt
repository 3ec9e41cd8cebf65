-- ===== src/Tests/Network.antt =====
-- A publisher and a subscriber over a network, at a concrete run.
use real_time_data_platform.Base.{
  ℕ, ◌≡◌, inl, refl, true, none, some, List, [], ◌∷◌, ◌++◌, arith, In,
}
use real_time_data_platform.Protocol.Header.{new_data_header, message_from_u16, message_as_u16}
use real_time_data_platform.Protocol.Frame.{OwnedFrame, new_data_frame}
use real_time_data_platform.Buffers.Ring.{new_ring}
use real_time_data_platform.Serialization.Codec.{
  FrameCodec, encode, write_body, decode, validate, check_preamble, check_lengths, check_extensions,
  decode_checked, decode_validated, check_message,
}
use real_time_data_platform.Recovery.Data.{default_config}
use real_time_data_platform.Recovery.Engine.{check_timeouts, sweep, drain_contiguous}
use real_time_data_platform.Delivery.Receiver.{
  DeliveryMode, new_receiver, process_data_frame, deliver_mode, deliver_reliable, reliable_status,
  reliable_in_order, note_drained,
}
use real_time_data_platform.Transport.Publisher.{
  Publisher, UdpPublisherConfig, new_publisher, encoded, publish, send, next_frame,
}
use real_time_data_platform.Transport.Subscriber.{
  Arrival, UdpSubscriberConfig, new_subscriber, new_worker, turn, on_timeouts, on_arrival,
  on_packet, on_view, on_message, on_data, owned,
}
use real_time_data_platform.Transport.Subscriber.Responses.{SameContents}
use real_time_data_platform.Transport.System.{
  System, IsFresh, fresh_system, fresh_system-IsFresh, Step, Reachable, after_turn,
}
use real_time_data_platform.Transport.System.Genuine.{Reachable-IsGenuine}
use real_time_data_platform.Protocol.HeaderCodec.{encode_header, decode_header, write_fields}
use real_time_data_platform.Sequence.Tracker.{observe}
use real_time_data_platform.Sequence.Dedup.{
  contains, remove as remove_key, is_duplicate_and_record, evict,
}
use real_time_data_platform.Tests.Bytes.{big_endian}

abbrev small_codec : FrameCodec
small_codec = record { max_frame_size = 64; validate_checksum = true }

abbrev publisher : Publisher
publisher = record {
  stream_id = 1;
  publisher_id = 100;
  max_frame_size = 64;
  codec = small_codec;
  ring_buffer = record {
    capacity = 2;
    buffer = none ∷ none ∷ [];
    min_sequence = none;
    max_sequence = none;
  };
  sequence_counter = 1;
}

abbrev publisher_config : UdpPublisherConfig
publisher_config = record {
  stream_id = 1;
  publisher_id = 100;
  ring_buffer_capacity = 2;
  max_frame_size = 64;
}

abbrev subscriber_config : UdpSubscriberConfig
subscriber_config = record {
  publisher_addr = (0, 9876);
  stream_id = 1;
  mode = DeliveryMode.reliable_ordered;
  recovery_config = default_config;
  max_frame_size = 64;
  channel_capacity = 8;
}

publisher_made : new_publisher publisher_config ≡ some publisher
unfolding new_publisher new_ring
publisher_made = refl

abbrev begin : System
begin = fresh_system publisher subscriber_config

abbrev published : System
published =
    let (p, packets, answer) = publish big_endian publisher 7 (42 ∷ []) true in
    record begin {
      publisher = p;
      log = next_frame publisher 7 (42 ∷ []) ∷ [];
      wire = packets ++ [];
    }

abbrev first_or_nothing : List (List ℕ) → List ℕ
first_or_nothing [] = []
first_or_nothing (p ∷ ps) = p

abbrev heard : System
heard =
    after_turn big_endian published 0 (Arrival.packet (0, 9876) (first_or_nothing published.wire)) 1

abbrev first_or : OwnedFrame → List OwnedFrame → OwnedFrame
first_or default [] = default
first_or default (f ∷ fs) = f

-- The frame that the subscriber offers first.
abbrev offered_frame : OwnedFrame
offered_frame = first_or (next_frame publisher 7 (42 ∷ [])) heard.offered

begin-IsFresh : IsFresh begin
begin-IsFresh =
    fresh_system-IsFresh publisher publisher_config subscriber_config publisher_made (omega arith)
      (omega arith) (omega arith) refl

first_sent : In (first_or_nothing published.wire) published.wire
unfolding publish encoded send encode encode_header write_fields write_body next_frame
    new_data_frame new_data_header message_as_u16
first_sent = inl refl

offers_one : In offered_frame heard.offered
unfolding publish encoded send encode encode_header write_fields write_body next_frame
    new_data_frame new_data_header message_as_u16 new_subscriber new_worker new_receiver turn
    on_timeouts check_timeouts sweep on_arrival on_packet on_view on_message on_data owned decode
    validate check_preamble check_lengths check_extensions decode_checked decode_validated
    decode_header check_message message_from_u16 process_data_frame observe deliver_mode
    deliver_reliable is_duplicate_and_record contains remove_key evict reliable_status
    reliable_in_order drain_contiguous note_drained
offers_one = inl refl

Reachable-IsGenuine_example :
    (g : OwnedFrame) × In g (next_frame publisher 7 (42 ∷ []) ∷ []) × SameContents offered_frame g
Reachable-IsGenuine_example =
    Reachable-IsGenuine big_endian heard offered_frame
      (Reachable.next
        (Reachable.next (Reachable.start begin-IsFresh)
          (Step.publishes 7 (42 ∷ []) true (omega arith)))
        (Step.hears 0 (0, 9876) (first_or_nothing published.wire) 1 first_sent))
      offers_one
