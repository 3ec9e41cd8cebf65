-- ===== src/Transport/System/Direct.antt =====
-- The packet of a stored data frame, and what a worker (transports/udp/src/subscriber.rs) does with
-- it.
use real_time_data_platform.Base.{
  ℕ, ◌+◌, ◌^◌, ◌≤◌, ◌<◌, ◌≡◌, refl, ◌∙◌, true, Option, List, arith, length, ◌==◌,
}
use real_time_data_platform.Error.{ok}
use real_time_data_platform.Protocol.Header.{MessageType}
use real_time_data_platform.Protocol.Frame.{FrameView, OwnedFrame}
use real_time_data_platform.Protocol.Extensions.Scan.{done}
use real_time_data_platform.Serialization.Codec.{FrameCodec}
use real_time_data_platform.Serialization.Codec.RoundTrip.{IsEncodable}
use real_time_data_platform.Serialization.Codec.Decoded.{decoded_frame}
use real_time_data_platform.Recovery.Data.{ReplayRequestPayload}
use real_time_data_platform.Delivery.Receiver.{process_data_frame}
use real_time_data_platform.Transport.Publisher.{encoded}
use real_time_data_platform.Transport.Publisher.Replay.{encoded_packet}
use real_time_data_platform.Transport.Subscriber.{
  SocketAddr, Worker, owned, send_optional, on_data, on_message, on_view, on_packet,
}
use real_time_data_platform.Transport.Subscriber.Responses.{SameContents}
use real_time_data_platform.Transport.System.{IsStorable}
use real_time_data_platform.Wire.{Wire}

module _ (w : Wire) where
  pub storable-IsEncodable :
      (c : FrameCodec) (f : OwnedFrame)
      → IsStorable f
      → 48 + length f.payload ≤ c.max_frame_size
      → c.max_frame_size < 2 ^ 32
      → IsEncodable w c f
  storable-IsEncodable c f s room small =
      let none_extended : length f.extension_bytes ≡ 0 = rw s.plain refl in
      record {
        well_typed = s.well_typed;
        aligned = omega (arith, none_extended);
        header_small = omega (arith, none_extended);
        payload_small = omega arith;
        fits = omega (arith, none_extended);
        extensions = rw s.plain (done (omega arith));
        message = rw s.is_data tt;
      }

  owned-SameContents :
      (c : FrameCodec) (f : OwnedFrame) (v : IsEncodable w c f)
      → SameContents (owned (decoded_frame w c f v)) f
  unfolding owned
  owned-SameContents c f v = record {
    message_type = refl;
    stream_id = refl;
    sequence = refl;
    timestamp_ns = refl;
    publisher_id = refl;
    extensions = refl;
    payload = refl;
  }

  on_view-data :
      (k : Worker) (peer : SocketAddr) (view : FrameView) (now : ℕ)
      → view.header.message_type ≡ MessageType.data_message
      → view.header.stream_id ≡ k.stream_id
      → on_view w k peer view now ≡ on_data w k peer view now
  unfolding on_view on_message
  on_view-data k peer view now is_data own =
      let same : (view.header.stream_id == k.stream_id) ≡ true = ground arith in
      rw (on_view, same, is_data, on_message) refl

  on_data_ok :
      (k : Worker) (peer : SocketAddr) (view : FrameView) (now : ℕ) (frames : List OwnedFrame)
      (request : Option ReplayRequestPayload)
      → (process_data_frame k.stream_rx (owned view) now).1 ≡ ok (frames, request)
      → on_data w k peer view now ≡ (
        record k { stream_rx = (process_data_frame k.stream_rx (owned view) now).0 },
        record { sent = send_optional w k peer request; offered = frames },
      )
  unfolding on_data
  on_data_ok k peer view now frames request answer = rw (on_data, answer) refl

  -- The packet of a stored frame hands a frame with its contents to the receiver.
  pub on_packet-storable :
      (k : Worker) (peer : SocketAddr) (now : ℕ) (f : OwnedFrame) (size : ℕ)
      → IsStorable f
      → f.header.stream_id ≡ k.stream_id
      → 48 + length f.payload ≤ k.codec.max_frame_size
      → k.codec.max_frame_size ≤ size
      → size < 2 ^ 32
      → (packet : List ℕ) × (taken : OwnedFrame) × (encoded w k.codec f size ≡ ok packet)
        × SameContents taken f
        × ((frames : List OwnedFrame) (request : Option ReplayRequestPayload)
            → (process_data_frame k.stream_rx taken now).1 ≡ ok (frames, request)
            → on_packet w k peer packet now ≡ (
              record k { stream_rx = (process_data_frame k.stream_rx taken now).0 },
              record { sent = send_optional w k peer request; offered = frames },
            ))
  unfolding on_packet
  on_packet-storable k peer now f size s own room wide small =
      let none_extended : length f.extension_bytes ≡ 0 = rw s.plain refl in
      let v = storable-IsEncodable k.codec f s room (omega arith) in
      let view = decoded_frame w k.codec f v in
      let (packet, e, decoded) = encoded_packet w k.codec f v size (omega (arith, none_extended)) in
      (
        packet,
        owned view,
        e,
        owned-SameContents k.codec f v,
        λ frames request answer.
            rw (on_packet, decoded)
              (on_view-data k peer view now s.is_data own
                ∙ on_data_ok k peer view now frames request answer),
      )
