-- ===== src/Transport/Subscriber/Sources.antt =====
-- Where the frames come from that a subscriber (transports/udp/src/subscriber.rs) offers to the
-- application.
use real_time_data_platform.Base.{
  ℕ, ◌≡◌, inl, inr, refl, ◌∙◌, not, ◌&&◌, Option, none, some, List, ◌==◌, leb, length, slice,
  Bool-cases, append-Each,
}
use real_time_data_platform.Error.{RtdpError, Result, ok, err}
use real_time_data_platform.Protocol.Header.{MessageType}
use real_time_data_platform.Protocol.Frame.{FrameView, OwnedFrame}
use real_time_data_platform.Serialization.Codec.{FrameCodec, decode}
use real_time_data_platform.Serialization.Codec.Decode.{Result-cases}
use real_time_data_platform.Recovery.Data.{RecoveryEngine}
use real_time_data_platform.Recovery.Engine.{check_timeouts, handle_replay_unavailable}
use real_time_data_platform.Recovery.Engine.Sources.{
  All, Buffered, given, handle_replay_response-All, check_timeouts-buffer,
}
use real_time_data_platform.Recovery.Payloads.{decode_unavailable}
use real_time_data_platform.Delivery.Receiver.{process_data_frame}
use real_time_data_platform.Delivery.Receiver.Sources.{process_data_frame-All}
use real_time_data_platform.Transport.Subscriber.{
  SocketAddr, Arrival, Output, Worker, silent, owned, recovered_frame, on_timeouts, on_data,
  on_drained, on_response, on_unavailable, on_message, on_view, on_packet, on_arrival, turn,
  is_replay_unavailable,
}
use real_time_data_platform.Wire.{Wire}

module _ (P : OwnedFrame → Type 0) where
  -- What a view of a type brings has the property.
  abbrev pub Brings : MessageType → FrameView → Type 0
  Brings MessageType.data_message view = P (owned view)
  Brings MessageType.replay_response view = P (recovered_frame view)
  Brings _ view = Unit

  module _ (w : Wire) where
    -- What a subscriber can take from a packet has the property.
    abbrev pub Carries : FrameCodec → List ℕ → Type 0
    Carries c bytes =
        (view : FrameView) → (decode w c bytes).1 ≡ ok view → Brings view.header.message_type view

    -- The worker `k'` and the output that a worker `k` comes to.
    pub record Passes (k : Worker) (k' : Worker) (output : Output) : Type 0 where
      pub offers : All P output.offered
      pub holds : Buffered P k'.stream_rx.recovery
      pub same_codec : k'.codec ≡ k.codec

    module _ (k : Worker) (b : Buffered P k.stream_rx.recovery) where
      stays : Passes k k silent
      stays = record { offers = tt; holds = b; same_codec = refl }

      on_data-Passes :
          (peer : SocketAddr) (view : FrameView) (now : ℕ)
          → P (owned view)
          → (let (k', output) = on_data w k peer view now in Passes k k' output)
      unfolding on_data
      on_data-Passes peer view now h =
          let (given, held) = process_data_frame-All P k.stream_rx (owned view) now h b in
          elim (Result-cases (process_data_frame k.stream_rx (owned view) now).1) [
            | inl ((frames, replay), e) ↦
                rw (on_data, e) (record { offers = rw e at given; holds = held; same_codec = refl })
            | inr (e, refused) ↦
                rw (on_data, refused) (record { offers = tt; holds = held; same_codec = refl })
          ]

      on_drained-Passes :
          (engine : RecoveryEngine) (answer : Result (Option (List OwnedFrame)) RtdpError)
          → All P (given P answer)
          → Buffered P engine
          → (let (k', output) = on_drained w k (engine, answer) in Passes k k' output)
      unfolding on_drained
      on_drained-Passes engine (ok (some drained)) h b' = record {
        offers = h;
        holds = b';
        same_codec = refl;
      }
      on_drained-Passes engine (ok none) h b' = record {
        offers = tt;
        holds = b';
        same_codec = refl;
      }
      on_drained-Passes engine (err e) h b' = record { offers = tt; holds = b'; same_codec = refl }

      on_response-Passes :
          (view : FrameView)
          → P (recovered_frame view)
          → (let (k', output) = on_response w k view in Passes k k' output)
      unfolding on_response
      on_response-Passes view h = elim (Bool-cases (leb 8 (length view.payload))) [
        | inl long ↦
            let (given, held) =
              handle_replay_response-All P k.stream_rx.recovery
                (w.read_u64 (slice 0 8 view.payload)) (recovered_frame view) h b in
            rw (on_response, long) (on_drained-Passes _ _ given held)
        | inr short ↦ rw (on_response, short) stays
      ]

      on_unavailable-Passes :
          (view : FrameView) → (let (k', output) = on_unavailable w k view in Passes k k' output)
      unfolding on_unavailable handle_replay_unavailable
      on_unavailable-Passes view = elim (Result-cases (decode_unavailable w view.payload)) [
        | inl (unavail, e) ↦
            rw (on_unavailable, e) (record { offers = tt; holds = b; same_codec = refl })
        | inr (e, refused) ↦ rw (on_unavailable, refused) stays
      ]

      on_message-Passes :
          (type : MessageType) (peer : SocketAddr) (view : FrameView) (now : ℕ)
          → Brings type view
          → (let (k', output) = on_message w type k peer view now in Passes k k' output)
      unfolding on_message
      on_message-Passes MessageType.data_message peer view now h = on_data-Passes peer view now h
      on_message-Passes MessageType.replay_response peer view now h = on_response-Passes view h
      on_message-Passes MessageType.replay_unavailable peer view now h = on_unavailable-Passes view
      on_message-Passes _ peer view now h = stays

      on_view-Passes :
          (peer : SocketAddr) (view : FrameView) (now : ℕ)
          → Brings view.header.message_type view
          → (let (k', output) = on_view w k peer view now in Passes k k' output)
      unfolding on_view
      on_view-Passes peer view now h =
          let other =
            not (view.header.stream_id == k.stream_id)
            && not (is_replay_unavailable view.header.message_type) in
          elim (Bool-cases other) [
            | inl ignored ↦ rw (on_view, ignored) stays
            | inr own ↦
                rw (on_view, own) (on_message-Passes view.header.message_type peer view now h)
          ]

      on_packet-Passes :
          (peer : SocketAddr) (bytes : List ℕ) (now : ℕ)
          → Carries k.codec bytes
          → (let (k', output) = on_packet w k peer bytes now in Passes k k' output)
      unfolding on_packet
      on_packet-Passes peer bytes now h = elim (Result-cases (decode w k.codec bytes).1) [
        | inl (view, e) ↦ rw (on_packet, e) (on_view-Passes peer view now (h view e))
        | inr (e, refused) ↦ rw (on_packet, refused) stays
      ]

      on_timeouts-Passes :
          (now : ℕ) → (let (k', output) = on_timeouts w k now in Passes k k' output)
      unfolding on_timeouts
      on_timeouts-Passes now =
          let held : Buffered P (check_timeouts k.stream_rx.recovery now).0 =
            rw (check_timeouts-buffer k.stream_rx.recovery now) b in
          elim (Result-cases (check_timeouts k.stream_rx.recovery now).1) [
            | inl (retries, e) ↦
                rw (on_timeouts, e) (record { offers = tt; holds = held; same_codec = refl })
            | inr (e, refused) ↦
                rw (on_timeouts, refused) (record { offers = tt; holds = held; same_codec = refl })
          ]

    -- What the socket may have for a subscriber.
    abbrev pub Comes : FrameCodec → Arrival → Type 0
    Comes c (Arrival.packet peer bytes) = Carries c bytes
    Comes c Arrival.nothing = Unit
    Comes c Arrival.broken = Unit

    on_arrival-Passes :
        (k : Worker) (arrival : Arrival) (now : ℕ)
        → Buffered P k.stream_rx.recovery
        → Comes k.codec arrival
        → (let (k', output, more) = on_arrival w k arrival now in Passes k k' output)
    unfolding on_arrival
    on_arrival-Passes k (Arrival.packet peer bytes) now b h = on_packet-Passes k b peer bytes now h
    on_arrival-Passes k Arrival.nothing now b h = stays k b
    on_arrival-Passes k Arrival.broken now b h = stays k b

    -- A round of the loop, with what the socket may have.
    pub turn-Passes :
        (k : Worker) (checked : ℕ) (arrival : Arrival) (now : ℕ)
        → Buffered P k.stream_rx.recovery
        → Comes k.codec arrival
        → (let (k', output, more) = turn w k checked arrival now in Passes k k' output)
    unfolding turn
    turn-Passes k checked arrival now b h =
        let first = on_timeouts-Passes k b checked in
        let k' = (on_timeouts w k checked).0 in
        let second = on_arrival-Passes k' arrival now first.holds (rw first.same_codec h) in
        record {
          offers = append-Each P _ _ first.offers second.offers;
          holds = second.holds;
          same_codec = second.same_codec ∙ first.same_codec;
        }
