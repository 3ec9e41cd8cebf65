-- ===== src/Transport/System.antt =====
-- A publisher (transports/udp/src/publisher.rs) and a subscriber (transports/udp/src/subscriber.rs)
-- over a network that may lose packets, deliver them more than once and change their order: a
-- packet that was sent once may come at any later time, any number of times. The replay thread and
-- the threads of the application take turns, a step each, as the lock of the ring buffer has it.

pub mod Sent
pub mod Preserved
pub mod Genuine
pub mod Quiet
pub mod Hearing
pub mod Recovered
pub mod Direct
pub mod Published
pub mod Ready
pub mod Gap
pub mod Stream
pub mod Behind
pub mod Reopened
use real_time_data_platform.Base.{
  ℕ, ◌^◌, ◌<◌, ◌≡◌, Bool, true, Option, none, some, inl, inr, refl, sym, ap, subst, arith,
  Option-cases, List, [], ◌∷◌, ◌++◌, In,
}
use real_time_data_platform.Protocol.Header.{MessageType}
use real_time_data_platform.Protocol.Frame.{OwnedFrame}
use real_time_data_platform.Protocol.HeaderCodec.RoundTrip.{IsWellTyped}
use real_time_data_platform.Buffers.Ring.{new_ring}
use real_time_data_platform.Transport.Publisher.{
  Publisher, UdpPublisherConfig, new_publisher, next_frame, publish, publish_frame,
  store_in_ring_only, restart_with_new_publisher_id, on_packet,
}
use real_time_data_platform.Transport.Subscriber.{
  SocketAddr, Arrival, Worker, UdpSubscriberConfig, new_worker, new_subscriber, turn,
}
use real_time_data_platform.Delivery.Receiver.{new_receiver}
use real_time_data_platform.Recovery.Engine.{new_engine}
use real_time_data_platform.Wire.{Wire}

pub record System : Type 0 where
  pub publisher : Publisher
  pub worker : Worker
  -- The id that the publisher had when the replay thread was started.
  pub started_id : ℕ
  -- The frames that were published or stored, the last one first.
  pub log : List OwnedFrame
  -- The packets that the publisher has sent.
  pub wire : List (List ℕ)
  -- The frames that were offered to the application, the first one first.
  pub offered : List OwnedFrame

-- A frame that the application may hand over: a data frame without extensions, with values of the
-- types of its fields.
pub record IsStorable (f : OwnedFrame) : Type 0 where
  pub well_typed : IsWellTyped f.header
  pub is_data : f.header.message_type ≡ MessageType.data_message
  pub plain : f.extension_bytes ≡ []

-- A new publisher and a new subscriber that share their configuration.
pub record IsFresh (s : System) : Type 0 where
  pub capacity : ℕ
  pub empty_ring : new_ring capacity ≡ some s.publisher.ring_buffer
  pub starts_at_1 : s.publisher.sequence_counter ≡ 1
  pub stream_small : s.publisher.stream_id < 2 ^ 64
  pub id_small : s.publisher.publisher_id < 2 ^ 64
  pub started : s.started_id ≡ s.publisher.publisher_id
  pub frames_small : s.publisher.max_frame_size < 2 ^ 32
  pub same_codec : s.publisher.codec ≡ s.worker.codec
  pub nothing_buffered : s.worker.stream_rx.recovery.buffered_out_of_order ≡ []
  pub nothing_published : s.log ≡ []
  pub nothing_sent : s.wire ≡ []
  pub nothing_offered : s.offered ≡ []

-- A publisher and a subscriber as their constructors leave them.
abbrev pub fresh_system : Publisher → UdpSubscriberConfig → System
fresh_system p config = record {
  publisher = p;
  worker = new_subscriber config;
  started_id = p.publisher_id;
  log = [];
  wire = [];
  offered = [];
}

pub fresh_system-IsFresh :
    (p : Publisher) (config : UdpPublisherConfig) (config' : UdpSubscriberConfig)
    → new_publisher config ≡ some p
    → config.stream_id < 2 ^ 64
    → config.publisher_id < 2 ^ 64
    → config.max_frame_size < 2 ^ 32
    → config'.max_frame_size ≡ config.max_frame_size
    → IsFresh (fresh_system p config')
unfolding new_publisher new_subscriber new_worker new_receiver new_engine
fresh_system-IsFresh p config config' made stream id frames same =
    elim (Option-cases (new_ring config.ring_buffer_capacity)) [
      | inl refused ↦ absurd (let none_made = rw (new_publisher, refused) at made in ground arith)
      | inr (ring, opened) ↦
          let q : Publisher = record {
            stream_id = config.stream_id;
            publisher_id = config.publisher_id;
            max_frame_size = config.max_frame_size;
            codec = record { max_frame_size = config.max_frame_size; validate_checksum = true };
            ring_buffer = ring;
            sequence_counter = 1;
          } in
          let is_p = rw (new_publisher, opened) at made in
          let same_p : q ≡ p = ground arith in
          let fresh : IsFresh (fresh_system q config') = record {
            capacity = config.ring_buffer_capacity;
            empty_ring = opened;
            starts_at_1 = refl;
            stream_small = stream;
            id_small = id;
            started = refl;
            frames_small = frames;
            same_codec =
                ap (λ n. record { max_frame_size = n; validate_checksum = true }) (sym same);
            nothing_buffered = refl;
            nothing_published = refl;
            nothing_sent = refl;
            nothing_offered = refl;
          } in
          subst (λ p'. IsFresh (fresh_system p' config')) same_p fresh
    ]

module _ (w : Wire) where
  abbrev pub after_turn : System → ℕ → Arrival → ℕ → System
  after_turn s checked arrival now =
      let (k, output, more) = turn w s.worker checked arrival now in
      record s { worker = k; offered = s.offered ++ output.offered }

  -- The frames that the application hands to `publish_frame` and `store_in_ring_only` are data frames
  -- without extensions, with values of their types: a replay gives another type or an extension
  -- up. The other calls are free.
  pub data Step : System → System → Type 0 where
    publishes :
        {s : System} (now_ns : ℕ) (payload : List ℕ) (taken : Bool)
        → now_ns < 2 ^ 64
        → Step s (
            let (p, packets, answer) = publish w s.publisher now_ns payload taken in
            record s {
              publisher = p;
              log = next_frame s.publisher now_ns payload ∷ s.log;
              wire = packets ++ s.wire;
            })
    publishes_frame :
        {s : System} (frame : OwnedFrame) (store_in_ring taken : Bool)
        → IsStorable frame
        → Step s (
            let (p, packets, answer) = publish_frame w s.publisher frame store_in_ring taken in
            record s { publisher = p; log = frame ∷ s.log; wire = packets ++ s.wire })
    stores :
        {s : System} (frame : OwnedFrame)
        → IsStorable frame
        → Step s
            (record s { publisher = store_in_ring_only s.publisher frame; log = frame ∷ s.log })
    restarts :
        {s : System} (id : ℕ)
        → id < 2 ^ 64
        → Step s (record s { publisher = restart_with_new_publisher_id s.publisher id })
    -- The replay thread answers whatever packet it got, from whoever.
    replays :
        {s : System} (request : List ℕ)
        → Step s (record s {
          wire =
              on_packet w s.publisher.codec s.publisher.ring_buffer s.publisher.stream_id
                s.started_id request
              ++ s.wire;
        })
    hears :
        {s : System} (checked : ℕ) (peer : SocketAddr) (bytes : List ℕ) (now : ℕ)
        → In bytes s.wire
        → Step s (after_turn s checked (Arrival.packet peer bytes) now)
    waits : {s : System} (checked now : ℕ) → Step s (after_turn s checked Arrival.nothing now)

  pub data Reachable : System → Type 0 where
    start : {s : System} → IsFresh s → Reachable s
    next : {s s' : System} → Reachable s → Step s s' → Reachable s'
