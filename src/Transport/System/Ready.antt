-- ===== src/Transport/System/Ready.antt =====
-- A publisher that publishes from its start on, and a worker of its stream (transports/udp/src).
use real_time_data_platform.Base.{
  ℕ, zero, suc, ◌+◌, ◌-◌, ◌^◌, ◌≤◌, ◌<◌, ◌≡◌, sym, ap, ◌∙◌, Bool, true, Option, some, List, [], ◌∷◌,
  ◌++◌, arith, length,
}
use real_time_data_platform.Error.{ok}
use real_time_data_platform.Protocol.Frame.{OwnedFrame}
use real_time_data_platform.Recovery.Data.{ReplayRequestPayload}
use real_time_data_platform.Delivery.Receiver.{process_data_frame}
use real_time_data_platform.Delivery.Receiver.Ordered.{IsOrdered}
use real_time_data_platform.Transport.Publisher.{
  Publisher, UdpPublisherConfig, new_publisher, encoded, send, publish, send_responses,
  handle_replay_request,
}
use real_time_data_platform.Transport.Publisher as Publisher
use real_time_data_platform.Transport.Publisher.Opened.{codec_for, IsOpened, new_publisher-IsOpened}
use real_time_data_platform.Transport.Publisher.Replay.{publish_upto, frame_of, publish-frame_of}
use real_time_data_platform.Transport.Subscriber.{SocketAddr, Worker, send_optional, on_packet}
use real_time_data_platform.Transport.Subscriber.Responses.{SameContents}
use real_time_data_platform.Transport.System.Hearing.{IsSendable}
use real_time_data_platform.Transport.System.Recovered.{hist-IsSendable}
use real_time_data_platform.Transport.System.Published.{sends_packet}
use real_time_data_platform.Transport.System.Direct.{on_packet-storable}
use real_time_data_platform.Wire.{Wire}

-- What a publisher publishes fits the wire.
pub record IsPublishable (now_ns : ℕ → ℕ) (payload : ℕ → List ℕ) (config : UdpPublisherConfig)
    : Type 0 where
  pub stream_small : config.stream_id < 2 ^ 64
  pub id_small : config.publisher_id < 2 ^ 64
  pub times_small : (s : ℕ) → s < 2 ^ 64 → now_ns s < 2 ^ 64
  pub room : (s : ℕ) → s < 2 ^ 64 → 56 + length (payload s) ≤ config.max_frame_size
  pub request_room : 72 ≤ config.max_frame_size
  pub one_packet : config.max_frame_size ≤ 1500

-- A worker of the publisher's stream, with its frame size.
pub record IsTuned (config : UdpPublisherConfig) (k : Worker) : Type 0 where
  pub codec : k.codec ≡ codec_for config.max_frame_size
  pub stream : k.stream_id ≡ config.stream_id

-- A worker of the publisher's stream, in `RELIABLE_ORDERED` mode, that holds nothing back.
pub record IsReady (config : UdpPublisherConfig) (k : Worker) : Type 0 where
  pub codec : k.codec ≡ codec_for config.max_frame_size
  pub stream : k.stream_id ≡ config.stream_id
  pub ordered : IsOrdered config.publisher_id k.stream_rx
  pub nothing_held : k.stream_rx.recovery.buffered_out_of_order ≡ []
  pub id_small : k.stream_rx.recovery.next_request_id < 2 ^ 64

abbrev pub tuned : {config : UdpPublisherConfig} {k : Worker} → IsReady config k → IsTuned config k
tuned ready = record { codec = ready.codec; stream = ready.stream }

module _ (w : Wire) (now_ns : ℕ → ℕ) (payload : ℕ → List ℕ) (taken : ℕ → Bool) (p : Publisher) where
  -- The frame of a sequence.
  abbrev pub hist : ℕ → OwnedFrame
  hist s = frame_of w now_ns payload taken p s

  -- What the publisher sends after it has published the sequences up to `n`.
  abbrev pub sent : ℕ → List (List ℕ)
  sent n =
      (publish w (publish_upto w now_ns payload taken p n) (now_ns (suc n)) (payload (suc n))
        (taken (suc n))).1

  -- What the publisher sends for the sequences 1 to `n`.
  unfoldable pub sent_upto : ℕ → List (List ℕ)
  sent_upto zero = []
  sent_upto (suc n) = sent_upto n ++ sent n

  -- What the publisher, which has published up to `last`, answers a packet with.
  abbrev pub reply : ℕ → ℕ → List ℕ → List (List ℕ)
  reply last started_id request =
      Publisher.on_packet w p.codec (publish_upto w now_ns payload taken p last).ring_buffer
        p.stream_id started_id request

  module _ (config : UdpPublisherConfig) (k : Worker) (made : new_publisher config ≡ some p)
      (fit : IsPublishable now_ns payload config) (ready : IsTuned config k) where
    abbrev opened : IsOpened config p
    opened = new_publisher-IsOpened config p made

    pub own_hist-IsSendable : (s : ℕ) → s < 2 ^ 64 → IsSendable w k.codec k.stream_id (hist s)
    own_hist-IsSendable s small =
        let o = opened in
        rw (ready.stream, ← o.stream)
          (hist-IsSendable w now_ns payload taken p k.codec s (rw o.stream fit.stream_small)
            (rw o.publisher fit.id_small) small (fit.times_small s small)
            (rw ready.codec (fit.room s small)))

    -- The packet of a frame, and what the worker's receiver gets from it.
    pub heard_packet :
        (n : ℕ) (peer : SocketAddr) (now : ℕ)
        → suc n < 2 ^ 64 - 1
        → taken (suc n) ≡ true
        → (packet : List ℕ) × (held : OwnedFrame) × (sent n ≡ packet ∷ [])
          × SameContents held (hist (suc n))
          × ((frames : List OwnedFrame) (request : Option ReplayRequestPayload)
              → (process_data_frame k.stream_rx held now).1 ≡ ok (frames, request)
              → on_packet w k peer packet now ≡ (
                record k { stream_rx = (process_data_frame k.stream_rx held now).0 },
                record { sent = send_optional w k peer request; offered = frames },
              ))
    heard_packet n peer now small was_taken =
        let o = opened in
        let f = own_hist-IsSendable (suc n) (omega arith) in
        let (packet, held, e, same, took) =
          on_packet-storable w k peer now (hist (suc n)) config.max_frame_size f.storable
            f.own_stream (omega (arith, f.room))
            (omega (arith, ap (λ c. c.max_frame_size) ready.codec))
            (omega (arith, fit.one_packet)) in
        (
          packet,
          held,
          publish-frame_of w now_ns payload taken p config.ring_buffer_capacity n o.ring o.counter
                small
              ∙ sends_packet w (hist (suc n)) p.codec k.codec p.max_frame_size config.max_frame_size
                  (taken (suc n)) packet (o.codec ∙ sym ready.codec) o.size was_taken e,
          same,
          took,
        )
