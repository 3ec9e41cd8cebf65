-- ===== src/Transport/Publisher/Opened.antt =====
-- A publisher (transports/udp/src/publisher.rs) as its constructor leaves it.
use real_time_data_platform.Base.{ℕ, ◌≡◌, inl, inr, refl, subst, true, some, arith, Option-cases}
use real_time_data_platform.Buffers.Ring.{new_ring}
use real_time_data_platform.Serialization.Codec.{FrameCodec}
use real_time_data_platform.Transport.Publisher.{Publisher, UdpPublisherConfig, new_publisher}

-- The codec that a publisher or a subscriber makes of its maximal frame size.
abbrev pub codec_for : ℕ → FrameCodec
codec_for max_frame_size = record { max_frame_size = max_frame_size; validate_checksum = true }

pub record IsOpened (config : UdpPublisherConfig) (p : Publisher) : Type 0 where
  pub ring : new_ring config.ring_buffer_capacity ≡ some p.ring_buffer
  pub counter : p.sequence_counter ≡ 1
  pub stream : p.stream_id ≡ config.stream_id
  pub publisher : p.publisher_id ≡ config.publisher_id
  pub size : p.max_frame_size ≡ config.max_frame_size
  pub codec : p.codec ≡ codec_for config.max_frame_size

pub new_publisher-IsOpened :
    (config : UdpPublisherConfig) (p : Publisher)
    → new_publisher config ≡ some p
    → IsOpened config p
unfolding new_publisher
new_publisher-IsOpened config p made = elim (Option-cases (new_ring config.ring_buffer_capacity)) [
  | inl refused ↦ absurd (let none_made = rw (new_publisher, refused) at made in ground arith)
  | inr (ring, opened) ↦
      let is_p = rw (new_publisher, opened) at made in
      let q : Publisher = record {
        stream_id = config.stream_id;
        publisher_id = config.publisher_id;
        max_frame_size = config.max_frame_size;
        codec = codec_for config.max_frame_size;
        ring_buffer = ring;
        sequence_counter = 1;
      } in
      let same : q ≡ p = ground arith in
      let is_opened : IsOpened config q = record {
        ring = opened;
        counter = refl;
        stream = refl;
        publisher = refl;
        size = refl;
        codec = refl;
      } in
      subst (IsOpened config) same is_opened
]
