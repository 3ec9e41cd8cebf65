-- ===== src/Transport/System/Recovered.antt =====
-- A replay from the request to the application (transports/udp/src), on a network that loses
-- nothing.
use real_time_data_platform.Base.{
  ℕ, zero, suc, ◌+◌, ◌^◌, ◌≤◌, ◌<◌, refl, Bool, List, arith, length, Each,
}
use real_time_data_platform.Protocol.Header.{new_data_header}
use real_time_data_platform.Protocol.Frame.{OwnedFrame, new_data_frame}
use real_time_data_platform.Serialization.Codec.{FrameCodec}
use real_time_data_platform.Buffers.Ring.Retention.{published}
use real_time_data_platform.Transport.Publisher.{Publisher}
use real_time_data_platform.Transport.Publisher.Replay.{frame_of}
use real_time_data_platform.Transport.System.Preserved.{new_data_frame-IsStorable}
use real_time_data_platform.Wire.{Wire}
use real_time_data_platform.Transport.System.Hearing.{IsSendable}

pub published-Each :
    (P : OwnedFrame → Type 0) (hist : ℕ → OwnedFrame) (rounds from : ℕ)
    → ((s : ℕ) → from ≤ s → s < from + rounds → P (hist s))
    → Each P (published hist rounds from)
unfolding published
published-Each P hist zero from h = tt
published-Each P hist (suc rounds) from h = (
  h from (omega arith) (omega arith),
  published-Each P hist rounds (from + 1) (λ s lo hi. h s (omega arith) (omega arith)),
)

module _ (w : Wire) (now_ns : ℕ → ℕ) (payload : ℕ → List ℕ) (taken : ℕ → Bool) (p : Publisher) where
  abbrev hist : ℕ → OwnedFrame
  hist s = frame_of w now_ns payload taken p s

  pub hist-IsSendable :
      (c : FrameCodec) (s : ℕ)
      → p.stream_id < 2 ^ 64
      → p.publisher_id < 2 ^ 64
      → s < 2 ^ 64
      → now_ns s < 2 ^ 64
      → 56 + length (payload s) ≤ c.max_frame_size
      → IsSendable w c p.stream_id (hist s)
  unfolding frame_of
  hist-IsSendable c s stream id sequence time room = record {
    storable =
        new_data_frame-IsStorable p.stream_id s (now_ns s) p.publisher_id (payload s) stream
          sequence time id;
    own_stream = unfold new_data_frame new_data_header in refl;
    room = unfold new_data_frame new_data_header in room;
  }
