-- ===== src/Tests/Recovery.antt =====
-- A replay at concrete inputs: the request that a gap leads to, and the frames that come back.
use real_time_data_platform.Base.{◌≡◌, ◌⊎◌, inl, inr, refl, List, [], ◌∷◌, arith}
use real_time_data_platform.Base.Map.{lookup, remove}
use real_time_data_platform.Protocol.Frame.{OwnedFrame, new_data_frame}
use real_time_data_platform.Recovery.Data.{
  default_config, ActiveReplayRequest, RecoveryEngine, ReplayRequestPayload,
}
use real_time_data_platform.Recovery.Engine.{
  new_engine, new_request, create_replay_request, contains,
}
use real_time_data_platform.Recovery.Engine.Completion.{
  HasSequence, IsWaiting, Covers, respond_all, respond_all-HasSequence,
}
use real_time_data_platform.Delivery.Receiver.{DeliveryMode, new_receiver}
use real_time_data_platform.Serialization.Codec.{default_codec_config}
use real_time_data_platform.Transport.Subscriber.{Worker}
use real_time_data_platform.Tests.Ordered.{frame}

abbrev waiting : RecoveryEngine
waiting = (create_replay_request (new_engine default_config) 4 5 0).0

abbrev active : ActiveReplayRequest
active = new_request 1 4 5 0

waiting-IsWaiting : IsWaiting waiting 1 active
unfolding create_replay_request new_engine lookup remove contains
waiting-IsWaiting = record {
  outstanding = refl;
  missing = 4;
  from_missing = omega arith;
  missing_to = omega arith;
  not_arrived = refl;
  kept = λ q lo hi h. absurd (ground arith);
}

-- 5, 9 and 5 again, and 4 at last.
abbrev responses : List OwnedFrame
responses = frame 5 ∷ frame 9 ∷ frame 5 ∷ frame 4 ∷ []

responses-Covers : Covers active responses
unfolding new_data_frame
responses-Covers q lo hi =
    let four_or_five : (4 ≡ q) ⊎ (5 ≡ q) = omega arith in
    elim four_or_five [ inl four ↦ inr (inr (inr (inr (inl four)))) | inr five ↦ inr (inl five) ]

respond_all-HasSequence_example : HasSequence 5 (respond_all 1 waiting responses)
respond_all-HasSequence_example =
    respond_all-HasSequence waiting 1 active responses 5 waiting-IsWaiting responses-Covers
      (omega arith) (omega arith)

abbrev worker : Worker
worker = record {
  stream_rx = record (new_receiver 1 DeliveryMode.reliable_ordered default_config) {
    recovery = waiting;
  };
  codec = default_codec_config;
  stream_id = 1;
  publisher_addr = (0, 9875);
}

abbrev wanted : ReplayRequestPayload
wanted = record { request_id = 1; from_sequence = 4; to_sequence = 5 }
