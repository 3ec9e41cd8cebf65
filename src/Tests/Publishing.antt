-- ===== src/Tests/Publishing.antt =====
-- A publisher with three slots at concrete requests.
use real_time_data_platform.Base.{
  ℕ, ◌+◌, ◌-◌, ◌≡◌, refl, true, none, List, [], ◌∷◌, if◌then◌else◌, ltb, arith,
}
use real_time_data_platform.Buffers.Ring.{RingBuffer, new_ring}
use real_time_data_platform.Buffers.Ring.Retention.{oldest, published}
use real_time_data_platform.Recovery.Data.{ReplayRequestPayload}
use real_time_data_platform.Serialization.Codec.{default_codec_config}
use real_time_data_platform.Tests.Bytes.{big_endian}
use real_time_data_platform.Transport.Publisher.{
  Publisher, attempt, unavailable_frame, send_responses, handle_replay_request,
}
use real_time_data_platform.Transport.Publisher.Replay.{
  publish_upto, frame_of, handle_replay_request-published,
}

abbrev pub empty_ring : RingBuffer
empty_ring = record {
  capacity = 3;
  buffer = none ∷ none ∷ none ∷ [];
  min_sequence = none;
  max_sequence = none;
}

abbrev pub fresh : Publisher
fresh = record {
  stream_id = 1;
  publisher_id = 100;
  max_frame_size = 1472;
  codec = default_codec_config;
  ring_buffer = empty_ring;
  sequence_counter = 1;
}

abbrev now : ℕ → ℕ
now s = 1_000 + s

abbrev payload : ℕ → List ℕ
payload s = s ∷ []

abbrev wanted : ReplayRequestPayload
wanted = record { request_id = 9; from_sequence = 4; to_sequence = 5 }

handle_replay_request-published_example :
    (let refuse = λ (first last : ℕ). attempt big_endian default_codec_config (
        unavailable_frame big_endian 1 100
          (record { request_id = 9; first_unavailable = first; last_unavailable = last })) in
      handle_replay_request big_endian default_codec_config
        (publish_upto big_endian now payload (λ s. true) fresh 5).ring_buffer
        1
        100
        wanted
      ≡ (if ltb 4 (oldest 3 1 5)
          then refuse 4 (oldest 3 1 5 - 1)
          else if ltb 5 5
          then refuse (5 + 1) 5
          else send_responses big_endian default_codec_config wanted
              (published (frame_of big_endian now payload (λ s. true) fresh) 2 4)))
unfolding new_ring
handle_replay_request-published_example =
    handle_replay_request-published big_endian now payload (λ s. true) fresh 3 5
      default_codec_config 1 100 wanted refl refl (omega arith) (omega arith) (omega arith)
