-- ===== src/Tests/Engine.antt =====
-- The recovery engine, the tracker and the replay payloads at concrete inputs.
use real_time_data_platform.Base.{
  ℕ, ◌<◌, ◌≡◌, ◌⊎◌, refl, if◌then◌else◌, ltb, none, some, List, [], ◌∷◌, arith, replicate, In,
}
use real_time_data_platform.Base.Map.{lookup, insert, values, Entries}
use real_time_data_platform.Error.{ErrorCode, RtdpError, ok, err, ◌>>=◌}
use real_time_data_platform.Protocol.Frame.{OwnedFrame, new_data_frame}
use real_time_data_platform.Recovery.Data.{
  ReplayRequestPayload, ActiveReplayRequest, RecoveryState, RecoveryEngine, default_config,
}
use real_time_data_platform.Recovery.Engine.{
  new_engine, new_request, buffer_frame, create_replay_request, handle_replay_response,
  check_timeouts, drain_contiguous,
}
use real_time_data_platform.Recovery.Engine.Drain.{Keyed, Drained, drain_contiguous-Drained}
use real_time_data_platform.Recovery.Engine.Invariant.{
  IsConsistent, Step, Reachable, Reachable-IsConsistent,
}
use real_time_data_platform.Recovery.Engine.Replay.{Arrived, handle_replay_response-Arrived}
use real_time_data_platform.Recovery.Engine.Timeouts.{
  IsRetried, IsFresh, IsExhausted, check_timeouts-IsRetried,
}
use real_time_data_platform.Recovery.Payloads.{
  encode_request, decode_request, decode_request-encode_request,
}
use real_time_data_platform.Tests.Bytes.{big_endian}

abbrev frame_of : ℕ → OwnedFrame
unfolding new_data_frame
frame_of s = new_data_frame 1 s 0 10 (s ∷ [])

-- An engine that waits for 2 and 3, and holds 4.
abbrev waiting : RecoveryEngine
waiting = (create_replay_request (buffer_frame (new_engine default_config) (frame_of 4)) 2 3 0).0

waiting-Reachable : Reachable default_config waiting
waiting-Reachable =
    Reachable.after (Reachable.after Reachable.initial (Step.buffers (frame_of 4)))
      (Step.requests_replay 2 3 0 (omega arith) (omega arith))

Reachable-IsConsistent_example : IsConsistent default_config waiting
Reachable-IsConsistent_example = Reachable-IsConsistent default_config waiting waiting-Reachable

waiting_request : lookup 1 waiting.outstanding_requests ≡ some (new_request 1 2 3 0)
unfolding new_engine buffer_frame create_replay_request lookup
waiting_request = refl

handle_replay_response-Arrived_example :
    (let (e', answer) = handle_replay_response waiting 1 (frame_of 2) in
      let given = values (insert 2 (frame_of 2) waiting.buffered_out_of_order) in
      (Arrived (new_request 1 2 3 0) 2 → answer ≡ ok (some given))
      × ((answer ≡ ok none)
          ⊎ (Arrived (new_request 1 2 3 0) 2
              × (answer ≡ ok (some given))
              × (lookup 1 e'.outstanding_requests ≡ none)
              × (e'.buffered_out_of_order ≡ []))))
unfolding new_data_frame
handle_replay_response-Arrived_example =
    handle_replay_response-Arrived waiting 1 (frame_of 2) (new_request 1 2 3 0) waiting_request

timeout_positive : 0 < waiting.config.retry_timeout
unfolding new_engine buffer_frame create_replay_request
timeout_positive = omega arith

waiting-Keyed : Entries Keyed waiting.buffered_out_of_order
unfolding new_engine buffer_frame create_replay_request insert new_data_frame
waiting-Keyed = ((refl, omega arith), tt)

check_timeouts-IsRetried_example :
    (let (e', answer) = check_timeouts waiting 60_000_000 in
      ((id : ℕ) × (req : ActiveReplayRequest) × In (id, req) waiting.outstanding_requests
        × IsExhausted waiting.config 60_000_000 req
        × (answer ≡ err (RtdpError.unrecoverable_gap req.from_sequence req.to_sequence))
        × (lookup id e'.outstanding_requests ≡ none)
        × (e'.state ≡ RecoveryState.recovery_failed))
      ⊎ ((retries : List ReplayRequestPayload) × (answer ≡ ok retries)
          × (e'.state ≡ waiting.state)
          × Entries (IsRetried waiting.config 60_000_000 retries) waiting.outstanding_requests
          × Entries (IsFresh waiting.config 60_000_000) e'.outstanding_requests))
check_timeouts-IsRetried_example = check_timeouts-IsRetried waiting 60_000_000 timeout_positive

drain_contiguous-Drained_example :
    Drained 4 waiting.buffered_out_of_order
      ((drain_contiguous waiting 4).1, (drain_contiguous waiting 4).0.buffered_out_of_order)
drain_contiguous-Drained_example = drain_contiguous-Drained waiting 4 (omega arith) waiting-Keyed

abbrev asked : ReplayRequestPayload
asked = record { request_id = 1; from_sequence = 2; to_sequence = 3 }

decode_request-encode_request_example :
    (encode_request big_endian asked (replicate 24 0) >>= decode_request big_endian)
    ≡ (if ltb 3 2 then err (RtdpError.protocol ErrorCode.replay_range_invalid) else ok asked)
decode_request-encode_request_example =
    decode_request-encode_request big_endian asked (replicate 24 0) (omega arith) (omega arith)
      (omega arith) (omega arith)
