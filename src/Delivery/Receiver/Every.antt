-- ===== src/Delivery/Receiver/Every.antt =====
-- The modes of a receiver (core/src/delivery/modes.rs) that hold no frame back.
use real_time_data_platform.Base.{
  ℕ, ◌-◌, ◌≤◌, ◌<◌, ◌≡◌, ◌⊎◌, inl, inr, refl, sym, subst, [], ◌∷◌, arith, none, some, ltb, leb,
  inc64, length, Bool-cases,
}
use real_time_data_platform.Base.Map.{lookup, remove}
use real_time_data_platform.Error.{ErrorCode, RtdpError, Result, ok, err}
use real_time_data_platform.Protocol.Frame.{OwnedFrame}
use real_time_data_platform.Sequence.Tracker.{SequenceStatus, observe}
use real_time_data_platform.Recovery.Data.{RecoveryEngine, RecoveryState, ReplayRequestPayload}
use real_time_data_platform.Recovery.Engine.{new_request, create_replay_request}
use real_time_data_platform.Delivery.Receiver.{
  DeliveryMode, StreamReceiver, Outcome, deliver_best_effort, at_least_once_gap,
  deliver_at_least_once, deliver_mode, process_data_frame,
}

-- The modes.
abbrev pub IsImmediate : DeliveryMode → Type 0
IsImmediate DeliveryMode.best_effort = Unit
IsImmediate DeliveryMode.latest = ⊥
IsImmediate DeliveryMode.at_least_once = Unit
IsImmediate DeliveryMode.reliable_ordered = ⊥

-- The frame alone is delivered, and nothing is asked for.
abbrev pub IsPassed : RecoveryEngine → OwnedFrame → Outcome → Type 0
IsPassed e frame (r', answer) = (answer ≡ ok (frame ∷ [], none)) × (r'.recovery ≡ e)

-- The range is asked for, and the frame delivered; or the request is refused, for the length of the
-- range or for the number of outstanding requests, and nothing is.
abbrev pub IsRequested : RecoveryEngine → OwnedFrame → ℕ → ℕ → ℕ → Outcome → Type 0
IsRequested e frame from to now (r', answer) =
    ((e.config.max_replay_range < inc64 (to - from))
      × (answer ≡ err (RtdpError.protocol ErrorCode.replay_range_invalid))
      × (r'.recovery ≡ e))
    ⊎ ((e.config.max_outstanding_requests ≤ length e.outstanding_requests)
        × (answer ≡ err (RtdpError.protocol ErrorCode.backpressure))
        × (r'.recovery ≡ e))
    ⊎ ((answer
          ≡ ok (
            frame ∷ [],
            some
                (record { request_id = e.next_request_id; from_sequence = from; to_sequence = to }),
          ))
        × (lookup e.next_request_id r'.recovery.outstanding_requests
            ≡ some (new_request e.next_request_id from to now)))

-- What comes of a frame, by the mode and what the tracker says of it.
abbrev pub IsDelivered :
    DeliveryMode → SequenceStatus → RecoveryEngine → OwnedFrame → ℕ → Outcome → Type 0
IsDelivered DeliveryMode.best_effort status e frame now o = IsPassed e frame o
IsDelivered DeliveryMode.at_least_once (SequenceStatus.gap expected received from to) e frame now
      o =
    IsRequested e frame from to now o
IsDelivered DeliveryMode.at_least_once (SequenceStatus.in_order s) e frame now o =
    IsPassed e frame o
IsDelivered DeliveryMode.at_least_once (SequenceStatus.duplicate_or_old s expected) e frame now o =
    IsPassed e frame o
IsDelivered DeliveryMode.at_least_once (SequenceStatus.publisher_reset old new initial) e frame now
      o =
    IsPassed e frame o
IsDelivered DeliveryMode.latest status e frame now o = ⊥
IsDelivered DeliveryMode.reliable_ordered status e frame now o = ⊥

at_least_once_gap-IsRequested :
    (r : StreamReceiver) (frame : OwnedFrame) (from to now : ℕ)
    → IsRequested r.recovery frame from to now
        (at_least_once_gap r frame (create_replay_request r.recovery from to now))
unfolding at_least_once_gap create_replay_request lookup
at_least_once_gap-IsRequested r frame from to now =
    let e = r.recovery in
    let range = ltb e.config.max_replay_range (inc64 (to - from)) in
    let full = leb e.config.max_outstanding_requests (length e.outstanding_requests) in
    let asked = create_replay_request e from to now in
    let goal : RecoveryEngine × Result ReplayRequestPayload RtdpError → Type 0 =
      λ o. IsRequested e frame from to now (at_least_once_gap r frame o) in
    elim (Bool-cases range) [
      | inl b ↦
          let too_long : e.config.max_replay_range < inc64 (to - from) = ground arith in
          let refused : asked ≡ (e, err (RtdpError.protocol ErrorCode.replay_range_invalid)) =
            rw (create_replay_request, b) refl in
          subst goal (sym refused) (inl (too_long, refl, refl))
      | inr b ↦ elim (Bool-cases full) [
        | inl b' ↦
            let too_many : e.config.max_outstanding_requests ≤ length e.outstanding_requests =
              ground arith in
            let refused : asked ≡ (e, err (RtdpError.protocol ErrorCode.backpressure)) =
              rw (create_replay_request, b, b') refl in
            subst goal (sym refused) (inr (inl (too_many, refl, refl)))
        | inr b' ↦
            let id = e.next_request_id in
            let granted : asked ≡ (
              record e {
                next_request_id = inc64 id;
                outstanding_requests =
                    (id, new_request id from to now) ∷ remove id e.outstanding_requests;
                state = RecoveryState.recovering;
              },
              ok (record { request_id = id; from_sequence = from; to_sequence = to }),
            ) =
              rw (create_replay_request, b, b') refl in
            subst goal (sym granted) (inr (inr (refl, ground arith)))
      ]
    ]

deliver_mode-IsDelivered :
    (mode : DeliveryMode) (status : SequenceStatus) (r : StreamReceiver) (frame : OwnedFrame)
    (now : ℕ)
    → IsImmediate mode
    → IsDelivered mode status r.recovery frame now (deliver_mode mode status r frame now)
unfolding deliver_mode deliver_best_effort deliver_at_least_once
deliver_mode-IsDelivered DeliveryMode.best_effort status r frame now h = (refl, refl)
deliver_mode-IsDelivered DeliveryMode.latest status r frame now h = absurd h
deliver_mode-IsDelivered DeliveryMode.at_least_once (SequenceStatus.gap expected received from to) r
      frame now h =
    at_least_once_gap-IsRequested r frame from to now
deliver_mode-IsDelivered DeliveryMode.at_least_once (SequenceStatus.in_order s) r frame now h =
    (refl, refl)
deliver_mode-IsDelivered DeliveryMode.at_least_once (SequenceStatus.duplicate_or_old s expected) r
      frame now h =
    (refl, refl)
deliver_mode-IsDelivered DeliveryMode.at_least_once (SequenceStatus.publisher_reset old new initial)
      r frame now h =
    (refl, refl)
deliver_mode-IsDelivered DeliveryMode.reliable_ordered status r frame now h = absurd h

-- In BEST_EFFORT mode each frame that comes is delivered at once and alone, whatever its sequence,
-- and the recovery engine stays as it is. In AT_LEAST_ONCE mode the same holds of a frame before
-- which the tracker reports no gap. When it reports one, either the frame is delivered alone and
-- the range of the gap is asked for, under the next id, and outstanding from then on; or nothing
-- is delivered and the engine stays as it is, with the error REPLAY_RANGE_INVALID, and then the
-- range is longer than the limit, or BACKPRESSURE, and then as many requests are outstanding as
-- allowed.
pub process_data_frame-IsDelivered :
    (r : StreamReceiver) (frame : OwnedFrame) (now : ℕ)
    → IsImmediate r.mode
    → IsDelivered r.mode
        (observe r.tracker frame.header.publisher_id frame.header.sequence).1
        r.recovery
        frame
        now
        (process_data_frame r frame now)
unfolding process_data_frame
process_data_frame-IsDelivered r frame now h = deliver_mode-IsDelivered r.mode _ _ frame now h
