-- ===== src/Delivery/Receiver/Ordered/Gap.antt =====
-- What a gap does to an ordered receiver (core/src/delivery/modes.rs) that holds nothing back.
use real_time_data_platform.Base.{
  ℕ, ◌+◌, ◌-◌, ◌^◌, ◌≤◌, ◌<◌, ◌≡◌, inl, inr, refl, ap, ◌∙◌, false, some, [], ◌∷◌, ltb, leb, inc64,
  arith, length, Bool-cases,
}
use real_time_data_platform.Base.Map.{lookup, insert, remove}
use real_time_data_platform.Error.{ok}
use real_time_data_platform.Protocol.Frame.{OwnedFrame}
use real_time_data_platform.Sequence.Tracker.{Tracker, SequenceStatus}
use real_time_data_platform.Sequence.Dedup.{contains, is_duplicate_and_record}
use real_time_data_platform.Sequence.Dedup.Keys.{duplicate-contains}
use real_time_data_platform.Recovery.Data.{
  ActiveReplayRequest, RecoveryEngine, RecoveryState, ReplayRequestPayload,
}
use real_time_data_platform.Recovery.Engine.{new_request, buffer_frame, create_replay_request}
use real_time_data_platform.Recovery.Engine as Engine
use real_time_data_platform.Recovery.Engine.InOrder.{IsHalfway}
use real_time_data_platform.Delivery.Receiver.{
  DeliveryMode, StreamReceiver, Outcome, reliable_request, reliable_status, deliver_reliable,
  process_data_frame,
}
use real_time_data_platform.Delivery.Receiver.Ordered.{Ready, key_of, IsOrdered, observe-Ready}
use real_time_data_platform.Delivery.Receiver.Ordered.Step.{process_reliable}

-- A request for a range is accepted.
pub record Accepts (e : RecoveryEngine) (from to : ℕ) : Type 0 where
  pub in_range : to + 1 - from ≤ e.config.max_replay_range
  pub has_place : length e.outstanding_requests < e.config.max_outstanding_requests

-- The request for what is missing before a frame.
abbrev pub missing_before : StreamReceiver → OwnedFrame → ReplayRequestPayload
missing_before r frame = record {
  request_id = r.recovery.next_request_id;
  from_sequence = r.tracker.expected_sequence;
  to_sequence = frame.header.sequence - 1;
}

-- The request that the receiver records for it.
abbrev pub awaited : StreamReceiver → OwnedFrame → ℕ → ActiveReplayRequest
awaited r frame now =
    new_request r.recovery.next_request_id r.tracker.expected_sequence (frame.header.sequence - 1)
      now

-- The engine that has recorded the request, and holds the frame back.
abbrev pub awaiting : StreamReceiver → OwnedFrame → ℕ → RecoveryEngine
awaiting r frame now =
    let e = r.recovery in
    record e {
      next_request_id = inc64 e.next_request_id;
      outstanding_requests =
          (e.next_request_id, awaited r frame now)
          ∷ remove e.next_request_id e.outstanding_requests;
      state = RecoveryState.recovering;
      buffered_out_of_order = (frame.header.sequence, frame) ∷ [];
    }

create_replay_request-Accepts :
    (e : RecoveryEngine) (from to now : ℕ)
    → from ≤ to
    → to < 2 ^ 64 - 1
    → Accepts e from to
    → create_replay_request e from to now ≡ (
      record e {
        next_request_id = inc64 e.next_request_id;
        outstanding_requests =
            (e.next_request_id, new_request e.next_request_id from to now)
            ∷ remove e.next_request_id e.outstanding_requests;
        state = RecoveryState.recovering;
      },
      ok (record { request_id = e.next_request_id; from_sequence = from; to_sequence = to }),
    )
unfolding create_replay_request
create_replay_request-Accepts e from to now ordered small v =
    let range : ltb e.config.max_replay_range (inc64 (to - from)) ≡ false =
      ground (arith, v.in_range) in
    let place : leb e.config.max_outstanding_requests (length e.outstanding_requests) ≡ false =
      ground (arith, v.has_place) in
    rw (create_replay_request, range, place) refl

-- What becomes of a receiver that asks for what is missing before a frame.
pub record Asks (r : StreamReceiver) (frame : OwnedFrame) (now : ℕ) (o : Outcome) : Type 0 where
  pub answer : o.1 ≡ ok ([], some (missing_before r frame))
  pub recovery : o.0.recovery ≡ awaiting r frame now
  pub expected : o.0.tracker.expected_sequence ≡ r.tracker.expected_sequence
  pub active : o.0.tracker.active_publisher_id ≡ some frame.header.publisher_id
  pub mode : o.0.mode ≡ r.mode
  pub dedup :
      o.0.dedup
      ≡ (is_duplicate_and_record r.dedup
          (key_of r.stream_id frame.header.publisher_id frame.header.sequence)).0
  pub stream : o.0.stream_id ≡ r.stream_id

-- A receiver to which a frame is new, and behind a gap: it holds nothing back, and has room for the
-- request.
pub record IsBehind (r : StreamReceiver) (frame : OwnedFrame) : Type 0 where
  pub reliable : r.mode ≡ DeliveryMode.reliable_ordered
  pub ready : Ready r.tracker frame.header.publisher_id
  pub nothing_held : r.recovery.buffered_out_of_order ≡ []
  pub ahead : r.tracker.expected_sequence < frame.header.sequence
  pub small : frame.header.sequence < 2 ^ 64 - 1
  pub room : Accepts r.recovery r.tracker.expected_sequence (frame.header.sequence - 1)
  pub not_seen :
      contains r.dedup.recent_keys
        (key_of r.stream_id frame.header.publisher_id frame.header.sequence)
      ≡ false

pub ordered-IsBehind :
    (r : StreamReceiver) (frame : OwnedFrame)
    → IsOrdered frame.header.publisher_id r
    → r.recovery.buffered_out_of_order ≡ []
    → r.tracker.expected_sequence < frame.header.sequence
    → frame.header.sequence < 2 ^ 64 - 1
    → Accepts r.recovery r.tracker.expected_sequence (frame.header.sequence - 1)
    → IsBehind r frame
ordered-IsBehind r frame v nothing ahead small room = record {
  reliable = v.reliable;
  ready = v.ready;
  nothing_held = nothing;
  ahead = ahead;
  small = small;
  room = room;
  not_seen =
      elim (Bool-cases (
        contains r.dedup.recent_keys
          (key_of r.stream_id frame.header.publisher_id frame.header.sequence))) [
            | inl known ↦ elim (v.seen frame.header.sequence known) [
              | inl lt ↦ absurd (omega arith)
              | inr there ↦ absurd (there (rw nothing (unfold lookup in refl)))
            ]
            | inr new ↦ new
          ];
}

module _ (r : StreamReceiver) (frame : OwnedFrame) (now : ℕ) (v : IsBehind r frame) where
  requested :
      create_replay_request
        (buffer_frame r.recovery frame)
        r.tracker.expected_sequence
        (frame.header.sequence - 1)
        now
      ≡ (awaiting r frame now, ok (missing_before r frame))
  unfolding buffer_frame insert
  requested =
      create_replay_request-Accepts (buffer_frame r.recovery frame) r.tracker.expected_sequence
        (frame.header.sequence - 1) now (omega (arith, v.ahead)) (omega (arith, v.small))
        (record { in_range = v.room.in_range; has_place = v.room.has_place })
      ∙ ap
          (λ m. (
            record (awaiting r frame now) {
              buffered_out_of_order = insert frame.header.sequence frame m;
            },
            ok (missing_before r frame),
          ))
          v.nothing_held

  deliver_reliable-Asks :
      (t : Tracker)
      → t.active_publisher_id ≡ some frame.header.publisher_id
      → t.expected_sequence ≡ r.tracker.expected_sequence
      → Asks r frame now (
          deliver_reliable
            (SequenceStatus.gap r.tracker.expected_sequence frame.header.sequence
              r.tracker.expected_sequence
              (frame.header.sequence - 1))
            (record r { tracker = t })
            frame
            now)
  unfolding deliver_reliable reliable_status reliable_request
  deliver_reliable-Asks t active same =
      rw
        (
          duplicate-contains r.dedup
              (key_of r.stream_id frame.header.publisher_id frame.header.sequence),
          v.not_seen,
          requested,
        )
        (record {
          answer = refl;
          recovery = refl;
          expected = same;
          active = active;
          mode = refl;
          dedup = refl;
          stream = refl;
        })

-- The frame behind a gap is held back, and what is missing before it is asked for.
pub process-Asks :
    (r : StreamReceiver) (frame : OwnedFrame) (now : ℕ)
    → IsBehind r frame
    → Asks r frame now (process_data_frame r frame now)
process-Asks r frame now v =
    let (t, status, seen, active, cases) =
      observe-Ready r.tracker frame.header.publisher_id frame.header.sequence v.ready
        (omega (arith, v.ahead)) v.small in
    elim cases [
      | inl (here, e, next) ↦ absurd (omega (arith, v.ahead))
      | inr (inl (old, e, same)) ↦ absurd (omega (arith, v.ahead))
      | inr (inr (gap, e, same)) ↦
          rw (process_reliable r frame now t status v.reliable seen, e)
            (deliver_reliable-Asks r frame now v t active same)
    ]

-- The engine then waits for the responses.
pub awaiting-IsHalfway :
    (r : StreamReceiver) (frame : OwnedFrame) (now : ℕ)
    → r.tracker.expected_sequence < frame.header.sequence
    → IsHalfway
        (awaiting r frame now)
        r.recovery.next_request_id
        (awaited r frame now)
        r.tracker.expected_sequence
        []
        frame
unfolding lookup Engine.contains
awaiting-IsHalfway r frame now ahead = record {
  outstanding = ground arith;
  arrived = λ q lo hi. (λ h. absurd (ground arith), λ lt. absurd (omega arith));
  from_s = omega arith;
  buffer = refl;
  below = tt;
  behind = omega arith;
}
