-- ===== src/Delivery/Receiver.antt =====
-- core/src/delivery/modes.rs: the receiver of one stream. `now` is the time that a replay request
-- created on the way is stamped with.
pub mod Ordered
pub mod Latest
pub mod Sources
pub mod Every
use Prim.Native.Nat.{max}
use real_time_data_platform.Base.{
  ℕ, Bool, true, false, Option, none, some, List, [], ◌∷◌, if◌then◌else◌, ltb, inc64,
}
use real_time_data_platform.Error.{RtdpError, Result, ok, err}
use real_time_data_platform.Protocol.Frame.{OwnedFrame}
use real_time_data_platform.Sequence.Tracker.{
  Tracker, SequenceStatus, new_tracker, observe, advance_expected,
}
use real_time_data_platform.Sequence.Dedup.{
  DuplicateFilter, DuplicateKey, new_filter, is_duplicate_and_record,
}
use real_time_data_platform.Recovery.Data.{RecoveryConfig, RecoveryEngine, ReplayRequestPayload}
use real_time_data_platform.Recovery.Engine.{
  new_engine, buffer_frame, create_replay_request, drain_contiguous, reset,
}

pub data DeliveryMode : Type 0 where
  best_effort latest at_least_once reliable_ordered : DeliveryMode

pub record StreamReceiver : Type 0 where
  pub stream_id : ℕ
  pub mode : DeliveryMode
  pub tracker : Tracker
  pub dedup : DuplicateFilter
  pub recovery : RecoveryEngine
  pub highest_delivered_sequence : ℕ

-- The frames for the application, and the replay request to send.
abbrev pub Delivery : Type 0
Delivery = List OwnedFrame × Option ReplayRequestPayload

abbrev pub Outcome : Type 0
Outcome = StreamReceiver × Result Delivery RtdpError

unfoldable pub new_receiver : ℕ → DeliveryMode → RecoveryConfig → StreamReceiver
unfolding new_tracker new_filter new_engine
new_receiver stream_id mode recovery_config = record {
  stream_id = stream_id;
  mode = mode;
  tracker = new_tracker stream_id;
  dedup = new_filter 10_000;
  recovery = new_engine recovery_config;
  highest_delivered_sequence = 0;
}

-- The arm `DeliveryMode::BestEffort`.
unfoldable pub deliver_best_effort : StreamReceiver → OwnedFrame → Outcome
deliver_best_effort r frame = (
  record r { highest_delivered_sequence = max r.highest_delivered_sequence frame.header.sequence },
  ok (frame ∷ [], none),
)

-- The arm `DeliveryMode::Latest`.
unfoldable pub deliver_latest : StreamReceiver → OwnedFrame → Outcome
deliver_latest r frame =
    if ltb r.highest_delivered_sequence frame.header.sequence
    then (record r { highest_delivered_sequence = frame.header.sequence }, ok (frame ∷ [], none))
    else (r, ok ([], none))

-- A gap in `AT_LEAST_ONCE`: `?` returns early when the request is refused.
unfoldable pub at_least_once_gap :
    StreamReceiver → OwnedFrame → RecoveryEngine × Result ReplayRequestPayload RtdpError → Outcome
at_least_once_gap r frame (engine, ok request) = (
  record r {
    recovery = engine;
    highest_delivered_sequence = max r.highest_delivered_sequence frame.header.sequence;
  },
  ok (frame ∷ [], some request),
)
at_least_once_gap r frame (engine, err e) = (record r { recovery = engine }, err e)

-- The arm `DeliveryMode::AtLeastOnce`.
unfoldable pub deliver_at_least_once : SequenceStatus → StreamReceiver → OwnedFrame → ℕ → Outcome
unfolding at_least_once_gap
deliver_at_least_once (SequenceStatus.in_order sequence) r frame now = (
  record r { highest_delivered_sequence = max r.highest_delivered_sequence sequence },
  ok (frame ∷ [], none),
)
deliver_at_least_once (SequenceStatus.gap expected received from to) r frame now =
    at_least_once_gap r frame (create_replay_request r.recovery from to now)
deliver_at_least_once (SequenceStatus.duplicate_or_old sequence expected) r frame now =
    (r, ok (frame ∷ [], none))
deliver_at_least_once (SequenceStatus.publisher_reset old new initial_sequence) r frame now =
    (record r { highest_delivered_sequence = initial_sequence }, ok (frame ∷ [], none))

-- `for c in contiguous`: what the loop does to the receiver.
unfoldable pub note_drained : StreamReceiver → List OwnedFrame → StreamReceiver
note_drained r [] = r
note_drained r (c ∷ cs) =
    let c_seq = c.header.sequence in
    note_drained
      (record r {
        highest_delivered_sequence = c_seq;
        tracker = advance_expected r.tracker (inc64 c_seq);
      })
      cs

unfoldable pub reliable_in_order : StreamReceiver → OwnedFrame → ℕ → Outcome
reliable_in_order r frame sequence =
    let (engine, contiguous) = drain_contiguous r.recovery (inc64 sequence) in
    let r' = record r { highest_delivered_sequence = sequence; recovery = engine } in
    (note_drained r' contiguous, ok (frame ∷ contiguous, none))

unfoldable pub reliable_request :
    StreamReceiver → RecoveryEngine × Result ReplayRequestPayload RtdpError → Outcome
reliable_request r (engine, ok request) = (record r { recovery = engine }, ok ([], some request))
reliable_request r (engine, err e) = (record r { recovery = engine }, err e)

-- The `match status` of `DeliveryMode::ReliableOrdered`.
unfoldable pub reliable_status : SequenceStatus → StreamReceiver → OwnedFrame → ℕ → Outcome
unfolding reliable_in_order reliable_request
reliable_status (SequenceStatus.in_order sequence) r frame now = reliable_in_order r frame sequence
reliable_status (SequenceStatus.gap expected received from to) r frame now =
    reliable_request r (create_replay_request (buffer_frame r.recovery frame) from to now)
reliable_status (SequenceStatus.duplicate_or_old sequence expected) r frame now = (r, ok ([], none))
reliable_status (SequenceStatus.publisher_reset old new initial_sequence) r frame now = (
  record r { recovery = reset r.recovery; highest_delivered_sequence = initial_sequence },
  ok (frame ∷ [], none),
)

-- The arm `DeliveryMode::ReliableOrdered`.
unfoldable pub deliver_reliable : SequenceStatus → StreamReceiver → OwnedFrame → ℕ → Outcome
deliver_reliable status r frame now =
    let key : DuplicateKey = record {
      stream_id = r.stream_id;
      publisher_id = frame.header.publisher_id;
      sequence = frame.header.sequence;
    } in
    let (filter, duplicate) = is_duplicate_and_record r.dedup key in
    let r' = record r { dedup = filter } in
    if duplicate then (r', ok ([], none)) else reliable_status status r' frame now

unfoldable pub deliver_mode :
    DeliveryMode → SequenceStatus → StreamReceiver → OwnedFrame → ℕ → Outcome
deliver_mode DeliveryMode.best_effort status r frame now = deliver_best_effort r frame
deliver_mode DeliveryMode.latest status r frame now = deliver_latest r frame
deliver_mode DeliveryMode.at_least_once status r frame now =
    deliver_at_least_once status r frame now
deliver_mode DeliveryMode.reliable_ordered status r frame now = deliver_reliable status r frame now

unfoldable pub process_data_frame : StreamReceiver → OwnedFrame → ℕ → Outcome
unfolding deliver_mode
process_data_frame r frame now =
    let (tracker, status) = observe r.tracker frame.header.publisher_id frame.header.sequence in
    deliver_mode r.mode status (record r { tracker = tracker }) frame now
