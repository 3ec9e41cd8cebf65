-- ===== src/Recovery/Engine.antt =====
-- core/src/recovery/engine.rs: the operations of the recovery engine. `Instant::now()` is the
-- argument `now`.
pub mod Drain
pub mod Invariant
pub mod Replay
pub mod Timeouts
pub mod Pending
pub mod Sources
pub mod Completion
pub mod InOrder
use real_time_data_platform.Base.{
  ℕ, zero, suc, ◌+◌, ◌-◌, Bool, true, false, ◌&&◌, ◌||◌, not, Option, none, some, List, [], ◌∷◌,
  ◌++◌, if◌then◌else◌, ◌==◌, ltb, leb, inc64, length,
}
use real_time_data_platform.Base.Map.{lookup, insert, remove, update, values}
use real_time_data_platform.Error.{ErrorCode, RtdpError, Result, ok, err}
use real_time_data_platform.Protocol.Frame.{OwnedFrame}
use real_time_data_platform.Recovery.Data.{
  ReplayRequestPayload, ReplayUnavailablePayload, RecoveryState, ActiveReplayRequest,
  RecoveryConfig, RecoveryEngine,
}

unfoldable pub new_engine : RecoveryConfig → RecoveryEngine
new_engine config = record {
  config = config;
  state = RecoveryState.live;
  next_request_id = 1;
  outstanding_requests = [];
  buffered_out_of_order = [];
}

unfoldable pub buffer_frame : RecoveryEngine → OwnedFrame → RecoveryEngine
buffer_frame e frame = record e {
  buffered_out_of_order = insert frame.header.sequence frame e.buffered_out_of_order;
}

-- The request that `create_replay_request` records.
abbrev pub new_request : ℕ → ℕ → ℕ → ℕ → ActiveReplayRequest
new_request request_id from_sequence to_sequence now = record {
  request_id = request_id;
  from_sequence = from_sequence;
  to_sequence = to_sequence;
  created_at = now;
  last_sent_at = now;
  retries_attempted = 0;
  received_sequences = [];
}

unfoldable pub create_replay_request :
    RecoveryEngine → ℕ → ℕ → ℕ → RecoveryEngine × Result ReplayRequestPayload RtdpError
create_replay_request e from_sequence to_sequence now =
    if ltb e.config.max_replay_range (inc64 (to_sequence - from_sequence))
    then (e, err (RtdpError.protocol ErrorCode.replay_range_invalid))
    else if leb e.config.max_outstanding_requests (length e.outstanding_requests)
    then (e, err (RtdpError.protocol ErrorCode.backpressure))
    else (
      record e {
        next_request_id = inc64 e.next_request_id;
        outstanding_requests =
            (e.next_request_id, new_request e.next_request_id from_sequence to_sequence now)
            ∷ remove e.next_request_id e.outstanding_requests;
        state = RecoveryState.recovering;
      },
      ok (record {
        request_id = e.next_request_id;
        from_sequence = from_sequence;
        to_sequence = to_sequence;
      }),
    )

-- `Vec<u64>::contains`
unfoldable pub contains : List ℕ → ℕ → Bool
contains [] s = false
contains (x ∷ xs) s = x == s || contains xs s

unfoldable pub note_received : ActiveReplayRequest → ℕ → ActiveReplayRequest
note_received req seq =
    if leb req.from_sequence seq
      && leb seq req.to_sequence
      && not (contains req.received_sequences seq)
    then record req { received_sequences = req.received_sequences ++ seq ∷ [] }
    else req

-- `for s in from..=to`, as many rounds as the range has sequences.
unfoldable pub all_received : List ℕ → ℕ → ℕ → Bool
all_received received zero s = true
all_received received (suc rounds) s = contains received s && all_received received rounds (s + 1)

unfoldable pub all_arrived : ActiveReplayRequest → Bool
all_arrived req =
    all_received req.received_sequences (req.to_sequence + 1 - req.from_sequence) req.from_sequence

unfoldable pub drain_buffered : RecoveryEngine → RecoveryEngine × List OwnedFrame
drain_buffered e = (record e { buffered_out_of_order = [] }, values e.buffered_out_of_order)

is_empty : List (ℕ × ActiveReplayRequest) → Bool
is_empty [] = true
is_empty (x ∷ xs) = false

-- What follows the removal of a request whose range has arrived.
complete_request : RecoveryEngine → ℕ → RecoveryEngine × Result (Option (List OwnedFrame)) RtdpError
unfolding is_empty drain_buffered
complete_request e request_id =
    let rest = remove request_id e.outstanding_requests in
    let closed = record e {
      outstanding_requests = rest;
      state = if is_empty rest then RecoveryState.live else e.state;
    } in
    let (drained, frames) = drain_buffered closed in (drained, ok (some frames))

-- The body of the `if let Some(req)`.
respond :
    RecoveryEngine
    → ℕ
    → OwnedFrame
    → ActiveReplayRequest
    → RecoveryEngine × Result (Option (List OwnedFrame)) RtdpError
unfolding complete_request
respond e request_id frame req =
    let seq = frame.header.sequence in
    let noted = note_received req seq in
    let buffered = record e {
      outstanding_requests = update request_id noted e.outstanding_requests;
      buffered_out_of_order = insert seq frame e.buffered_out_of_order;
    } in
    if all_arrived noted then complete_request buffered request_id else (buffered, ok none)

respond_to :
    Option ActiveReplayRequest
    → RecoveryEngine
    → ℕ
    → OwnedFrame
    → RecoveryEngine × Result (Option (List OwnedFrame)) RtdpError
unfolding respond
respond_to none e request_id frame = (e, ok none)
respond_to (some req) e request_id frame = respond e request_id frame req

unfoldable pub handle_replay_response :
    RecoveryEngine → ℕ → OwnedFrame → RecoveryEngine × Result (Option (List OwnedFrame)) RtdpError
unfolding respond_to
handle_replay_response e request_id frame =
    respond_to (lookup request_id e.outstanding_requests) e request_id frame

unfoldable pub handle_replay_unavailable :
    RecoveryEngine → ReplayUnavailablePayload → RecoveryEngine × Result (Unit {0}) RtdpError
handle_replay_unavailable e unavail = (
  record e {
    outstanding_requests = remove unavail.request_id e.outstanding_requests;
    state = RecoveryState.recovery_failed;
  },
  err (RtdpError.unrecoverable_gap unavail.first_unavailable unavail.last_unavailable),
)

-- The vectors `retries` and `failed` of `check_timeouts`, with the requests as the loop leaves them.
pub record Sweep : Type 0 where
  pub requests : List (ℕ × ActiveReplayRequest)
  pub retries : List ReplayRequestPayload
  pub failed : List (ℕ × ℕ × ℕ)

-- One round of the loop over the requests, before those that follow.
unfoldable pub sweep_one : RecoveryConfig → ℕ → ℕ → ActiveReplayRequest → Sweep → Sweep
sweep_one config now req_id req s =
    if leb config.retry_timeout (now - req.last_sent_at)
    then (if leb config.max_retries req.retries_attempted
        then record s {
          requests = (req_id, req) ∷ s.requests;
          failed = (req_id, req.from_sequence, req.to_sequence) ∷ s.failed;
        }
        else record s {
          requests =
              (
                req_id,
                record req { retries_attempted = req.retries_attempted + 1; last_sent_at = now },
              )
              ∷ s.requests;
          retries =
              record {
                request_id = req_id;
                from_sequence = req.from_sequence;
                to_sequence = req.to_sequence;
              }
              ∷ s.retries;
        })
    else record s { requests = (req_id, req) ∷ s.requests }

unfoldable pub sweep : RecoveryConfig → ℕ → List (ℕ × ActiveReplayRequest) → Sweep
unfolding sweep_one
sweep config now [] = record { requests = []; retries = []; failed = [] }
sweep config now ((req_id, req) ∷ rest) = sweep_one config now req_id req (sweep config now rest)

-- The loop over `failed` returns in its first round.
first_failure :
    RecoveryEngine
    → List (ℕ × ℕ × ℕ)
    → List ReplayRequestPayload
    → RecoveryEngine × Result (List ReplayRequestPayload) RtdpError
first_failure e [] retries = (e, ok retries)
first_failure e ((req_id, from_s, to_s) ∷ rest) retries = (
  record e {
    outstanding_requests = remove req_id e.outstanding_requests;
    state = RecoveryState.recovery_failed;
  },
  err (RtdpError.unrecoverable_gap from_s to_s),
)

unfoldable pub check_timeouts :
    RecoveryEngine → ℕ → RecoveryEngine × Result (List ReplayRequestPayload) RtdpError
unfolding first_failure
check_timeouts e now =
    let s = sweep e.config now e.outstanding_requests in
    first_failure (record e { outstanding_requests = s.requests }) s.failed s.retries

-- `while let Some(frame) = buffered.remove(&current)`, with the map that is left.
unfoldable pub drain_loop : ℕ → ℕ → List (ℕ × OwnedFrame) → List OwnedFrame × List (ℕ × OwnedFrame)
drain_loop zero current m = ([], m)
drain_loop (suc fuel) current m = elim (lookup current m) [
  | none ↦ ([], m)
  | some frame ↦
      let (rest, left) = drain_loop fuel (inc64 current) (remove current m) in (frame ∷ rest, left)
]

-- Each round takes a frame out, so that many rounds are enough (`Drain`).
unfoldable pub drain_contiguous : RecoveryEngine → ℕ → RecoveryEngine × List OwnedFrame
unfolding drain_loop
drain_contiguous e start_seq =
    let m = e.buffered_out_of_order in
    let (frames, left) = drain_loop (length m) start_seq m in
    (record e { buffered_out_of_order = left }, frames)

unfoldable pub reset : RecoveryEngine → RecoveryEngine
reset e = record e {
  state = RecoveryState.live;
  outstanding_requests = [];
  buffered_out_of_order = [];
}
