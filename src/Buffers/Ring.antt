-- ===== src/Buffers/Ring.antt =====
-- core/src/buffers/ring.rs: the ring buffer of published frames. `usize` has 64 bits.
pub mod Retention
pub mod Contents
use real_time_data_platform.Base.{
  ℕ, zero, suc, ◌+◌, ◌-◌, ◌%◌, Bool, true, false, ◌&&◌, ◌||◌, Option, none, some, List, [], ◌∷◌,
  map, if◌then◌else◌, ◌==◌, ltb, leb, inc64, get_elem?, set, replicate,
}
use real_time_data_platform.Error.{ErrorCode, Result, ok, err}
use real_time_data_platform.Protocol.Frame.{OwnedFrame}

pub record RingBuffer : Type 0 where
  pub capacity : ℕ
  pub buffer : List (Option OwnedFrame)
  pub min_sequence : Option ℕ
  pub max_sequence : Option ℕ

-- `none` is the failed assertion "Capacity must be positive".
unfoldable pub new_ring : ℕ → Option RingBuffer
new_ring capacity =
    if ltb 0 capacity
    then some (record {
      capacity = capacity;
      buffer = replicate capacity none;
      min_sequence = none;
      max_sequence = none;
    })
    else none

-- The lowest sequence kept after `seq` was stored over `min_s`. Neither difference wraps.
abbrev pub advance_min : ℕ → ℕ → ℕ → ℕ
advance_min capacity min_s seq =
    if ltb min_s seq && leb capacity (seq - min_s) then seq - capacity + 1 else min_s

bounds_after_push : RingBuffer → ℕ → Option ℕ → RingBuffer
bounds_after_push r seq none = record r { min_sequence = some seq; max_sequence = some seq }
bounds_after_push r seq (some min_s) = record r {
  max_sequence = some seq;
  min_sequence = some (advance_min r.capacity min_s seq);
}

unfoldable pub push : RingBuffer → OwnedFrame → RingBuffer
unfolding bounds_after_push
push r frame =
    let seq = frame.header.sequence in
    let stored = record r { buffer = set r.buffer (seq % r.capacity) (some frame) } in
    bounds_after_push stored seq r.min_sequence

-- The slot's frame, if it holds the sequence asked for.
slot_frame : Option (Option OwnedFrame) → ℕ → Option OwnedFrame
slot_frame (some (some frame)) sequence =
    if frame.header.sequence == sequence then some frame else none
slot_frame (some none) sequence = none
slot_frame none sequence = none

get_within : RingBuffer → Option ℕ → Option ℕ → ℕ → Option OwnedFrame
unfolding slot_frame
get_within r none max_s sequence = none
get_within r (some min_s) none sequence = none
get_within r (some min_s) (some max_s) sequence =
    if ltb sequence min_s || ltb max_s sequence
    then none
    else slot_frame (get_elem? r.buffer (sequence % r.capacity)) sequence

unfoldable pub get : RingBuffer → ℕ → Option OwnedFrame
unfolding get_within
get r sequence = get_within r r.min_sequence r.max_sequence sequence

abbrev pub RangeError : Type 0
RangeError = ErrorCode × ℕ × ℕ

push_front :
    Option OwnedFrame
    → ℕ
    → Result (List OwnedFrame) RangeError
    → Result (List OwnedFrame) RangeError
push_front none seq rest = err (ErrorCode.replay_unavailable, seq, seq)
push_front (some frame) seq (ok frames) = ok (frame ∷ frames)
push_front (some frame) seq (err e) = err e

-- `for seq in from..=to`, as many rounds as the range has sequences.
unfoldable pub collect : RingBuffer → ℕ → ℕ → Result (List OwnedFrame) RangeError
unfolding push_front
collect r zero seq = ok []
collect r (suc rounds) seq = push_front (get r seq) seq (collect r rounds (seq + 1))

abbrev or_zero : Option ℕ → ℕ
or_zero none = 0
or_zero (some n) = n

-- For `from_seq ≤ to_seq`, as `ReplayRequestPayload::decode` grants: beyond that the source
-- asks for a vector of a wrapped-around capacity.
unfoldable pub get_range : RingBuffer → ℕ → ℕ → Result (List OwnedFrame) RangeError
get_range r from_seq to_seq =
    let min_s = or_zero r.min_sequence in
    let max_s = or_zero r.max_sequence in
    if ltb from_seq min_s
    then err (ErrorCode.replay_unavailable, from_seq, min_s - 1)
    else if ltb max_s to_seq
    then err (ErrorCode.replay_unavailable, inc64 max_s, to_seq)
    else collect r (to_seq + 1 - from_seq) from_seq

unfoldable pub clear : RingBuffer → RingBuffer
clear r = record r { buffer = map (λ _. none) r.buffer; min_sequence = none; max_sequence = none }
