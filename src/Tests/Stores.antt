-- ===== src/Tests/Stores.antt =====
-- The ring of frames and the duplicate filter at concrete inputs.
use real_time_data_platform.Base.{ℕ, ◌+◌, ◌-◌, ◌≡◌, refl, none, [], ◌∷◌, arith, ltb, if◌then◌else◌}
use real_time_data_platform.Error.{ErrorCode, ok, err}
use real_time_data_platform.Protocol.Frame.{OwnedFrame, new_data_frame}
use real_time_data_platform.Buffers.Ring.{RingBuffer, new_ring, push, get_range}
use real_time_data_platform.Buffers.Ring.Retention.{
  Holds, oldest, published, push_upto, push_upto-Holds, get_range-Holds,
}
use real_time_data_platform.Sequence.Dedup.{
  DuplicateKey, DuplicateFilter, new_filter, is_duplicate_and_record,
}
use real_time_data_platform.Sequence.Dedup.Window.{new_filter-IsValid, Records, record_refines}

abbrev frame : ℕ → OwnedFrame
frame s = new_data_frame 1 s 0 10 (s ∷ [])

stamped : (s : ℕ) → (frame s).header.sequence ≡ s
unfolding new_data_frame
stamped s = refl

abbrev empty_ring : RingBuffer
empty_ring = record {
  capacity = 3;
  buffer = none ∷ none ∷ none ∷ [];
  min_sequence = none;
  max_sequence = none;
}

-- Five frames through three slots.
push_upto-Holds_example : Holds frame 1 (1 + 4) (push_upto frame empty_ring 1 4)
unfolding new_ring
push_upto-Holds_example = push_upto-Holds frame stamped 3 1 4 empty_ring refl

five_pushed : Holds frame 1 5 (push_upto frame empty_ring 1 4)
unfolding new_ring
five_pushed = push_upto-Holds frame stamped 3 1 4 empty_ring refl

get_range-Holds_example : get_range (push_upto frame empty_ring 1 4) 3 4 ≡ (
    if ltb 3 (oldest 3 1 5)
    then err (ErrorCode.replay_unavailable, 3, oldest 3 1 5 - 1)
    else if ltb 5 4
    then err (ErrorCode.replay_unavailable, 5 + 1, 4)
    else ok (published frame 2 3))
unfolding push_upto push new_data_frame
get_range-Holds_example =
    get_range-Holds frame stamped 1 5 (push_upto frame empty_ring 1 4) 3 4 five_pushed (omega arith)
      (omega arith)

abbrev filter_of_two : DuplicateFilter
filter_of_two = record { recent_keys = []; ring_history = []; head = 0; capacity = 2 }

abbrev first_key : DuplicateKey
first_key = record { stream_id = 1; publisher_id = 10; sequence = 1 }

record_refines_example :
    Records filter_of_two first_key (is_duplicate_and_record filter_of_two first_key)
unfolding new_filter
record_refines_example = record_refines filter_of_two first_key (new_filter-IsValid 2 (omega arith))
