-- ===== src/Tests/Ordered.antt =====
-- Receivers in `RELIABLE_ORDERED` and `LATEST` mode at concrete arrivals.
use real_time_data_platform.Base.{ℕ, ◌+◌, ◌≤◌, ◌≡◌, refl, true, List, [], ◌∷◌, arith, length}
use real_time_data_platform.Base.Map.{lookup, insert, remove}
use real_time_data_platform.Protocol.Frame.{OwnedFrame, new_data_frame}
use real_time_data_platform.Recovery.Data.{default_config}
use real_time_data_platform.Recovery.Engine.{buffer_frame, create_replay_request, drain_contiguous}
use real_time_data_platform.Recovery.Engine.Drain.{CountsUp}
use real_time_data_platform.Sequence.Tracker.{observe, advance_expected}
use real_time_data_platform.Sequence.Dedup.{contains, remove as remove_key, is_duplicate_and_record}
use real_time_data_platform.Delivery.Receiver.{
  DeliveryMode, StreamReceiver, new_receiver, process_data_frame, deliver_reliable, reliable_status,
  note_drained,
}
use real_time_data_platform.Delivery.Receiver.Latest.{
  Ascends, newest, frames_of, last_sequence, run-Ascends,
}
use real_time_data_platform.Base.Part.{IsPart}
use real_time_data_platform.Delivery.Receiver.Ordered.Runs.{
  run, SentBy, arrived, run-CountsUp, run_complete,
}

abbrev pub frame : ℕ → OwnedFrame
unfolding new_data_frame
frame s = new_data_frame 1 s 0 10 (s ∷ [])

-- 1, then 3, 3 again, and 2 at last.
abbrev arrivals : List (OwnedFrame × ℕ)
unfolding new_data_frame
arrivals = (frame 1, 0) ∷ (frame 3, 5) ∷ (frame 3, 6) ∷ (frame 2, 9) ∷ []

abbrev fresh : StreamReceiver
fresh = new_receiver 1 DeliveryMode.reliable_ordered default_config

arrivals-SentBy : SentBy 10 arrivals
unfolding new_data_frame
arrivals-SentBy = omega arith

all_arrived : (q : ℕ) → 1 ≤ q → q ≤ 3 → arrived q arrivals ≡ true
unfolding new_data_frame
all_arrived q lo hi = ground arith

delivers_three : length (run fresh arrivals).1 ≡ 3
unfolding run new_receiver process_data_frame new_data_frame observe deliver_reliable
    reliable_status note_drained advance_expected is_duplicate_and_record contains remove_key
    create_replay_request buffer_frame drain_contiguous lookup insert remove
delivers_three = refl

run-CountsUp_example :
    CountsUp 1 (run fresh arrivals).1
    × ((run fresh arrivals).0.tracker.expected_sequence ≡ 1 + length (run fresh arrivals).1)
unfolding new_data_frame
run-CountsUp_example = run-CountsUp 10 1 default_config arrivals arrivals-SentBy

run_complete_example : 3 ≤ length (run fresh arrivals).1
unfolding new_data_frame
run_complete_example = run_complete 10 1 3 default_config arrivals arrivals-SentBy all_arrived

abbrev fresh_latest : StreamReceiver
fresh_latest = new_receiver 1 DeliveryMode.latest default_config

run-Ascends_example :
    (let (r', delivered) = run fresh_latest arrivals in
      Ascends 0 delivered
      × IsPart delivered (frames_of arrivals)
      × (last_sequence 0 delivered ≡ newest 0 arrivals)
      × (r'.highest_delivered_sequence ≡ newest 0 arrivals))
unfolding new_receiver
run-Ascends_example = run-Ascends fresh_latest arrivals refl
