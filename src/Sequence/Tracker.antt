-- ===== src/Sequence/Tracker.antt =====
-- core/src/sequence/tracker.rs: gap detection for one stream.
pub mod Status
use real_time_data_platform.Base.{
  ℕ, ◌≡◌, Bool, true, false, Option, none, some, if◌then◌else◌, ◌==◌, ltb, inc64, dec64, not,
}

pub data SequenceStatus : Type 0 where
  in_order : ℕ → SequenceStatus
  gap : ℕ → ℕ → ℕ → ℕ → SequenceStatus
  duplicate_or_old : ℕ → ℕ → SequenceStatus
  publisher_reset : Option ℕ → ℕ → ℕ → SequenceStatus

pub record Tracker : Type 0 where
  pub stream_id : ℕ
  pub active_publisher_id : Option ℕ
  pub expected_sequence : ℕ
  pub total_gaps_detected : ℕ
  pub total_duplicates_detected : ℕ
  pub total_publisher_resets : ℕ

unfoldable pub new_tracker : ℕ → Tracker
new_tracker stream_id = record {
  stream_id = stream_id;
  active_publisher_id = none;
  expected_sequence = 1;
  total_gaps_detected = 0;
  total_duplicates_detected = 0;
  total_publisher_resets = 0;
}

-- The arm `None`: the first publisher registers.
observe_first : Tracker → ℕ → ℕ → Tracker × SequenceStatus
observe_first t publisher_id sequence =
    if sequence == 1
    then (
      record t { active_publisher_id = some publisher_id; expected_sequence = 2 },
      SequenceStatus.in_order 1,
    )
    else (
      record t {
        active_publisher_id = some publisher_id;
        expected_sequence = 1;
        total_gaps_detected = inc64 t.total_gaps_detected;
      },
      SequenceStatus.gap 1 sequence 1 (dec64 sequence),
    )

-- The arm of another publisher than the active one.
observe_reset : Tracker → ℕ → ℕ → Tracker × SequenceStatus
observe_reset t publisher_id sequence =
    if sequence == 1
    then (
      record t {
        active_publisher_id = some publisher_id;
        total_publisher_resets = inc64 t.total_publisher_resets;
        expected_sequence = 2;
      },
      SequenceStatus.publisher_reset t.active_publisher_id publisher_id 1,
    )
    else (
      record t {
        active_publisher_id = some publisher_id;
        total_publisher_resets = inc64 t.total_publisher_resets;
        expected_sequence = 1;
        total_gaps_detected = inc64 t.total_gaps_detected;
      },
      SequenceStatus.gap 1 sequence 1 (dec64 sequence),
    )

-- The arm of the active publisher.
observe_active : Tracker → ℕ → Tracker × SequenceStatus
observe_active t sequence =
    if sequence == t.expected_sequence
    then (
      record t { expected_sequence = inc64 t.expected_sequence },
      SequenceStatus.in_order sequence,
    )
    else if ltb sequence t.expected_sequence
    then (
      record t { total_duplicates_detected = inc64 t.total_duplicates_detected },
      SequenceStatus.duplicate_or_old sequence t.expected_sequence,
    )
    else (
      record t { total_gaps_detected = inc64 t.total_gaps_detected },
      SequenceStatus.gap t.expected_sequence sequence t.expected_sequence (dec64 sequence),
    )

observe_from : Option ℕ → Tracker → ℕ → ℕ → Tracker × SequenceStatus
unfolding observe_first observe_reset observe_active
observe_from none t publisher_id sequence = observe_first t publisher_id sequence
observe_from (some active_pub) t publisher_id sequence =
    if not (active_pub == publisher_id)
    then observe_reset t publisher_id sequence
    else observe_active t sequence

unfoldable pub observe : Tracker → ℕ → ℕ → Tracker × SequenceStatus
unfolding observe_from
observe t publisher_id sequence = observe_from t.active_publisher_id t publisher_id sequence

unfoldable pub advance_expected : Tracker → ℕ → Tracker
advance_expected t new_expected =
    if ltb t.expected_sequence new_expected
    then record t { expected_sequence = new_expected }
    else t
