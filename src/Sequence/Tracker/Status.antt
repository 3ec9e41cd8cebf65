-- ===== src/Sequence/Tracker/Status.antt =====
-- What `observe` reports, against the sequence numbers that the receiver is waiting for.
use real_time_data_platform.Base.{ℕ, ◌+◌, ◌-◌, ◌^◌, ◌<◌, ◌≡◌, ◌⊎◌, Option, none, some, arith}
use real_time_data_platform.Sequence.Tracker.{Tracker, SequenceStatus, observe}

-- The sequence that a frame of the publisher is measured against: the expected one for the
-- active publisher, and 1 for a publisher that is new to the tracker.
abbrev pub baseline : Option ℕ → ℕ → ℕ → ℕ
baseline none expected publisher_id = 1
baseline (some p) expected publisher_id = expected

module _ (t : Tracker) (p s : ℕ) (active : t.active_publisher_id ≡ some p) where
  pub observe_expected :
      s < 2 ^ 64 - 1
      → s ≡ t.expected_sequence
      → observe t p s ≡ (record t { expected_sequence = s + 1 }, SequenceStatus.in_order s)
  unfolding observe
  observe_expected small h = ground arith

  pub observe_old :
      s < t.expected_sequence
      → ((observe t p s).1 ≡ SequenceStatus.duplicate_or_old s t.expected_sequence)
        × ((observe t p s).0.expected_sequence ≡ t.expected_sequence)
        × ((observe t p s).0.active_publisher_id ≡ some p)
  unfolding observe
  observe_old h = ground arith

  pub observe_ahead :
      t.expected_sequence < s
      → s < 2 ^ 64
      → ((observe t p s).1 ≡ SequenceStatus.gap t.expected_sequence s t.expected_sequence (s - 1))
        × ((observe t p s).0.expected_sequence ≡ t.expected_sequence)
        × ((observe t p s).0.active_publisher_id ≡ some p)
  unfolding observe
  observe_ahead h small = ground arith

-- A sequence of the active publisher, below 2^64 - 1, is in order when it is the expected one, old
-- when it is smaller, and shows the gap in between when it is greater; only a sequence in order
-- moves what is expected.
pub observe_branches :
    (t : Tracker) (p s : ℕ)
    → t.active_publisher_id ≡ some p
    → s < 2 ^ 64 - 1
    → (let (t', status) = observe t p s in
        ((s ≡ t.expected_sequence)
          × (status ≡ SequenceStatus.in_order s)
          × (t'.expected_sequence ≡ s + 1)
          × (t'.active_publisher_id ≡ some p))
        ⊎ ((s < t.expected_sequence)
            × (status ≡ SequenceStatus.duplicate_or_old s t.expected_sequence)
            × (t'.expected_sequence ≡ t.expected_sequence)
            × (t'.active_publisher_id ≡ some p))
        ⊎ ((t.expected_sequence < s)
            × (status ≡ SequenceStatus.gap t.expected_sequence s t.expected_sequence (s - 1))
            × (t'.expected_sequence ≡ t.expected_sequence)
            × (t'.active_publisher_id ≡ some p)))
unfolding observe
observe_branches t p s active small = ground arith
