-- ===== src/Delivery/Receiver/Ordered.antt =====
-- `RELIABLE_ORDERED` with one publisher: what a receiver has delivered, and what it still owes.
pub mod Cases
pub mod Step
pub mod Runs
pub mod Gap
pub mod Next
use real_time_data_platform.Base.{
  ℕ, zero, suc, ◌+◌, ◌-◌, ◌^◌, ◌≤◌, ◌<◌, ◌≡◌, ◌≢◌, ◌⊎◌, inl, inr, refl, sym, ap, ◌∙◌, Bool, true,
  false, Option, none, some, List, [], ◌∷◌, ◌++◌, if◌then◌else◌, ◌==◌, inc64, arith, length,
  length-append, Bool-cases,
}
use real_time_data_platform.Base.Map.{lookup, insert, lookup-insert, Entries, insert-Entries}
use real_time_data_platform.Error.{RtdpError, Result, ok, err}
use real_time_data_platform.Protocol.Frame.{OwnedFrame}
use real_time_data_platform.Sequence.Tracker.{Tracker, SequenceStatus, observe, advance_expected}
use real_time_data_platform.Sequence.Dedup.{
  DuplicateFilter, DuplicateKey, key_eq, contains, is_duplicate_and_record,
}
use real_time_data_platform.Sequence.Dedup.Keys.{contains-record, duplicate-contains}
use real_time_data_platform.Recovery.Data.{RecoveryEngine, ReplayRequestPayload}
use real_time_data_platform.Recovery.Engine.{buffer_frame, create_replay_request, drain_contiguous}
use real_time_data_platform.Recovery.Engine.Drain.{
  Keyed, CountsUp, Drained, drain_contiguous-Drained,
}
use real_time_data_platform.Delivery.Receiver.{
  DeliveryMode, StreamReceiver, Delivery, Outcome, note_drained, reliable_status, deliver_reliable,
  process_data_frame,
}

-- The publisher `p` is the active one, or the first one to come.
abbrev pub Ready : Tracker → ℕ → Type 0
Ready t p =
    (t.active_publisher_id ≡ some p) ⊎ ((t.active_publisher_id ≡ none) × (t.expected_sequence ≡ 1))

-- The sequence `q` was delivered (it is below `e`), or it waits in the buffer `m`.
abbrev pub Accounted : ℕ → List (ℕ × OwnedFrame) → ℕ → Type 0
Accounted e m q = (q < e) ⊎ (lookup q m ≢ none)

abbrev pub key_of : ℕ → ℕ → ℕ → DuplicateKey
key_of stream p q = record { stream_id = stream; publisher_id = p; sequence = q }

pub record IsOrdered (p : ℕ) (r : StreamReceiver) : Type 0 where
  pub reliable : r.mode ≡ DeliveryMode.reliable_ordered
  pub ready : Ready r.tracker p
  pub bounded : r.tracker.expected_sequence ≤ 2 ^ 64 - 1
  pub keyed : Entries Keyed r.recovery.buffered_out_of_order
  pub waiting : lookup r.tracker.expected_sequence r.recovery.buffered_out_of_order ≡ none
  pub seen :
      (q : ℕ)
      → contains r.dedup.recent_keys (key_of r.stream_id p q) ≡ true
      → Accounted r.tracker.expected_sequence r.recovery.buffered_out_of_order q

-- The frames that the application gets from a call.
abbrev pub delivered : Result Delivery RtdpError → List OwnedFrame
delivered (ok (frames, request)) = frames
delivered (err e) = []

-- What a call on a frame with sequence `s` does to an ordered receiver.
pub record Delivers (p : ℕ) (r : StreamReceiver) (s : ℕ) (o : Outcome) : Type 0 where
  pub inv : IsOrdered p o.0
  pub counts : CountsUp r.tracker.expected_sequence (delivered o.1)
  pub grows : o.0.tracker.expected_sequence ≡ r.tracker.expected_sequence + length (delivered o.1)
  pub keeps :
      (q : ℕ)
      → Accounted r.tracker.expected_sequence r.recovery.buffered_out_of_order q
      → Accounted o.0.tracker.expected_sequence o.0.recovery.buffered_out_of_order q
  pub takes : Accounted o.0.tracker.expected_sequence o.0.recovery.buffered_out_of_order s

-- The tracker `t'` and the status that `t` comes to at the sequence `s`.
abbrev pub Observed : Tracker → ℕ → Tracker → SequenceStatus → Type 0
Observed t s t' status =
    ((s ≡ t.expected_sequence)
      × (status ≡ SequenceStatus.in_order s)
      × (t'.expected_sequence ≡ s + 1))
    ⊎ ((s < t.expected_sequence)
        × (status ≡ SequenceStatus.duplicate_or_old s t.expected_sequence)
        × (t'.expected_sequence ≡ t.expected_sequence))
    ⊎ ((t.expected_sequence < s)
        × (status ≡ SequenceStatus.gap t.expected_sequence s t.expected_sequence (s - 1))
        × (t'.expected_sequence ≡ t.expected_sequence))

-- The tracker, for a frame of the publisher `p`.
pub observe-Ready :
    (t : Tracker) (p s : ℕ)
    → Ready t p
    → 1 ≤ s
    → s < 2 ^ 64 - 1
    → (t' : Tracker) × (status : SequenceStatus) × (observe t p s ≡ (t', status))
      × (t'.active_publisher_id ≡ some p)
      × Observed t s t' status
observe-Ready t p s h lo hi = (
  (observe t p s).0,
  (observe t p s).1,
  refl,
  unfold observe in ground arith,
  unfold observe in ground arith,
)

-- The receiver after one round of the loop over the drained frames.
abbrev advanced : StreamReceiver → ℕ → StreamReceiver
advanced r seq = record r {
  highest_delivered_sequence = seq;
  tracker = record (r.tracker) { expected_sequence = seq + 1 };
}

note_drained_step :
    (r : StreamReceiver) (c : OwnedFrame) (cs : List OwnedFrame)
    → c.header.sequence ≡ r.tracker.expected_sequence
    → r.tracker.expected_sequence < 2 ^ 64 - 1
    → note_drained r (c ∷ cs) ≡ note_drained (advanced r c.header.sequence) cs
unfolding note_drained
note_drained_step r c cs h k =
    let e : advance_expected r.tracker (inc64 c.header.sequence)
        ≡ record (r.tracker) { expected_sequence = c.header.sequence + 1 } =
      unfold advance_expected in ground arith in
    rw e

-- The loop over the drained frames moves the expected sequence behind the last of them.
pub note_drained_lem :
    (r : StreamReceiver) (cs : List OwnedFrame)
    → CountsUp r.tracker.expected_sequence cs
    → r.tracker.expected_sequence + length cs ≤ 2 ^ 64 - 1
    → let r' = note_drained r cs in
      (r'.tracker.expected_sequence ≡ r.tracker.expected_sequence + length cs)
      × (r'.tracker.active_publisher_id ≡ r.tracker.active_publisher_id)
      × (r'.dedup ≡ r.dedup)
      × (r'.recovery ≡ r.recovery)
      × (r'.mode ≡ r.mode)
      × (r'.stream_id ≡ r.stream_id)
note_drained_lem r [] h k = unfold note_drained in (omega arith, refl, refl, refl, refl, refl)
note_drained_lem r (c ∷ cs) (h, hs) k =
    let r' = advanced r c.header.sequence in
    let e : r'.tracker.expected_sequence ≡ r.tracker.expected_sequence + 1 = omega arith in
    let (a, b, d, f, g, i) = note_drained_lem r' cs (rw h hs) (omega arith) in
    rw (note_drained_step r c cs h (omega arith)) (omega (arith, a), b, d, f, g, i)
