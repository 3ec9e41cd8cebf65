-- ===== src/Delivery/Receiver/Ordered/Step.antt =====
-- One call of `process_data_frame` on an ordered receiver, on every branch.
use real_time_data_platform.Base.{
  ℕ, ◌+◌, ◌-◌, ◌^◌, ◌≤◌, ◌<◌, ◌≡◌, inl, inr, refl, subst, ap, ◌∙◌, true, false, none, some, [],
  inc64, arith, Bool-cases,
}
use real_time_data_platform.Base.Map.{insert}
use real_time_data_platform.Error.{RtdpError, Result, ok, err}
use real_time_data_platform.Protocol.Frame.{OwnedFrame}
use real_time_data_platform.Sequence.Tracker.{Tracker, SequenceStatus, observe}
use real_time_data_platform.Sequence.Dedup.{
  DuplicateFilter, DuplicateKey, contains, is_duplicate_and_record,
}
use real_time_data_platform.Sequence.Dedup.Keys.{duplicate-contains}
use real_time_data_platform.Recovery.Data.{RecoveryEngine, ReplayRequestPayload}
use real_time_data_platform.Recovery.Engine.{buffer_frame, create_replay_request, drain_contiguous}
use real_time_data_platform.Recovery.Engine.Drain.{drain_contiguous-Drained}
use real_time_data_platform.Delivery.Receiver.{
  DeliveryMode, StreamReceiver, reliable_request, reliable_status, deliver_mode, deliver_reliable,
  process_data_frame,
}
use real_time_data_platform.Delivery.Receiver.Ordered.{
  Observed, Accounted, key_of, IsOrdered, Delivers, observe-Ready,
}
use real_time_data_platform.Delivery.Receiver.Ordered.Cases.{
  unchanged, buffered, in_order, seen_after,
}

buffer-create_replay_request :
    (e : RecoveryEngine) (from to now : ℕ)
    → (create_replay_request e from to now).0.buffered_out_of_order ≡ e.buffered_out_of_order
unfolding create_replay_request
buffer-create_replay_request e from to now = ground arith

module _ (r : StreamReceiver) (frame : OwnedFrame) (v : IsOrdered frame.header.publisher_id r)
    (small : frame.header.sequence < 2 ^ 64 - 1) (t : Tracker)
    (active : t.active_publisher_id ≡ some frame.header.publisher_id) where
  abbrev publisher : ℕ
  publisher = frame.header.publisher_id

  abbrev key : DuplicateKey
  key = key_of r.stream_id publisher frame.header.sequence

  abbrev filter : DuplicateFilter
  filter = (is_duplicate_and_record r.dedup key).0

  -- The receiver that the tracker and the filter have left.
  abbrev observed : StreamReceiver
  observed = record r { tracker = t; dedup = filter }

  reliable_known :
      (status : SequenceStatus) (now : ℕ)
      → contains r.dedup.recent_keys key ≡ true
      → deliver_reliable status (record r { tracker = t }) frame now ≡ (observed, ok ([], none))
  reliable_known status now known =
      unfold deliver_reliable in rw (duplicate-contains r.dedup key, known)

  pub reliable_new :
      (status : SequenceStatus) (now : ℕ)
      → contains r.dedup.recent_keys key ≡ false
      → deliver_reliable status (record r { tracker = t }) frame now
        ≡ reliable_status status observed frame now
  reliable_new status now new = unfold deliver_reliable in rw (duplicate-contains r.dedup key, new)

  deliver_duplicate :
      (status : SequenceStatus) (now : ℕ)
      → t.expected_sequence ≡ r.tracker.expected_sequence
      → contains r.dedup.recent_keys key ≡ true
      → Delivers publisher r frame.header.sequence
          (deliver_reliable status (record r { tracker = t }) frame now)
  deliver_duplicate status now same known =
      rw (reliable_known status now known)
        (unchanged publisher r v frame small t filter none active same seen here)
    where
      here :
          Accounted r.tracker.expected_sequence r.recovery.buffered_out_of_order
            frame.header.sequence
      here = v.seen frame.header.sequence known

      seen :
          (q : ℕ)
          → contains filter.recent_keys (key_of r.stream_id publisher q) ≡ true
          → Accounted r.tracker.expected_sequence r.recovery.buffered_out_of_order q
      seen q k = elim (seen_after publisher r v frame small q k) [ inl a ↦ a | inr e ↦ rw e here ]

  deliver_old :
      (now s e : ℕ)
      → t.expected_sequence ≡ r.tracker.expected_sequence
      → frame.header.sequence < r.tracker.expected_sequence
      → contains r.dedup.recent_keys key ≡ false
      → Delivers publisher r frame.header.sequence (
          deliver_reliable
            (SequenceStatus.duplicate_or_old s e)
            (record r { tracker = t })
            frame
            now)
  deliver_old now s e same old new =
      rw (reliable_new (SequenceStatus.duplicate_or_old s e) now new) (
        unfold reliable_status in
        unchanged publisher r v frame small t filter none active same seen (inl old))
    where
      seen :
          (q : ℕ)
          → contains filter.recent_keys (key_of r.stream_id publisher q) ≡ true
          → Accounted r.tracker.expected_sequence r.recovery.buffered_out_of_order q
      seen q k = elim (seen_after publisher r v frame small q k) [
        | inl a ↦ a
        | inr at_it ↦ inl (omega arith)
      ]

  deliver_gap :
      (now x s from to : ℕ)
      → t.expected_sequence ≡ r.tracker.expected_sequence
      → r.tracker.expected_sequence < frame.header.sequence
      → contains r.dedup.recent_keys key ≡ false
      → Delivers publisher r frame.header.sequence
          (deliver_reliable (SequenceStatus.gap x s from to) (record r { tracker = t }) frame now)
  unfolding reliable_status reliable_request
  deliver_gap now x s from to same ahead new =
      rw (reliable_new (SequenceStatus.gap x s from to) now new) (
        requested (create_replay_request (buffer_frame r.recovery frame) from to now) (
          unfold buffer_frame in
          buffer-create_replay_request (buffer_frame r.recovery frame) from to now))
    where
      requested :
          (c : RecoveryEngine × Result ReplayRequestPayload RtdpError)
          → c.0.buffered_out_of_order
            ≡ insert frame.header.sequence frame r.recovery.buffered_out_of_order
          → Delivers publisher r frame.header.sequence (reliable_request observed c)
      requested (engine, ok request) e =
          buffered publisher r v frame small t filter engine (ok ([], some request)) active same
            (seen_after publisher r v frame small) ahead e refl
      requested (engine, err x) e =
          buffered publisher r v frame small t filter engine (err x) active same
            (seen_after publisher r v frame small) ahead e refl

  deliver_expected :
      (now : ℕ)
      → frame.header.sequence ≡ r.tracker.expected_sequence
      → t.expected_sequence ≡ frame.header.sequence + 1
      → contains r.dedup.recent_keys key ≡ false
      → Delivers publisher r frame.header.sequence (
          deliver_reliable
            (SequenceStatus.in_order frame.header.sequence)
            (record r { tracker = t })
            frame
            now)
  deliver_expected now here next new =
      let s = frame.header.sequence in
      let e : inc64 s ≡ s + 1 = omega arith in
      rw (reliable_new (SequenceStatus.in_order s) now new) (
        unfold reliable_status in
        in_order publisher r v frame small t filter s (drain_contiguous r.recovery (inc64 s)).0
          (drain_contiguous r.recovery (inc64 s)).1 active here next
          (seen_after publisher r v frame small)
          (rw e (drain_contiguous-Drained r.recovery (s + 1) (omega arith) v.keyed)))

pub process_reliable :
    (r : StreamReceiver) (frame : OwnedFrame) (now : ℕ) (t : Tracker) (status : SequenceStatus)
    → r.mode ≡ DeliveryMode.reliable_ordered
    → observe r.tracker frame.header.publisher_id frame.header.sequence ≡ (t, status)
    → process_data_frame r frame now ≡ deliver_reliable status (record r { tracker = t }) frame now
unfolding process_data_frame deliver_mode
process_reliable r frame now t status mode seen =
    ap
      (λ (o : Tracker × SequenceStatus).
        deliver_mode r.mode o.1 (record r { tracker = o.0 }) frame now)
      seen
    ∙ ap (λ m. deliver_mode m status (record r { tracker = t }) frame now) mode

-- A frame that is expected is not known to the filter.
pub not_known :
    (p : ℕ) (r : StreamReceiver)
    → IsOrdered p r
    → contains r.dedup.recent_keys (key_of r.stream_id p r.tracker.expected_sequence) ≡ false
not_known p r v =
    elim (Bool-cases
      (contains r.dedup.recent_keys (key_of r.stream_id p r.tracker.expected_sequence))) [
        | inl known ↦ elim (v.seen r.tracker.expected_sequence known) [
          | inl lt ↦ absurd (omega arith)
          | inr there ↦ absurd (there v.waiting)
        ]
        | inr new ↦ new
      ]

-- A frame of the one publisher keeps the receiver ordered. What it delivers counts up from the
-- expected sequence, which moves behind it; no sequence is lost track of, and the frame's own is
-- delivered or buffered, whether or not a replay request could be made.
pub process-Delivers :
    (p : ℕ) (r : StreamReceiver) (frame : OwnedFrame) (now : ℕ)
    → IsOrdered p r
    → frame.header.publisher_id ≡ p
    → 1 ≤ frame.header.sequence
    → frame.header.sequence < 2 ^ 64 - 1
    → Delivers p r frame.header.sequence (process_data_frame r frame now)
process-Delivers p r frame now v by lo hi =
    subst (λ q. IsOrdered q r → Delivers q r frame.header.sequence (process_data_frame r frame now))
      by own v
  where
    by_cases :
        (v : IsOrdered frame.header.publisher_id r) (t : Tracker) (status : SequenceStatus)
        → t.active_publisher_id ≡ some frame.header.publisher_id
        → Observed r.tracker frame.header.sequence t status
        → Delivers frame.header.publisher_id r frame.header.sequence
            (deliver_reliable status (record r { tracker = t }) frame now)
    by_cases v t status active (inl (here, e, next)) = rw e (
        deliver_expected r frame v hi t active now here next
          (rw (← here) at (not_known frame.header.publisher_id r v)))
    by_cases v t status active (inr (inl (old, e, same))) =
        rw e (elim (Bool-cases (contains r.dedup.recent_keys (key r frame v hi t active))) [
          | inl known ↦
              deliver_duplicate r frame v hi t active
                (SequenceStatus.duplicate_or_old frame.header.sequence r.tracker.expected_sequence)
                now same known
          | inr new ↦
              deliver_old r frame v hi t active now frame.header.sequence
                r.tracker.expected_sequence same old new
        ])
    by_cases v t status active (inr (inr (ahead, e, same))) =
        rw e (elim (Bool-cases (contains r.dedup.recent_keys (key r frame v hi t active))) [
          | inl known ↦
              deliver_duplicate r frame v hi t active
                (SequenceStatus.gap r.tracker.expected_sequence frame.header.sequence
                  r.tracker.expected_sequence (frame.header.sequence - 1))
                now same known
          | inr new ↦
              deliver_gap r frame v hi t active now r.tracker.expected_sequence
                frame.header.sequence r.tracker.expected_sequence (frame.header.sequence - 1) same
                ahead new
        ])

    own :
        IsOrdered frame.header.publisher_id r
        → Delivers frame.header.publisher_id r frame.header.sequence
            (process_data_frame r frame now)
    own v =
        let (t, status, seen, active, cases) =
          observe-Ready r.tracker frame.header.publisher_id frame.header.sequence v.ready lo hi in
        rw (process_reliable r frame now t status v.reliable seen)
          (by_cases v t status active cases)
