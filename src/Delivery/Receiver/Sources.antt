-- ===== src/Delivery/Receiver/Sources.antt =====
-- Where the frames come from that a receiver (core/src/delivery/modes.rs) delivers, in every mode.
use real_time_data_platform.Base.{
  ℕ, ◌≡◌, inl, inr, refl, List, [], ◌∷◌, ltb, inc64, length, Bool-cases,
}
use real_time_data_platform.Base.Map.{insert-Entries}
use real_time_data_platform.Error.{RtdpError, Result, ok, err}
use real_time_data_platform.Protocol.Frame.{OwnedFrame}
use real_time_data_platform.Sequence.Tracker.{SequenceStatus, advance_expected}
use real_time_data_platform.Sequence.Dedup.{is_duplicate_and_record}
use real_time_data_platform.Recovery.Data.{RecoveryEngine, ReplayRequestPayload}
use real_time_data_platform.Recovery.Engine.{buffer_frame, drain_contiguous, reset}
use real_time_data_platform.Recovery.Engine.Sources.{
  All, Buffered, drain_loop-All, create_replay_request-buffer,
}
use real_time_data_platform.Delivery.Receiver.{
  DeliveryMode, StreamReceiver, Outcome, deliver_best_effort, deliver_latest, at_least_once_gap,
  deliver_at_least_once, note_drained, reliable_in_order, reliable_request, reliable_status,
  deliver_reliable, deliver_mode, process_data_frame,
}
use real_time_data_platform.Delivery.Receiver.Ordered.{delivered, key_of}

module _ (P : OwnedFrame → Type 0) where
  -- What a call that ends in `o` delivers and keeps.
  abbrev pub Keeps : Outcome → Type 0
  Keeps o = All P (delivered o.1) × Buffered P o.0.recovery

  note_drained-recovery :
      (r : StreamReceiver) (cs : List OwnedFrame) → (note_drained r cs).recovery ≡ r.recovery
  unfolding note_drained
  note_drained-recovery r [] = refl
  note_drained-recovery r (c ∷ cs) =
      note_drained-recovery
        (record r {
          highest_delivered_sequence = c.header.sequence;
          tracker = advance_expected r.tracker (inc64 c.header.sequence);
        })
        cs

  module _ (r : StreamReceiver) (frame : OwnedFrame) (now : ℕ) (h : P frame)
      (b : Buffered P r.recovery) where
    reliable_in_order-Keeps : (s : ℕ) → Keeps (reliable_in_order r frame s)
    unfolding reliable_in_order drain_contiguous
    reliable_in_order-Keeps s =
        let m = r.recovery.buffered_out_of_order in
        let (given, left) = drain_loop-All P (length m) (inc64 s) m b in
        rw (note_drained-recovery _ _) ((h, given), left)

    reliable_request-Keeps :
        (engine : RecoveryEngine) (answer : Result ReplayRequestPayload RtdpError)
        → Buffered P engine
        → Keeps (reliable_request r (engine, answer))
    unfolding reliable_request
    reliable_request-Keeps engine (ok request) b' = (tt, b')
    reliable_request-Keeps engine (err e) b' = (tt, b')

    reliable_status-Keeps : (status : SequenceStatus) → Keeps (reliable_status status r frame now)
    unfolding reliable_status buffer_frame reset
    reliable_status-Keeps (SequenceStatus.in_order s) = reliable_in_order-Keeps s
    reliable_status-Keeps (SequenceStatus.gap expected received from to) =
        reliable_request-Keeps _ _ (
          rw (create_replay_request-buffer P (buffer_frame r.recovery frame) from to now) (
            insert-Entries (λ _ f. P f) frame.header.sequence frame r.recovery.buffered_out_of_order
              h b))
    reliable_status-Keeps (SequenceStatus.duplicate_or_old s expected) = (tt, b)
    reliable_status-Keeps (SequenceStatus.publisher_reset old new initial) = ((h, tt), tt)

    at_least_once_gap-Keeps :
        (engine : RecoveryEngine) (answer : Result ReplayRequestPayload RtdpError)
        → Buffered P engine
        → Keeps (at_least_once_gap r frame (engine, answer))
    unfolding at_least_once_gap
    at_least_once_gap-Keeps engine (ok request) b' = ((h, tt), b')
    at_least_once_gap-Keeps engine (err e) b' = (tt, b')

    at_least_once-Keeps :
        (status : SequenceStatus) → Keeps (deliver_at_least_once status r frame now)
    unfolding deliver_at_least_once
    at_least_once-Keeps (SequenceStatus.in_order s) = ((h, tt), b)
    at_least_once-Keeps (SequenceStatus.gap expected received from to) =
        at_least_once_gap-Keeps _ _ (rw (create_replay_request-buffer P r.recovery from to now) b)
    at_least_once-Keeps (SequenceStatus.duplicate_or_old s expected) = ((h, tt), b)
    at_least_once-Keeps (SequenceStatus.publisher_reset old new initial) = ((h, tt), b)

    latest-Keeps : Keeps (deliver_latest r frame)
    unfolding deliver_latest
    latest-Keeps = elim (Bool-cases (ltb r.highest_delivered_sequence frame.header.sequence)) [
      | inl newer ↦ rw (deliver_latest, newer) ((h, tt), b)
      | inr stale ↦ rw (deliver_latest, stale) (tt, b)
    ]

  deliver_reliable-Keeps :
      (r : StreamReceiver) (frame : OwnedFrame) (now : ℕ) (status : SequenceStatus)
      → P frame
      → Buffered P r.recovery
      → Keeps (deliver_reliable status r frame now)
  unfolding deliver_reliable
  deliver_reliable-Keeps r frame now status h b =
      let key = key_of r.stream_id frame.header.publisher_id frame.header.sequence in
      elim (Bool-cases (is_duplicate_and_record r.dedup key).1) [
        | inl known ↦ rw (deliver_reliable, known) (tt, b)
        | inr fresh ↦ rw (deliver_reliable, fresh) (reliable_status-Keeps _ frame now h b status)
      ]

  deliver_mode-Keeps :
      (mode : DeliveryMode) (r : StreamReceiver) (frame : OwnedFrame) (now : ℕ)
      (status : SequenceStatus)
      → P frame
      → Buffered P r.recovery
      → Keeps (deliver_mode mode status r frame now)
  unfolding deliver_mode deliver_best_effort
  deliver_mode-Keeps DeliveryMode.best_effort r frame now status h b = ((h, tt), b)
  deliver_mode-Keeps DeliveryMode.latest r frame now status h b = latest-Keeps r frame now h b
  deliver_mode-Keeps DeliveryMode.at_least_once r frame now status h b =
      at_least_once-Keeps r frame now h b status
  deliver_mode-Keeps DeliveryMode.reliable_ordered r frame now status h b =
      deliver_reliable-Keeps r frame now status h b

  -- In every mode, if a property holds of the frame that comes and of the frames that are held
  -- back, it holds of the frames that are delivered and of those that are held back afterwards.
  pub process_data_frame-All :
      (r : StreamReceiver) (frame : OwnedFrame) (now : ℕ)
      → P frame
      → Buffered P r.recovery
      → All P (delivered (process_data_frame r frame now).1)
        × Buffered P (process_data_frame r frame now).0.recovery
  unfolding process_data_frame
  process_data_frame-All r frame now h b = deliver_mode-Keeps r.mode _ frame now _ h b
