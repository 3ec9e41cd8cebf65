-- ===== src/Delivery/Receiver/Ordered/Next.antt =====
-- What the expected frame does to an ordered receiver (core/src/delivery/modes.rs) that holds
-- nothing back.
use real_time_data_platform.Base.{
  ℕ, ◌+◌, ◌-◌, ◌^◌, ◌≤◌, ◌<◌, ◌≡◌, inl, inr, refl, sym, ap, ◌∙◌, none, some, List, [], ◌∷◌, inc64,
  arith, length,
}
use real_time_data_platform.Error.{ok}
use real_time_data_platform.Protocol.Frame.{OwnedFrame}
use real_time_data_platform.Sequence.Tracker.{Tracker, SequenceStatus}
use real_time_data_platform.Recovery.Data.{RecoveryEngine}
use real_time_data_platform.Recovery.Engine.{drain_contiguous, drain_loop}
use real_time_data_platform.Delivery.Receiver.{
  StreamReceiver, Outcome, note_drained, reliable_in_order, reliable_status, deliver_reliable,
  process_data_frame,
}
use real_time_data_platform.Delivery.Receiver.Ordered.{delivered, IsOrdered, observe-Ready}
use real_time_data_platform.Delivery.Receiver.Ordered.Step.{
  process_reliable, reliable_new, not_known, process-Delivers,
}

-- What becomes of a receiver that delivers the expected frame, and nothing else.
pub record Follows (p : ℕ) (r : StreamReceiver) (frame : OwnedFrame) (o : Outcome) : Type 0 where
  pub answer : o.1 ≡ ok (frame ∷ [], none)
  pub ordered : IsOrdered p o.0
  pub recovery : o.0.recovery ≡ r.recovery
  pub expected : o.0.tracker.expected_sequence ≡ frame.header.sequence + 1

nothing_drained :
    (e : RecoveryEngine) (s : ℕ) → e.buffered_out_of_order ≡ [] → drain_contiguous e s ≡ (e, [])
unfolding drain_contiguous drain_loop
nothing_drained e s nothing =
    ap
      (λ (m : List (ℕ × OwnedFrame)).
        let (frames, left) = drain_loop (length m) s m in
        (record e { buffered_out_of_order = left }, frames))
      nothing
    ∙ sym (ap (λ m. (record e { buffered_out_of_order = m }, [])) nothing)

module _ (r : StreamReceiver) (frame : OwnedFrame) (now : ℕ)
    (v : IsOrdered frame.header.publisher_id r) (nothing : r.recovery.buffered_out_of_order ≡ [])
    (here : frame.header.sequence ≡ r.tracker.expected_sequence)
    (small : frame.header.sequence < 2 ^ 64 - 1) where
  delivers_alone :
      (t : Tracker)
      → t.active_publisher_id ≡ some frame.header.publisher_id
      → (let o =
            deliver_reliable
              (SequenceStatus.in_order frame.header.sequence)
              (record r { tracker = t })
              frame
              now in
          (o.1 ≡ ok (frame ∷ [], none)) × (o.0.recovery ≡ r.recovery))
  unfolding reliable_status reliable_in_order note_drained
  delivers_alone t active =
      let s = frame.header.sequence in
      rw
        (
          reliable_new r frame v small t active (SequenceStatus.in_order s) now
              (rw here (not_known frame.header.publisher_id r v)),
          nothing_drained r.recovery (inc64 s) nothing,
        )
        (refl, refl)

-- The expected frame.
pub process-Follows :
    (r : StreamReceiver) (frame : OwnedFrame) (now : ℕ)
    → IsOrdered frame.header.publisher_id r
    → r.recovery.buffered_out_of_order ≡ []
    → frame.header.sequence ≡ r.tracker.expected_sequence
    → 1 ≤ frame.header.sequence
    → frame.header.sequence < 2 ^ 64 - 1
    → Follows frame.header.publisher_id r frame (process_data_frame r frame now)
process-Follows r frame now v nothing here lo small =
    let (t, status, seen, active, cases) =
      observe-Ready r.tracker frame.header.publisher_id frame.header.sequence v.ready lo small in
    let d = process-Delivers frame.header.publisher_id r frame now v refl lo small in
    elim cases [
      | inl (at_it, e, next) ↦
          let o = process_data_frame r frame now in
          let (answer, kept) : (o.1 ≡ ok (frame ∷ [], none)) × (o.0.recovery ≡ r.recovery) =
            rw (process_reliable r frame now t status v.reliable seen, e)
              (delivers_alone r frame now v nothing here small t active) in
          record {
            answer = answer;
            ordered = d.inv;
            recovery = kept;
            expected = omega (arith, d.grows, ap (λ o. length (delivered o)) answer);
          }
      | inr (inl (old, e, same)) ↦ absurd (omega arith)
      | inr (inr (gap, e, same)) ↦ absurd (omega arith)
    ]
